-- ===== src/ClientIp/Headers.antt =====
-- The header texts (app/utils/client_ip.py): quoted strings, nodes and the `Forwarded` header.
use justup.Prelude.{
  ℕ, Bool, true, false, not, ◌&&◌, ◌||◌, Option, none, List, [], ◌∷◌, ◌==◌, leb, ltb, length,
  count_if, if◌then◌else◌,
}
use justup.Text.{codes, strip, lower, before, same_text}
use justup.ClientIp.Addresses.{Text, Ip, grow, is_empty, valid_ip}

-- The state of `_split_quoted` after a character, and whether it ends a part. A part is built from
-- its end, where the code appends to a buffer.
abbrev pub escaped_after : Bool → Bool → ℕ → Bool
escaped_after in_quotes escaped c = not escaped && (in_quotes && c == b'\\')

abbrev pub quotes_after : Bool → Bool → ℕ → Bool
quotes_after in_quotes escaped c =
    if escaped || (in_quotes && c == b'\\')
    then in_quotes
    else if c == b'"'
    then not in_quotes
    else in_quotes

abbrev pub splits_at : ℕ → Bool → Bool → ℕ → Bool
splits_at sep in_quotes escaped c =
    not escaped
    && (not (in_quotes && c == b'\\') && (not (c == b'"') && (c == sep && not in_quotes)))

unfoldable pub split_from : ℕ → Bool → Bool → Text → List Text
unfolding grow
split_from sep in_quotes escaped [] = [] ∷ []
split_from sep in_quotes escaped (c ∷ t) =
    let rest =
      split_from sep (quotes_after in_quotes escaped c) (escaped_after in_quotes escaped c) t in
    if splits_at sep in_quotes escaped c then [] ∷ rest else grow c rest

unfoldable pub split_quoted : ℕ → Text → List Text
unfolding split_from
split_quoted sep text = split_from sep false false text

-- `text.partition(sep)`: whether the separator was found, and what is behind it
unfoldable pub has : ℕ → Text → Bool
has c [] = false
has c (d ∷ t) = d == c || has c t

unfoldable pub behind : ℕ → Text → Text
behind sep [] = []
behind sep (c ∷ t) = let rest = behind sep t in if c == sep then t else rest

-- re.sub(r"\\(.)", r"\1", text); the dot is not a line feed
unfoldable pub unescape : Text → Text
unescape [] = []
unescape (c ∷ []) = c ∷ []
unescape (c ∷ d ∷ t) =
    let one = d ∷ unescape t in
    let two = c ∷ unescape (d ∷ t) in if c == b'\\' && not (d == 10) then one else two

-- text[:-1]
unfoldable pub init : Text → Text
init [] = []
init (c ∷ []) = []
init (c ∷ d ∷ t) = c ∷ init (d ∷ t)

abbrev pub last_of : ℕ → Text → ℕ
last_of c [] = c
last_of c (d ∷ t) = last_of d t

unfoldable pub unquote_stripped : Text → Text
unfolding unescape init
unquote_stripped [] = []
unquote_stripped (c ∷ t) =
    if ltb 0 (length t) && (c == b'"' && last_of c t == b'"') then unescape (init t) else c ∷ t

unfoldable pub unquote : Text → Text
unfolding unquote_stripped
unquote value = unquote_stripped (strip value)

abbrev pub is_digit : ℕ → Bool
is_digit c = leb b'0' c && leb c b'9'

abbrev pub is_word : ℕ → Bool
is_word c =
    is_digit c
    || leb b'A' c && leb c b'Z'
    || leb b'a' c && leb c b'z'
    || c == b'.'
    || c == b'_'
    || c == b'-'

abbrev pub all_of : (ℕ → Bool) → Text → Bool
all_of p [] = true
all_of p (c ∷ t) = p c && all_of p t

abbrev pub is_port_name : Text → Bool
is_port_name [] = false
is_port_name (c ∷ t) =
    all_of is_digit (c ∷ t) && leb (length (c ∷ t)) 5
    || c == b'_' && (ltb 0 (length t) && all_of is_word t)

-- _NODE_PORT_RE.fullmatch
unfoldable pub is_node_port : Text → Bool
is_node_port [] = false
is_node_port (c ∷ t) = c == b':' && is_port_name t

-- name.strip().lower() == "for"
unfoldable pub is_for : Text → Bool
is_for name = same_text (lower (strip name)) (codes "for")

module _ (ip : Ip) where
  unfoldable pub bracketed_ip : Text → Option Text
  bracketed_ip t =
      let rest = behind b']' t in
      if not (has b']' t) || (not (is_empty rest) && not (is_node_port rest))
      then none
      else valid_ip ip (before b']' t)

  unfoldable pub plain_ip : Text → Option Text
  plain_ip node =
      if count_if (λ c. c == b':') node == 1
      then if is_node_port (b':' ∷ behind b':' node) then valid_ip ip (before b':' node) else none
      else valid_ip ip node

  unfoldable pub node_ip : Text → Option Text
  unfolding bracketed_ip plain_ip
  node_ip [] = plain_ip []
  node_ip (c ∷ t) = if c == b'[' then bracketed_ip t else plain_ip (c ∷ t)

  -- The first pair that is a `for` decides.
  unfoldable pub for_of : List Text → Option Text
  unfolding is_for
  for_of [] = none
  for_of (pair ∷ pairs) =
      let rest = for_of pairs in
      if has b'=' pair && is_for (before b'=' pair)
      then node_ip (unquote (behind b'=' pair))
      else rest

  unfoldable pub entries_from : List Text → List (Option Text)
  unfolding for_of
  entries_from [] = []
  entries_from (element ∷ elements) =
      let rest = entries_from elements in
      if is_empty (strip element) then rest else for_of (split_quoted b';' element) ∷ rest

  unfoldable pub forwarded_for_entries : Text → List (Option Text)
  unfolding entries_from
  forwarded_for_entries header = entries_from (split_quoted b',' header)
