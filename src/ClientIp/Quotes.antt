-- ===== src/ClientIp/Quotes.antt =====
-- A quoted string that is not closed in `Forwarded` (app/utils/client_ip.py, `_split_quoted`).
use justup.Prelude.{
  ℕ, ◌≡◌, refl, ap, ◌∙◌, Bool, true, false, not, ◌&&◌, none, some, List, [], ◌∷◌, ◌++◌,
  append_assoc, append-nil, reverse, ◌==◌, Bool-cases, inl, inr, arith, All,
}
use mathlib.Core.List.{reverse-append}
use justup.Text.{codes, strip, lstrip, is_space, before, same_text, lower}
use justup.ClientIp.Addresses.{Text, Ip, is_empty, is_trusted, grow}
use justup.ClientIp.Headers.{
  split_from, split_quoted, has, behind, unquote, is_for, node_ip, for_of, entries_from,
  forwarded_for_entries,
}
use justup.ClientIp.Requests.{
  Request, join, peer_of, walk, trusts, client_from_chain, from_headers, from_forwarded, real_ip_of,
  resolve_peer, resolve_trusted_client_ip,
}

-- A character that neither opens a quoted string nor ends an element or a pair.
abbrev pub is_plain : ℕ → Bool
is_plain c = not (c == b'"') && (not (c == b',') && not (c == b';'))

abbrev pub is_unquoted : ℕ → Bool
is_unquoted c = not (c == b'"') && not (c == b'\\')

split_from-quoted :
    (sep : ℕ) (t : Text) → All (λ c. is_unquoted c ≡ true) t → split_from sep true false t ≡ t ∷ []
unfolding split_from grow
split_from-quoted sep [] h = refl
split_from-quoted sep (c ∷ t) h = ground (arith, h.0, split_from-quoted sep t h.1)

abbrev prefix : Text → List Text → List Text
prefix [] parts = parts
prefix (c ∷ p) parts = grow c (prefix p parts)

prefix_part : (p t : Text) (parts : List Text) → prefix p (t ∷ parts) ≡ (p ++ t) ∷ parts
unfolding grow
prefix_part [] t parts = refl
prefix_part (c ∷ p) t parts = rw (prefix_part p t parts)

abbrev is_clean : ℕ → ℕ → Bool
is_clean sep c = not (c == b'"') && not (c == sep)

split_from-clean :
    (sep : ℕ) (p t : Text)
    → All (λ c. is_clean sep c ≡ true) p
    → split_from sep false false (p ++ t) ≡ prefix p (split_from sep false false t)
unfolding split_from
split_from-clean sep [] t h = refl
split_from-clean sep (c ∷ p) t h =
    let rest = split_from-clean sep p t h.1 in
    let a : (c == b'"') ≡ false = ground (arith, h.0) in
    let b : (c == sep) ≡ false = ground (arith, h.0) in rw (a, b, rest)

-- The element that a client sends: its pair, and a quoted string that it does not close.
abbrev pub open_element : Text → Text
open_element evil = codes "for=" ++ evil ++ codes ";x=\""

plain_clean :
    (p : Text)
    → All (λ c. is_plain c ≡ true) p
    → All (λ c. is_clean b',' c ≡ true) p × All (λ c. is_clean b';' c ≡ true) p
plain_clean [] h = (tt, tt)
plain_clean (c ∷ p) h =
    let rest = plain_clean p h.1 in ((ground (arith, h.0), rest.0), (ground (arith, h.0), rest.1))

-- What follows the open quote is one part.
tail_parts :
    (honest : Text)
    → All (λ c. is_unquoted c ≡ true) honest
    → (split_from b',' false false (codes ";x=\"" ++ honest) ≡ (codes ";x=\"" ++ honest) ∷ [])
      × (split_from b';' false false (codes ";x=\"" ++ honest) ≡ [] ∷ (codes "x=\"" ++ honest) ∷ [])
unfolding split_from grow
tail_parts honest h = (rw (split_from-quoted b',' honest h), rw (split_from-quoted b';' honest h))

lstrip_end : (t : Text) (c : ℕ) → is_space c ≡ false → is_empty (lstrip (t ++ c ∷ [])) ≡ false
unfolding lstrip
lstrip_end [] c h = rw h
lstrip_end (d ∷ t) c h = elim (Bool-cases (is_space d)) [
  | inl e ↦ rw e (lstrip_end t c h)
  | inr e ↦ rw e
]

is_empty-append : (t : Text) (c : ℕ) → is_empty (t ++ c ∷ []) ≡ false
is_empty-append [] c = refl
is_empty-append (d ∷ t) c = refl

is_empty-reverse : (t : Text) → is_empty t ≡ false → is_empty (reverse t) ≡ false
is_empty-reverse [] h = h
is_empty-reverse (c ∷ t) h = rw (reverse-append (c ∷ []) t) (is_empty-append (reverse t) c)

is_empty-strip : (c : ℕ) (t : Text) → is_space c ≡ false → is_empty (strip (c ∷ t)) ≡ false
unfolding strip
is_empty-strip c t h =
    is_empty-reverse (lstrip (reverse (lstrip (c ∷ t))))
      (unfold lstrip in rw (h, reverse-append (c ∷ []) t) (lstrip_end (reverse t) c h))

for-is_for : is_for (codes "for") ≡ true
unfolding is_for strip lstrip is_space lower same_text
for-is_for = refl

element_parts :
    (evil honest : Text)
    → All (λ c. is_plain c ≡ true) evil
    → All (λ c. is_unquoted c ≡ true) honest
    → (split_quoted b',' (open_element evil ++ honest)
        ≡ ((codes "for=" ++ evil) ++ (codes ";x=\"" ++ honest)) ∷ [])
      × (split_quoted b';' ((codes "for=" ++ evil) ++ (codes ";x=\"" ++ honest))
          ≡ (codes "for=" ++ evil) ∷ (codes "x=\"" ++ honest) ∷ [])
unfolding split_quoted
element_parts evil honest p q =
    let pair = codes "for=" ++ evil in
    let tail = codes ";x=\"" ++ honest in
    let clean = plain_clean evil p in
    let parts = tail_parts honest q in
    let comma =
      split_from-clean b',' pair tail (refl, (refl, (refl, (refl, clean.0))))
      ∙ ap (prefix pair) parts.0
      ∙ prefix_part pair tail [] in
    let semicolon =
      split_from-clean b';' pair tail (refl, (refl, (refl, (refl, clean.1))))
      ∙ ap (prefix pair) parts.1
      ∙ prefix_part pair [] ((codes "x=\"" ++ honest) ∷ []) in
    (
      ap (split_from b',' false false) (append_assoc pair (codes ";x=\"") honest) ∙ comma,
      semicolon ∙ ap (λ t. t ∷ (codes "x=\"" ++ honest) ∷ []) (append-nil pair),
    )

module _ (ip : Ip) where
  for_of_pair :
      (evil : Text) (pairs : List Text)
      → for_of ip ((codes "for=" ++ evil) ∷ pairs) ≡ node_ip ip (unquote evil)
  unfolding for_of has before behind
  for_of_pair evil pairs = rw for-is_for

  -- The client's element and what a proxy appends are read as one element, of the client's pair.
  open_entries :
      (evil honest : Text)
      → All (λ c. is_plain c ≡ true) evil
      → All (λ c. is_unquoted c ≡ true) honest
      → forwarded_for_entries ip (open_element evil ++ honest) ≡ node_ip ip (unquote evil) ∷ []
  unfolding forwarded_for_entries entries_from
  open_entries evil honest p q =
      let parts = element_parts evil honest p q in
      let text = evil ++ (codes ";x=\"" ++ honest) in
      let starts : is_empty (strip ((codes "for=" ++ evil) ++ (codes ";x=\"" ++ honest))) ≡ false =
        is_empty-strip b'f' (codes "or=" ++ text) (unfold is_space in refl) in
      rw (parts.0, starts, parts.1)
        (ap (λ e. e ∷ []) (for_of_pair evil ((codes "x=\"" ++ honest) ∷ [])))

module _ (ip : Ip) (nets : List (ip.Net)) where
  single_client :
      (c : Text) → trusts ip nets c ≡ false → client_from_chain ip nets (some c ∷ []) ≡ some c
  unfolding client_from_chain walk
  single_client c h = rw h

  open_client :
      (evil honest : Text) (a : ℕ) (c : Text)
      → All (λ c. is_plain c ≡ true) evil
      → All (λ c. is_unquoted c ≡ true) honest
      → node_ip ip (unquote evil) ≡ some (a ∷ c)
      → trusts ip nets (a ∷ c) ≡ false
      → client_from_chain ip nets
          (forwarded_for_entries ip (join (open_element evil ∷ honest ∷ [])))
        ≡ some (a ∷ c)
  unfolding join
  open_client evil honest a c p q e t =
      rw (open_entries ip evil (b',' ∷ honest) p (refl, q), e) (single_client (a ∷ c) t)

  from_headers_spoofed :
      (r : Request) (values : List Text) (v : Text) (vs : List Text) (peer : Text) (a : ℕ)
      (c : Text)
      → values ≡ []
      → real_ip_of ip nets r.real_ip ≡ none
      → r.forwarded ≡ v ∷ vs
      → client_from_chain ip nets (forwarded_for_entries ip (join (v ∷ vs))) ≡ some (a ∷ c)
      → from_headers ip nets values r peer ≡ a ∷ c
  unfolding from_headers from_forwarded
  from_headers_spoofed r values v vs peer a c ex er ef e =
      ap (λ xs. from_headers ip nets xs r peer) ex
      ∙ rw (er, from_headers)
          (ap (λ xs. from_forwarded ip nets xs peer) ef ∙ rw (e, from_forwarded))

  resolve_peer_trusted :
      (r : Request) (peer : Text) (addr : ip.Addr)
      → ip.ip_address peer ≡ some addr
      → is_trusted ip nets addr ≡ true
      → resolve_peer ip nets r peer ≡ from_headers ip nets r.forwarded_for r (ip.str addr)
  unfolding resolve_peer
  resolve_peer_trusted r peer addr e t = rw (e, resolve_peer, t)

-- A client chooses its own address where a trusted proxy forwards `Forwarded` and neither
-- `X-Forwarded-For` nor a usable `X-Real-IP`: it sends a pair `for=` with an address that is not trusted and then a quoted
-- string that it does not close. Whatever the proxy appends in a value of its own, without quotes and
-- backslashes, is read as a part of that string, and the request counts as the chosen address's.
pub forwarded_spoofed :
    (ip : Ip) (nets : List (ip.Net)) (r : Request) (evil honest host : Text) (h a : ℕ) (c : Text)
    (addr : ip.Addr)
    → r.host ≡ some (h ∷ host)
    → ip.ip_address (h ∷ host) ≡ some addr
    → is_trusted ip nets addr ≡ true
    → r.forwarded_for ≡ []
    → real_ip_of ip nets r.real_ip ≡ none
    → r.forwarded ≡ open_element evil ∷ honest ∷ []
    → All (λ c. is_plain c ≡ true) evil
    → All (λ c. is_unquoted c ≡ true) honest
    → node_ip ip (unquote evil) ≡ some (a ∷ c)
    → trusts ip nets (a ∷ c) ≡ false
    → resolve_trusted_client_ip ip nets r ≡ a ∷ c
unfolding resolve_trusted_client_ip
forwarded_spoofed ip nets r evil honest host h a c addr eh ea et ex er ef p q e t =
    ap (λ o. resolve_peer ip nets r (peer_of ip nets o)) eh
    ∙ resolve_peer_trusted ip nets r (h ∷ host) addr ea et
    ∙ from_headers_spoofed ip nets r r.forwarded_for (open_element evil) (honest ∷ []) (ip.str addr)
        a c ex er ef (open_client ip nets evil honest a c p q e t)
