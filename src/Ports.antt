-- ===== src/Ports.antt =====
-- TCP port lists (app/utils/tcp_ports.py), the text that a target stores (`normalize_ports` of
-- app/models/targets.py), and what the scheduler reads from it (app/monitor/scheduler.py).
mod Decimal
mod Sets
mod Stored
mod Tests
use justup.Prelude.{
  ℕ, zero, suc, ◌+◌, ◌-◌, ◌*◌, ◌/◌, ◌%◌, Bool, true, false, ◌&&◌, ◌||◌, Option, none, some, List,
  [], ◌∷◌, ◌++◌, ◌==◌, ltb, leb, ℤ, pos, negsuc, if◌then◌else◌,
}
use justup.Text.{strip, is_space}

abbrev pub Text : Type 0
Text = List ℕ

-- What `parse_port` is given. Of a `float`, `Decimal` or `Fraction` the integer is kept where the
-- number is whole.
pub data Token : Type 0 where
  boolean other : Token
  text : Text → Token
  integer : ℤ → Token
  number : Option ℤ → Token

abbrev pub is_digit : ℕ → Bool
is_digit c = leb b'0' c && leb c b'9'

unfoldable pub all_digits : Text → Bool
all_digits [] = true
all_digits (c ∷ t) = is_digit c && all_digits t

-- text.isascii() and text.isdigit()
unfoldable pub is_number : Text → Bool
unfolding all_digits
is_number [] = false
is_number (c ∷ t) = all_digits (c ∷ t)

-- int(text), of digits behind the value of those before them
unfoldable pub int_from : ℕ → Text → ℕ
int_from acc [] = acc
int_from acc (c ∷ t) = int_from (acc * 10 + (c - 48)) t

-- PORT_MIN <= port <= PORT_MAX
abbrev pub in_range : ℤ → Option ℕ
in_range (negsuc n) = none
in_range (pos n) = if leb 1 n && leb n 65535 then some n else none

abbrev pub in_range_of : Option ℤ → Option ℕ
in_range_of none = none
in_range_of (some z) = in_range z

-- `none` is the `ValueError`.
unfoldable pub parse_port : Token → Option ℕ
unfolding is_number int_from
parse_port boolean = none
parse_port other = none
parse_port (text t) = let s = strip t in if is_number s then in_range (pos (int_from 0 s)) else none
parse_port (integer z) = in_range z
parse_port (number whole) = in_range_of whole

-- A set of ports, kept in ascending order as `sorted` gives it.
unfoldable pub insert : ℕ → List ℕ → List ℕ
insert p [] = p ∷ []
insert p (q ∷ qs) =
    let rest = insert p qs in if ltb p q then p ∷ q ∷ qs else if p == q then q ∷ qs else q ∷ rest

abbrev pub add_port : Option ℕ → Option (List ℕ) → Option (List ℕ)
add_port none ps = none
add_port (some p) none = none
add_port (some p) (some ps) = some (insert p ps)

-- sorted({parse_port(t) for t in tokens})
unfoldable pub parse_ports : List Token → Option (List ℕ)
unfolding parse_port insert
parse_ports [] = some []
parse_ports (t ∷ ts) = add_port (parse_port t) (parse_ports ts)

abbrev pub is_separator : ℕ → Bool
is_separator c = c == b',' || is_space c

abbrev pub grow : ℕ → List Text → List Text
grow c [] = (c ∷ []) ∷ []
grow c (w ∷ ws) = (c ∷ w) ∷ ws

unfoldable pub split_words : Text → List Text
split_words [] = [] ∷ []
split_words (c ∷ t) = let rest = split_words t in if is_separator c then [] ∷ rest else grow c rest

abbrev pub texts_of : List Text → List Token
texts_of [] = []
texts_of ([] ∷ ws) = texts_of ws
texts_of ((c ∷ w) ∷ ws) = text (c ∷ w) ∷ texts_of ws

-- [t for t in re.split(r"[,\s]+", value.strip()) if t]
unfoldable pub tokens_of : Text → List Token
unfolding split_words
tokens_of value = texts_of (split_words (strip value))

-- What `parse_port_list` is given; of anything else, `words` is its `str`.
pub data PortList : Type 0 where
  missing a_boolean : PortList
  list_of : List Token → PortList
  an_integer : ℤ → PortList
  words : Text → PortList

unfoldable pub parse_port_list : PortList → Option (List ℕ)
unfolding parse_ports tokens_of
parse_port_list missing = some []
parse_port_list a_boolean = none
parse_port_list (list_of tokens) = parse_ports tokens
parse_port_list (an_integer z) = parse_ports (integer z ∷ [])
parse_port_list (words value) = parse_ports (tokens_of value)

-- str(n)
unfoldable pub decimal_from : ℕ → ℕ → Text
decimal_from zero n = []
decimal_from (suc fuel) n =
    let more = decimal_from fuel (n / 10) in
    if ltb n 10 then (48 + n) ∷ [] else more ++ (48 + n % 10) ∷ []

-- A number has fewer digits than its value plus one.
unfoldable pub decimal : ℕ → Text
unfolding decimal_from
decimal n = decimal_from (n + 1) n

-- ",".join(str(p) for p in ports)
unfoldable pub join_ports : List ℕ → Text
unfolding decimal
join_ports [] = []
join_ports (p ∷ []) = decimal p
join_ports (p ∷ q ∷ qs) = decimal p ++ b',' ∷ join_ports (q ∷ qs)

abbrev pub text_or : Option Text → List ℕ → Option Text
text_or default [] = default
text_or default (p ∷ ps) = some (join_ports (p ∷ ps))

-- The outer `none` is the `ValueError`, the inner one the default for an update.
unfoldable pub normalize_ports : PortList → Option Text → Option (Option Text)
unfolding parse_port_list join_ports
normalize_ports value default = elim (parse_port_list value) [
  | none ↦ none
  | some ports ↦ some (text_or default ports)
]

abbrev pub or_port_80 : List ℕ → List ℕ
or_port_80 [] = 80 ∷ []
or_port_80 (p ∷ ps) = p ∷ ps

unfoldable pub stored_tcp_ports : PortList → List ℕ
unfolding parse_port_list
stored_tcp_ports value = elim (parse_port_list value) [ none ↦ [] | some ports ↦ or_port_80 ports ]
