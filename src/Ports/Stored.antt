-- ===== src/Ports/Stored.antt =====
-- The text that is stored for a port list, and what the scheduler reads from it
-- (`normalize_ports` of app/models/targets.py, `_stored_tcp_ports` of app/monitor/scheduler.py).
use justup.Prelude.{
  ℕ, ◌<◌, ◌≡◌, refl, ap, subst, ◌∙◌, sym, true, false, Option, some, List, [], ◌∷◌, ◌++◌, arith,
  All, All-append, map, reverse, append-nil,
}
use mathlib.Core.List
use mathlib.Core.List.{reverse-append}
use justup.Text.{strip, lstrip, is_space}
use justup.Ports.{
  Text, Token, text, PortList, words, is_number, all_digits, parse_port, insert, parse_ports,
  split_words, texts_of, tokens_of, parse_port_list, decimal, join_ports, normalize_ports,
  stored_tcp_ports,
}
use justup.Ports.Decimal.{decimal-Spells}
use justup.Ports.Sets.{Ascending, InRange, IsSetOf, Answers, parse_ports-Answers}

-- No white space, so that `strip` keeps the text.
abbrev Solid : Text → Type 0
Solid = All (λ c. is_space c ≡ false)

lstrip-Solid : (t : Text) → Solid t → lstrip t ≡ t
unfolding lstrip
lstrip-Solid [] h = refl
lstrip-Solid (c ∷ t) h = rw (h.0)

reverse-Solid : (t : Text) → Solid t → Solid (reverse t)
reverse-Solid [] h = tt
reverse-Solid (c ∷ t) h =
    rw (reverse-append (c ∷ []) t)
      (All-append (λ d. is_space d ≡ false) (reverse t) (c ∷ []) (reverse-Solid t h.1) (h.0, tt))

strip-Solid : (t : Text) → Solid t → strip t ≡ t
unfolding strip
strip-Solid t h =
    rw (lstrip-Solid t h, lstrip-Solid (reverse t) (reverse-Solid t h)) (List.reverse-reverse t)

all_digits-Solid : (t : Text) → all_digits t ≡ true → Solid t
unfolding all_digits is_space
all_digits-Solid [] h = tt
all_digits-Solid (c ∷ t) h = (ground arith, all_digits-Solid t (ground arith))

number-Solid : (t : Text) → is_number t ≡ true → Solid t
unfolding is_number
number-Solid [] h = cc
number-Solid (c ∷ t) h = all_digits-Solid (c ∷ t) h

join_ports-Solid : (ps : List ℕ) → Solid (join_ports ps)
unfolding join_ports
join_ports-Solid [] = tt
join_ports-Solid (p ∷ []) = number-Solid (decimal p) (decimal-Spells p).numeric
join_ports-Solid (p ∷ q ∷ qs) =
    All-append (λ d. is_space d ≡ false) (decimal p) (b',' ∷ join_ports (q ∷ qs))
      (number-Solid (decimal p) (decimal-Spells p).numeric)
      (unfold is_space in refl, join_ports-Solid (q ∷ qs))

-- A text with no separator is one word of the split.
split_words_digits :
    (t : Text) (ws : List Text) (s w : Text)
    → all_digits t ≡ true
    → split_words s ≡ w ∷ ws
    → split_words (t ++ s) ≡ (t ++ w) ∷ ws
unfolding split_words all_digits is_space
split_words_digits [] ws s w h e = e
split_words_digits (c ∷ t) ws s w h e = ground (arith, split_words_digits t ws s w (ground arith) e)

texts_of_number :
    (t : Text) (ws : List Text) → is_number t ≡ true → texts_of (t ∷ ws) ≡ text t ∷ texts_of ws
unfolding is_number
texts_of_number [] ws h = cc
texts_of_number (c ∷ t) ws h = refl

digits_of_number : (t : Text) → is_number t ≡ true → all_digits t ≡ true
unfolding is_number
digits_of_number [] h = cc
digits_of_number (c ∷ t) h = h

split_words-join : (p : ℕ) (ps : List ℕ) → split_words (join_ports (p ∷ ps)) ≡ map decimal (p ∷ ps)
unfolding join_ports
split_words-join p [] =
    let d = digits_of_number (decimal p) (decimal-Spells p).numeric in
    ap split_words (sym (append-nil (decimal p)))
    ∙ split_words_digits (decimal p) [] [] [] d (unfold split_words in refl)
    ∙ ap (λ w. w ∷ []) (append-nil (decimal p))
split_words-join p (q ∷ qs) =
    let d = digits_of_number (decimal p) (decimal-Spells p).numeric in
    split_words_digits (decimal p) (split_words (join_ports (q ∷ qs))) (b',' ∷ join_ports (q ∷ qs))
      [] d (unfold split_words in refl)
    ∙ rw (append-nil (decimal p), split_words-join q qs)

texts_of-decimals : (ps : List ℕ) → texts_of (map decimal ps) ≡ map (λ p. text (decimal p)) ps
texts_of-decimals [] = refl
texts_of-decimals (p ∷ ps) =
    texts_of_number (decimal p) (map decimal ps) (decimal-Spells p).numeric
    ∙ ap (λ ts. text (decimal p) ∷ ts) (texts_of-decimals ps)

parse_port-decimal : (p : ℕ) → InRange p → parse_port (text (decimal p)) ≡ some p
unfolding parse_port
parse_port-decimal p h =
    let s = decimal-Spells p in
    rw (strip-Solid (decimal p) (number-Solid (decimal p) s.numeric), s.numeric, s.value)
      (ground (arith, h.0, h.1))

insert_below : (p : ℕ) (ps : List ℕ) → All (λ q. p < q) ps → insert p ps ≡ p ∷ ps
unfolding insert
insert_below p [] h = refl
insert_below p (q ∷ qs) h = ground (arith, h.0)

parse_ports-decimals :
    (ps : List ℕ)
    → Ascending ps
    → All InRange ps
    → parse_ports (map (λ p. text (decimal p)) ps) ≡ some ps
unfolding parse_ports
parse_ports-decimals [] a r = refl
parse_ports-decimals (p ∷ ps) a r =
    rw (parse_port-decimal p r.0, parse_ports-decimals ps a.1 r.1, insert_below p ps a.0)

answered :
    (tokens : List Token) (ps : List ℕ)
    → parse_ports tokens ≡ some ps
    → Ascending ps × All InRange ps
answered tokens ps e =
    let set : IsSetOf tokens ps = subst (Answers tokens) e (parse_ports-Answers tokens) in
    (set.ascending, set.in_range)

parsed_in_order :
    (value : PortList) (ps : List ℕ)
    → parse_port_list value ≡ some ps
    → Ascending ps × All InRange ps
unfolding parse_port_list
parsed_in_order PortList.missing [] e = (tt, tt)
parsed_in_order PortList.missing (p ∷ ps) e = absurd (ground (arith, e))
parsed_in_order PortList.a_boolean ps e = absurd (ground (arith, e))
parsed_in_order (PortList.list_of tokens) ps e = answered tokens ps e
parsed_in_order (PortList.an_integer z) ps e = answered (Token.integer z ∷ []) ps e
parsed_in_order (words t) ps e = answered (tokens_of t) ps e

tokens_of-join :
    (p : ℕ) (ps : List ℕ) → tokens_of (join_ports (p ∷ ps)) ≡ map (λ q. text (decimal q)) (p ∷ ps)
unfolding tokens_of
tokens_of-join p ps =
    ap (λ t. texts_of (split_words t))
      (strip-Solid (join_ports (p ∷ ps)) (join_ports-Solid (p ∷ ps)))
    ∙ ap texts_of (split_words-join p ps)
    ∙ texts_of-decimals (p ∷ ps)

parse_stored :
    (p : ℕ) (ps : List ℕ)
    → Ascending (p ∷ ps) × All InRange (p ∷ ps)
    → parse_port_list (words (join_ports (p ∷ ps))) ≡ some (p ∷ ps)
unfolding parse_port_list
parse_stored p ps h = ap parse_ports (tokens_of-join p ps) ∙ parse_ports-decimals (p ∷ ps) h.0 h.1

-- What a target stores for a port list is what the scheduler checks: where `parse_port_list` gives
-- ports for whatever was handed in, the stored text is those ports joined by commas, and the
-- scheduler reads exactly those ports from it, in that order.
pub stored_ports_checked :
    (value : PortList) (default : Option Text) (p : ℕ) (ps : List ℕ)
    → parse_port_list value ≡ some (p ∷ ps)
    → (normalize_ports value default ≡ some (some (join_ports (p ∷ ps))))
      × (stored_tcp_ports (words (join_ports (p ∷ ps))) ≡ p ∷ ps)
unfolding normalize_ports stored_tcp_ports
stored_ports_checked value default p ps e = (
  rw (e, normalize_ports),
  rw (parse_stored p ps (parsed_in_order value (p ∷ ps) e), stored_tcp_ports),
)
