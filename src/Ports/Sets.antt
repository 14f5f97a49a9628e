-- ===== src/Ports/Sets.antt =====
-- The ports of a list of tokens (app/utils/tcp_ports.py, `parse_port_list`) against the set of what the
-- tokens stand for.
use justup.Prelude.{
  ℕ, ◌≤◌, ◌<◌, ◌≡◌, refl, Bool, true, false, ◌||◌, Option, none, some, List, [], ◌∷◌, ◌==◌, arith,
  All, All-map, pos, negsuc, ℤ,
}
use justup.Ports.{
  Token, boolean, other, text, integer, number, in_range, int_from, parse_port, insert, add_port,
  parse_ports,
}
use justup.Text.{strip}

abbrev pub Ascending : List ℕ → Type 0
Ascending [] = Unit
Ascending (p ∷ ps) = All (λ q. p < q) ps × Ascending ps

abbrev pub InRange : ℕ → Type 0
InRange p = (1 ≤ p) × (p ≤ 65535)

abbrev pub has_port : ℕ → List ℕ → Bool
has_port p [] = false
has_port p (q ∷ qs) = p == q || has_port p qs

insert-above :
    (b p : ℕ) (ps : List ℕ) → b < p → All (λ q. b < q) ps → All (λ q. b < q) (insert p ps)
unfolding insert
insert-above b p [] h a = (h, tt)
insert-above b p (q ∷ qs) h a = ground (arith, a.0, a.1, insert-above b p qs h a.1)

insert-Ascending : (p : ℕ) (ps : List ℕ) → Ascending ps → Ascending (insert p ps)
unfolding insert
insert-Ascending p [] a = (tt, tt)
insert-Ascending p (q ∷ qs) a =
    let rest = insert-Ascending p qs a.1 in
    let wider : p < q → All (λ r. p < r) qs = λ h. All-map (λ r k. omega arith) qs a.0 in
    let below : q < p → All (λ r. q < r) (insert p qs) = λ h. insert-above q p qs h a.0 in
    ground (arith, a.0, a.1, rest, wider, below)

has_port-insert : (x p : ℕ) (ps : List ℕ) → has_port x (insert p ps) ≡ (x == p || has_port x ps)
unfolding insert
has_port-insert x p [] = refl
has_port-insert x p (q ∷ qs) = ground (arith, has_port-insert x p qs)

insert-InRange : (p : ℕ) (ps : List ℕ) → InRange p → All InRange ps → All InRange (insert p ps)
unfolding insert
insert-InRange p [] h a = (h, tt)
insert-InRange p (q ∷ qs) h a = ground (arith, a.0, a.1, insert-InRange p qs h a.1)

in_range-InRange : (z : ℤ) (p : ℕ) → in_range z ≡ some p → InRange p
in_range-InRange (pos n) p h = ground arith
in_range-InRange (negsuc n) p h = absurd (ground arith)

parse_port-InRange : (t : Token) (p : ℕ) → parse_port t ≡ some p → InRange p
unfolding parse_port
parse_port-InRange boolean p h = absurd (ground arith)
parse_port-InRange other p h = absurd (ground arith)
parse_port-InRange (text s) p h = ground (arith, in_range-InRange (pos (int_from 0 (strip s))) p)
parse_port-InRange (integer z) p h = in_range-InRange z p h
parse_port-InRange (number none) p h = absurd (ground arith)
parse_port-InRange (number (some z)) p h = in_range-InRange z p h

-- Whether a token stands for a port, or for none.
abbrev pub stands_for : ℕ → Option ℕ → Bool
stands_for x none = false
stands_for x (some p) = x == p

abbrev pub any_stands_for : ℕ → List Token → Bool
any_stands_for x [] = false
any_stands_for x (t ∷ ts) = stands_for x (parse_port t) || any_stands_for x ts

abbrev pub is_invalid : Option ℕ → Bool
is_invalid none = true
is_invalid (some p) = false

abbrev pub any_invalid : List Token → Bool
any_invalid [] = false
any_invalid (t ∷ ts) = is_invalid (parse_port t) || any_invalid ts

pub record IsSetOf (tokens : List Token) (ports : List ℕ) : Type 0 where
  pub ascending : Ascending ports
  pub in_range : All InRange ports
  pub same : (x : ℕ) → has_port x ports ≡ any_stands_for x tokens
  pub all_valid : any_invalid tokens ≡ false

abbrev pub Answers : List Token → Option (List ℕ) → Type 0
Answers tokens none = any_invalid tokens ≡ true
Answers tokens (some ports) = IsSetOf tokens ports

Answers-add_port :
    (t : Token) (ts : List Token) (p : Option ℕ) (ps : Option (List ℕ))
    → parse_port t ≡ p
    → Answers ts ps
    → Answers (t ∷ ts) (add_port p ps)
Answers-add_port t ts none ps e h = rw e
Answers-add_port t ts (some p) none e h = ground (arith, e, h)
Answers-add_port t ts (some p) (some ps) e h = record {
  ascending = insert-Ascending p ps h.ascending;
  in_range = insert-InRange p ps (parse_port-InRange t p e) h.in_range;
  same = λ x. rw (e, has_port-insert x p ps, h.same x);
  all_valid = ground (arith, e, h.all_valid);
}

-- The ports that a list of tokens gives are in strictly ascending order, between 1 and 65535, and
-- exactly those that a token stands for; it is refused exactly where some token stands for none.
pub parse_ports-Answers : (tokens : List Token) → Answers tokens (parse_ports tokens)
unfolding parse_ports
parse_ports-Answers [] = record {
  ascending = tt;
  in_range = tt;
  same = λ x. refl;
  all_valid = refl;
}
parse_ports-Answers (t ∷ ts) =
    Answers-add_port t ts (parse_port t) (parse_ports ts) refl (parse_ports-Answers ts)
