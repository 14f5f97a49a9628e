-- ===== src/RateLimit/Grammar.antt =====
-- The texts that `parse_limit` (app/utils/rate_limit.py) accepts, and what it reads from them.
use justup.Prelude.{
  ℕ, zero, suc, ◌+◌, ◌-◌, ◌*◌, ◌≤◌, ◌<◌, ◌≡◌, ◌↔◌, refl, sym, ◌∙◌, ap, ◌⊎◌, inl, inr, true, some,
  List, [], ◌∷◌, ◌++◌, arith, append-nil, length, All, Bool-cases,
}
use mathlib.Core.Path.{ap₂}
use justup.Text.{codes}
use justup.RateLimit.Parse.{
  is_digit, is_leading, digits, same_text, ends_with_unit, unit_seconds, after_digits, parse_limit,
}

pub data LimitUnit : Type 0 where
  second minute hour day : LimitUnit

abbrev pub unit_text : LimitUnit → List ℕ
unit_text second = codes "second"
unit_text minute = codes "minute"
unit_text hour = codes "hour"
unit_text day = codes "day"

abbrev pub seconds_of : LimitUnit → ℕ
seconds_of second = 1
seconds_of minute = 60
seconds_of hour = 3600
seconds_of day = 86400

-- The number that decimal digits spell, after `acc`.
abbrev pub decimal : ℕ → List ℕ → ℕ
decimal acc [] = acc
decimal acc (c ∷ ds) = decimal (acc * 10 + (c - 48)) ds

abbrev pub AreDigits : List ℕ → Type 0
AreDigits = All (λ c. is_digit c ≡ true)

abbrev pub IsTail : List ℕ → Type 0
IsTail tail = (tail ≡ []) ⊎ (tail ≡ b'\n' ∷ [])

-- A text that spells `count` and `seconds` as the limit grammar has it, with what may follow it.
pub record IsLimit (text : List ℕ) (count seconds : ℕ) : Type 0 where
  pub first : ℕ
  pub others : List ℕ
  pub unit : LimitUnit
  pub tail : List ℕ
  pub spelled : text ≡ first ∷ (others ++ (b'/' ∷ (unit_text unit ++ tail)))
  pub leading : is_leading first ≡ true
  pub decimals : AreDigits others
  pub short : length others ≤ 5
  pub ending : IsTail tail
  pub counted : count ≡ decimal (first - 48) others
  pub timed : seconds ≡ seconds_of unit

same_text-eq : (xs ys : List ℕ) → same_text xs ys ≡ true → xs ≡ ys
unfolding same_text
same_text-eq [] [] h = refl
same_text-eq [] (y ∷ ys) h = cc
same_text-eq (x ∷ xs) [] h = cc
same_text-eq (x ∷ xs) (y ∷ ys) h = ground (arith, same_text-eq xs ys)

same_text_refl : (xs : List ℕ) → same_text xs xs ≡ true
unfolding same_text
same_text_refl [] = refl
same_text_refl (x ∷ xs) = ground (arith, same_text_refl xs)

digits_read :
    (k acc : ℕ) (s : List ℕ)
    → (ds : List ℕ) × (s ≡ ds ++ (digits k acc s).1)
      × (length ds ≤ k)
      × AreDigits ds
      × ((digits k acc s).0 ≡ decimal acc ds)
unfolding digits
digits_read zero acc s = ([], refl, omega arith, tt, refl)
digits_read (suc k) acc [] = ([], refl, omega arith, tt, refl)
digits_read (suc k) acc (c ∷ s) = elim (Bool-cases (is_digit c)) [
  | inl e ↦
      let (ds, split, few, all, value) = digits_read k (acc * 10 + (c - 48)) s in
      rw e (c ∷ ds, ap (◌∷◌ c) split, omega arith, (e, all), value)
  | inr e ↦ rw e ([], refl, omega arith, tt, refl)
]

digits-append :
    (k acc : ℕ) (ds : List ℕ) (s : List ℕ)
    → AreDigits ds
    → length ds ≤ k
    → digits k acc (ds ++ (b'/' ∷ s)) ≡ (decimal acc ds, b'/' ∷ s)
unfolding digits
digits-append zero acc [] s h l = refl
digits-append zero acc (d ∷ ds) s h l = absurd (omega arith)
digits-append (suc k) acc [] s h l = refl
digits-append (suc k) acc (d ∷ ds) s h l =
    rw h.0 (digits-append k (acc * 10 + (d - 48)) ds s h.1 (omega arith))

unit_end :
    (unit s : List ℕ)
    → ends_with_unit unit s ≡ true
    → (tail : List ℕ) × (s ≡ unit ++ tail) × IsTail tail
unfolding ends_with_unit
unit_end unit s h = elim (Bool-cases (same_text s unit)) [
  | inl e ↦ ([], same_text-eq s unit e ∙ sym (append-nil unit), inl refl)
  | inr e ↦ (b'\n' ∷ [], same_text-eq s (unit ++ b'\n' ∷ []) (rw e at h), inr refl)
]

unit_read :
    (s : List ℕ) (u : ℕ)
    → unit_seconds s ≡ some u
    → (unit : LimitUnit) × (tail : List ℕ) × (s ≡ unit_text unit ++ tail)
      × IsTail tail
      × (u ≡ seconds_of unit)
unfolding unit_seconds
unit_read s u h = elim (Bool-cases (ends_with_unit (codes "second") s)) [
  | inl e ↦ let (t, p, q) = unit_end (codes "second") s e in (second, t, p, q, ground arith)
  | inr e ↦ elim (Bool-cases (ends_with_unit (codes "minute") s)) [
    | inl f ↦ let (t, p, q) = unit_end (codes "minute") s f in (minute, t, p, q, ground arith)
    | inr f ↦ elim (Bool-cases (ends_with_unit (codes "hour") s)) [
      | inl g ↦ let (t, p, q) = unit_end (codes "hour") s g in (hour, t, p, q, ground arith)
      | inr g ↦ elim (Bool-cases (ends_with_unit (codes "day") s)) [
        | inl i ↦ let (t, p, q) = unit_end (codes "day") s i in (day, t, p, q, ground arith)
        | inr i ↦ absurd (ground arith)
      ]
    ]
  ]
]

unit_written :
    (unit : LimitUnit) (tail : List ℕ)
    → IsTail tail
    → unit_seconds (unit_text unit ++ tail) ≡ some (seconds_of unit)
unfolding unit_seconds
unit_written second tail (inl e) = rw e refl
unit_written second tail (inr e) = rw e refl
unit_written minute tail (inl e) = rw e refl
unit_written minute tail (inr e) = rw e refl
unit_written hour tail (inl e) = rw e refl
unit_written hour tail (inr e) = rw e refl
unit_written day tail (inl e) = rw e refl
unit_written day tail (inr e) = rw e refl

after_digits-IsLimit :
    (c : ℕ) (ds rest : List ℕ) (v n u : ℕ)
    → is_leading c ≡ true
    → AreDigits ds
    → length ds ≤ 5
    → v ≡ decimal (c - 48) ds
    → after_digits (v, rest) ≡ some (n, u)
    → IsLimit (c ∷ (ds ++ rest)) n u
unfolding after_digits
after_digits-IsLimit c ds [] v n u lead all few value h = absurd (ground arith)
after_digits-IsLimit c ds (x ∷ s) v n u lead all few value h =
    let slash : x ≡ b'/' = ground arith in
    let read : unit_seconds s ≡ some u = ground arith in
    let (unit, tail, split, ends, timed) = unit_read s u read in
    record {
      first = c;
      others = ds;
      unit = unit;
      tail = tail;
      spelled = ap (λ r. c ∷ (ds ++ r)) (ap₂ ◌∷◌ slash split);
      leading = lead;
      decimals = all;
      short = few;
      ending = ends;
      counted = ground arith;
      timed = timed;
    }

parse_limit-IsLimit : (text : List ℕ) (n u : ℕ) → parse_limit text ≡ some (n, u) → IsLimit text n u
unfolding parse_limit
parse_limit-IsLimit [] n u h = absurd (ground arith)
parse_limit-IsLimit (c ∷ s) n u h = elim (Bool-cases (is_leading c)) [
  | inl e ↦
      let (ds, split, few, all, value) = digits_read 5 (c - 48) s in
      let r = digits 5 (c - 48) s in
      let g : after_digits (r.0, r.1) ≡ some (n, u) = rw e at h in
      rw split (after_digits-IsLimit c ds r.1 r.0 n u e all few value g)
  | inr e ↦ absurd (ground arith)
]

IsLimit-parse_limit : (text : List ℕ) (n u : ℕ) → IsLimit text n u → parse_limit text ≡ some (n, u)
unfolding parse_limit
IsLimit-parse_limit text n u l = rw (
  l.spelled,
  l.leading,
  digits-append 5 (l.first - 48) l.others (unit_text l.unit ++ l.tail) l.decimals l.short,
  unit_written l.unit l.tail l.ending,
  l.counted,
  l.timed,
)

-- `parse_limit` accepts exactly the texts of a nonzero leading digit, up to five more digits, a
-- slash and one of the four units, with at most a line feed behind them, and returns the number
-- that the digits spell and the seconds of the unit.
pub parse_limit_exact :
    (text : List ℕ) (n u : ℕ) → (parse_limit text ≡ some (n, u)) ↔ IsLimit text n u
parse_limit_exact text n u = (parse_limit-IsLimit text n u, IsLimit-parse_limit text n u)

decimal-ge : (acc : ℕ) (ds : List ℕ) → acc ≤ decimal acc ds
decimal-ge acc [] = omega arith
decimal-ge acc (c ∷ ds) = omega (arith, decimal-ge (acc * 10 + (c - 48)) ds)

-- Ten times `b` for each digit.
scaled : ℕ → List ℕ → ℕ
scaled b [] = b
scaled b (c ∷ ds) = scaled (b * 10) ds

decimal-lt : (acc b : ℕ) (ds : List ℕ) → AreDigits ds → acc < b → decimal acc ds < scaled b ds
unfolding scaled
decimal-lt acc b [] h l = l
decimal-lt acc b (c ∷ ds) h l = decimal-lt (acc * 10 + (c - 48)) (b * 10) ds h.1 (ground arith)

scaled-le : (ds : List ℕ) → length ds ≤ 5 → scaled 10 ds ≤ 1000000
unfolding scaled
scaled-le [] h = omega arith
scaled-le (_ ∷ []) h = omega arith
scaled-le (_ ∷ _ ∷ []) h = omega arith
scaled-le (_ ∷ _ ∷ _ ∷ []) h = omega arith
scaled-le (_ ∷ _ ∷ _ ∷ _ ∷ []) h = omega arith
scaled-le (_ ∷ _ ∷ _ ∷ _ ∷ _ ∷ []) h = omega arith
scaled-le (_ ∷ _ ∷ _ ∷ _ ∷ _ ∷ _ ∷ ds) h = absurd (omega arith)

seconds_of_bounds : (u : LimitUnit) → (1 ≤ seconds_of u) × (seconds_of u ≤ 86400)
seconds_of_bounds second = (omega arith, omega arith)
seconds_of_bounds minute = (omega arith, omega arith)
seconds_of_bounds hour = (omega arith, omega arith)
seconds_of_bounds day = (omega arith, omega arith)

-- A limit that parses allows between 1 and 999999 requests in a window of a second to a day.
pub parse_limit_bounds :
    (text : List ℕ) (n u : ℕ)
    → parse_limit text ≡ some (n, u)
    → (1 ≤ n) × (n ≤ 999999) × (1 ≤ u) × (u ≤ 86400)
parse_limit_bounds text n u h =
    let l = parse_limit-IsLimit text n u h in
    let lead : (49 ≤ l.first) × (l.first ≤ 57) =
      let k = l.leading in (ground arith, ground arith) in
    let low = decimal-ge (l.first - 48) l.others in
    let high = decimal-lt (l.first - 48) 10 l.others l.decimals (omega arith) in
    let most = scaled-le l.others l.short in
    let unit = seconds_of_bounds l.unit in
    let c = l.counted in let t = l.timed in (omega arith, omega arith, omega arith, omega arith)
