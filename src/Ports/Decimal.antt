-- ===== src/Ports/Decimal.antt =====
-- `str` of a number and `int` of its text.
use justup.Prelude.{
  ℕ, zero, suc, ◌+◌, ◌-◌, ◌*◌, ◌/◌, ◌%◌, ◌<◌, ◌≡◌, refl, subst, ◌∙◌, true, ◌&&◌, [], ◌∷◌, ◌++◌, ltb,
  arith, Bool-cases, inl, inr,
}
use justup.Ports.{Text, all_digits, is_number, int_from, decimal_from, decimal}

int_from-append : (acc : ℕ) (s t : Text) → int_from acc (s ++ t) ≡ int_from (int_from acc s) t
unfolding int_from
int_from-append acc [] t = refl
int_from-append acc (c ∷ s) t = int_from-append (acc * 10 + (c - 48)) s t

all_digits-append : (s t : Text) → all_digits (s ++ t) ≡ (all_digits s && all_digits t)
unfolding all_digits
all_digits-append [] t = refl
all_digits-append (c ∷ s) t = ground (arith, all_digits-append s t)

is_number-append :
    (s t : Text) → is_number s ≡ true → all_digits t ≡ true → is_number (s ++ t) ≡ true
unfolding is_number
is_number-append [] t h k = cc
is_number-append (c ∷ s) t h k = all_digits-append (c ∷ s) t ∙ rw (h, k)

pub record Spells (n : ℕ) (t : Text) : Type 0 where
  pub numeric : is_number t ≡ true
  pub value : int_from 0 t ≡ n

digit-Spells : (d : ℕ) → d < 10 → Spells d ((48 + d) ∷ [])
unfolding is_number all_digits int_from
digit-Spells d h = record { numeric = ground arith; value = ground arith }

append_digit-Spells :
    (m d : ℕ) (t : Text) → Spells m t → d < 10 → Spells (m * 10 + d) (t ++ (48 + d) ∷ [])
unfolding all_digits int_from
append_digit-Spells m d t s h = record {
  numeric = is_number-append t ((48 + d) ∷ []) s.numeric (ground arith);
  value = int_from-append 0 t ((48 + d) ∷ []) ∙ rw (s.value) (omega arith);
}

decimal_from-Spells : (fuel n : ℕ) → n < fuel → Spells n (decimal_from fuel n)
unfolding decimal_from
decimal_from-Spells zero n h = absurd (omega arith)
decimal_from-Spells (suc fuel) n h = elim (Bool-cases (ltb n 10)) [
  | inl e ↦ rw e (digit-Spells n (ground arith))
  | inr e ↦
      let shorter = decimal_from-Spells fuel (n / 10) (ground arith) in
      let t = decimal_from fuel (n / 10) ++ (48 + n % 10) ∷ [] in
      let same : (n / 10) * 10 + n % 10 ≡ n = omega arith in
      rw e (
        subst (λ k. Spells k t) same
          (append_digit-Spells (n / 10) (n % 10) (decimal_from fuel (n / 10)) shorter
            (omega arith)))
]

-- `int` reads back what `str` writes: digits alone, at least one.
pub decimal-Spells : (n : ℕ) → Spells n (decimal n)
unfolding decimal
decimal-Spells n = decimal_from-Spells (n + 1) n (omega arith)
