-- ===== src/RateLimit/Parse.antt =====
-- `parse_limit` of app/utils/rate_limit.py, over the code points of the text.
use justup.Text.{codes}
use justup.Prelude.{
  ℕ, zero, suc, ◌+◌, ◌-◌, ◌*◌, ◌≡◌, refl, Bool, true, false, ◌&&◌, ◌||◌, Option, none, some, List,
  [], ◌∷◌, ◌++◌, leb, ◌==◌, if◌then◌else◌,
}

abbrev pub is_digit : ℕ → Bool
is_digit c = leb b'0' c && leb c b'9'

abbrev pub is_leading : ℕ → Bool
is_leading c = leb b'1' c && leb c b'9'

-- `[0-9]{0,k}`, greedy, with the value of the digits so far.
unfoldable pub digits : ℕ → ℕ → List ℕ → ℕ × List ℕ
digits zero acc s = (acc, s)
digits (suc k) acc [] = (acc, [])
digits (suc k) acc (c ∷ s) =
    let rest = digits k (acc * 10 + (c - 48)) s in if is_digit c then rest else (acc, c ∷ s)

unfoldable pub same_text : List ℕ → List ℕ → Bool
same_text [] [] = true
same_text (x ∷ xs) (y ∷ ys) = x == y && same_text xs ys
same_text _ _ = false

-- `$` matches at the end, and also before a line feed that ends the text.
unfoldable pub ends_with_unit : List ℕ → List ℕ → Bool
unfolding same_text
ends_with_unit unit s = same_text s unit || same_text s (unit ++ b'\n' ∷ [])

-- `(second|minute|hour|day)$`, and `_UNIT_SECONDS`
unfoldable pub unit_seconds : List ℕ → Option ℕ
unfolding ends_with_unit
unit_seconds s =
    if ends_with_unit (codes "second") s
    then some 1
    else if ends_with_unit (codes "minute") s
    then some 60
    else if ends_with_unit (codes "hour") s
    then some 3600
    else if ends_with_unit (codes "day") s
    then some 86400
    else none

abbrev pub with_count : ℕ → Option ℕ → Option (ℕ × ℕ)
with_count n none = none
with_count n (some u) = some (n, u)

unfoldable pub after_digits : ℕ × List ℕ → Option (ℕ × ℕ)
unfolding unit_seconds
after_digits (n, []) = none
after_digits (n, c ∷ s) = if c == b'/' then with_count n (unit_seconds s) else none

-- `none` is the `ValueError`.
unfoldable pub parse_limit : List ℕ → Option (ℕ × ℕ)
unfolding after_digits digits
parse_limit [] = none
parse_limit (c ∷ s) = if is_leading c then after_digits (digits 5 (c - 48) s) else none

parse_examples :
    (parse_limit (codes "5/minute") ≡ some (5, 60))
    × (parse_limit (codes "05/minute") ≡ none)
    × (parse_limit (codes "1000000/day") ≡ none)
    × (parse_limit (codes "5/minutes") ≡ none)
    × (parse_limit (codes "999999/day") ≡ some (999999, 86400))
unfolding parse_limit
parse_examples = (refl, refl, refl, refl, refl)
