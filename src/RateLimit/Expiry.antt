-- ===== src/RateLimit/Expiry.antt =====
-- The stamps of one key (app/utils/rate_limit.py, `SlidingWindow.hit`), oldest first.
use justup.Prelude.{
  ℕ, zero, suc, ◌+◌, ◌≤◌, ◌<◌, ◌≡◌, refl, ◌↔◌, Bool, ◌&&◌, List, [], ◌∷◌, ◌++◌, arith, leb, ltb,
  length, get_or, count_if, All, All-append, if◌then◌else◌, Bool-cases, inl, inr,
}

-- while stamps and stamps[0] <= now - self._window: stamps.popleft()
unfoldable pub expire : ℕ → ℕ → List ℕ → List ℕ
expire now window [] = []
expire now window (s ∷ stamps) =
    let rest = expire now window stamps in if leb (s + window) now then rest else s ∷ stamps

-- A stamp that still counts at `t`.
abbrev pub live : ℕ → ℕ → ℕ → Bool
live window t s = ltb t (s + window)

-- A stamp in the window that ends at `t`.
abbrev pub within : ℕ → ℕ → ℕ → Bool
within window t s = leb s t && ltb t (s + window)

abbrev pub AtLeast : ℕ → List ℕ → Type 0
AtLeast b = All (λ s. b ≤ s)

abbrev pub Ascending : List ℕ → Type 0
Ascending [] = Unit
Ascending (s ∷ stamps) = AtLeast s stamps × Ascending stamps

pub expire-length-le : (now w : ℕ) (xs : List ℕ) → length (expire now w xs) ≤ length xs
unfolding expire
expire-length-le now w [] = omega arith
expire-length-le now w (s ∷ xs) = ground (arith, expire-length-le now w xs)

pub expire-Ascending : (now w : ℕ) (xs : List ℕ) → Ascending xs → Ascending (expire now w xs)
unfolding expire
expire-Ascending now w [] h = tt
expire-Ascending now w (s ∷ xs) h = ground (arith, expire-Ascending now w xs)

-- `popleft` drops only what no longer counts.
pub expire-live :
    (now w t : ℕ) (xs : List ℕ)
    → now ≤ t
    → count_if (live w t) (expire now w xs) ≡ count_if (live w t) xs
unfolding expire
expire-live now w t [] h = refl
expire-live now w t (s ∷ xs) h = ground (arith, expire-live now w t xs)

pub expire-expire :
    (now w t : ℕ) (xs : List ℕ) → now ≤ t → expire t w (expire now w xs) ≡ expire t w xs
unfolding expire
expire-expire now w t [] h = refl
expire-expire now w t (s ∷ xs) h = ground (arith, expire-expire now w t xs)

get_or-AtLeast : (b : ℕ) (xs : List ℕ) (i : ℕ) → AtLeast b xs → i < length xs → b ≤ get_or xs i 0
get_or-AtLeast b [] i h k = absurd (omega arith)
get_or-AtLeast b (x ∷ xs) zero h k = h.0
get_or-AtLeast b (x ∷ xs) (suc i) h k = get_or-AtLeast b xs i h.1 (omega arith)

-- On ascending stamps more than `i` of them go exactly when the one at index `i` has run out.
pub expire_index :
    (t w : ℕ) (xs : List ℕ) (i : ℕ)
    → Ascending xs
    → i < length xs
    → (length (expire t w xs) + i < length xs) ↔ (get_or xs i 0 + w ≤ t)
unfolding expire
expire_index t w [] i h k = absurd (omega arith)
expire_index t w (x ∷ xs) zero h k = ground (arith, expire-length-le t w xs)
expire_index t w (x ∷ xs) (suc i) h k =
    ground (arith, expire_index t w xs i h.1, get_or-AtLeast x xs i h.0)

pub Ascending-snoc :
    (xs : List ℕ) (n : ℕ) → Ascending xs → All (λ s. s ≤ n) xs → Ascending (xs ++ n ∷ [])
Ascending-snoc [] n h k = (tt, tt)
Ascending-snoc (x ∷ xs) n h k =
    (All-append (λ s. x ≤ s) xs (n ∷ []) h.0 (k.0, tt), Ascending-snoc xs n h.1 k.1)

pub expire_expired : (t w : ℕ) (xs : List ℕ) → All (λ s. s + w ≤ t) xs → expire t w xs ≡ []
unfolding expire
expire_expired t w [] h = refl
expire_expired t w (x ∷ xs) h = ground (arith, expire_expired t w xs)

pub expire-All {κ} : (P : ℕ → Type κ) (t w : ℕ) (xs : List ℕ) → All P xs → All P (expire t w xs)
unfolding expire
expire-All P t w [] h = tt
expire-All P t w (x ∷ xs) h = elim (Bool-cases (leb (x + w) t)) [
  | inl e ↦ rw e (expire-All P t w xs h.1)
  | inr e ↦ rw e h
]
