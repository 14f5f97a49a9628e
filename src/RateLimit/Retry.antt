-- ===== src/RateLimit/Retry.antt =====
-- The waiting time that a refused request is told (app/utils/rate_limit.py).
use justup.Prelude.{
  ℕ, ◌+◌, ◌-◌, ◌≤◌, String, ◌≡◌, ◌≢◌, refl, sym, subst, ◌∙◌, ◌↔◌, ◌⊎◌, inl, inr, some, List, [],
  ◌∷◌, arith, length, get_or, ap,
}
use justup.RateLimit.{SlidingWindow, allowed, wait, capacity_exhausted, expire, hit}
use justup.RateLimit.Expiry.{Ascending, expire_index, expire-Ascending}
use justup.RateLimit.History.{stamps_of, KeyInv, verdict, noted}
use justup.RateLimit.Call.{hit-KeyInv, hit-Decides, hit_isolated, later}

refused :
    (limit window now d : ℕ) (xs : List ℕ)
    → verdict limit window now xs ≡ wait d
    → (limit ≤ length xs)
      × (1 ≤ limit)
      × (d ≡ get_or xs (length xs - limit) 0 + window - now)
      × (noted limit now xs ≡ xs)
refused limit window now d xs e = ground arith

admits :
    (limit window now t d : ℕ) (xs : List ℕ)
    → Ascending xs
    → verdict limit window now xs ≡ wait d
    → now ≤ t
    → (verdict limit window t (expire t window xs) ≡ allowed) ↔ (now + d ≤ t)
admits limit window now t d xs up e h =
    ground (arith, refused limit window now d xs e, expire_index t window xs (length xs - limit) up)

module _ (key : String) (limit window now t d n : ℕ) (w : SlidingWindow) (v : KeyInv key n w)
    (h : n ≤ now) where
  abbrev refused_state : SlidingWindow
  refused_state = (hit key (some limit) (some window) now w).1

  refused_left :
      (hit key (some limit) (some window) now w).0 ≡ wait d
      → (xs : List ℕ) × Ascending xs
        × (verdict limit window now xs ≡ wait d)
        × (stamps_of key refused_state ≡ xs)
  refused_left e = elim (hit-Decides key (some limit) (some window) now n w v) [
    | inl (r, _, _) ↦ cc
    | inr (r, s) ↦
        let xs = expire now window (stamps_of key w) in
        let q = sym r ∙ e in
        (
          xs,
          expire-Ascending now window (stamps_of key w) v.rising,
          q,
          s ∙ (refused limit window now d xs q).3,
        )
  ]

-- Requests of other keys, each with its own limit
unfoldable pub others : ℕ → List (ℕ × String × ℕ) → SlidingWindow → SlidingWindow
others window [] w = w
others window ((now, key, limit) ∷ requests) w =
    others window requests (hit key (some limit) (some window) now w).1

-- They come in order between two times, and none is of the key.
abbrev pub Between : String → ℕ → ℕ → List (ℕ × String × ℕ) → Type 0
Between j since until [] = since ≤ until
Between j since until ((now, key, limit) ∷ requests) =
    (since ≤ now) × (j ≢ key) × Between j now until requests

Between-le :
    (j : String) (since until : ℕ) (requests : List (ℕ × String × ℕ))
    → Between j since until requests
    → since ≤ until
Between-le j since until [] b = b
Between-le j since until ((now, key, limit) ∷ requests) b =
    omega (arith, b.0, Between-le j now until requests b.2)

others-kept :
    (j : String) (window since until : ℕ) (requests : List (ℕ × String × ℕ)) (w : SlidingWindow)
    → ((k : String) → KeyInv k since w)
    → Between j since until requests
    → ((k : String) → KeyInv k until (others window requests w))
      × (expire until window (stamps_of j (others window requests w))
          ≡ expire until window (stamps_of j w))
unfolding others
others-kept j window since until [] w v b = (λ k. later b (v k), refl)
others-kept j window since until ((now, key, limit) ∷ requests) w v b =
    let next = (hit key (some limit) (some window) now w).1 in
    let (inv, same) =
      others-kept j window now until requests next
        (λ k. hit-KeyInv key (some limit) (some window) now since w (v key) k b.0 (v k)) b.2 in
    (
      inv,
      same
          ∙ hit_isolated j key (some limit) (some window) now until since w (v j) b.1
              (Between-le j now until requests b.2),
    )

-- A refused request is told the exact wait: repeated later, after any requests of other keys, it is told
-- to wait again before that time has passed, and once it has, it is admitted, unless the other
-- requests have filled the table meanwhile. Requests share the window of the limiter, and none of
-- the key comes in between.
pub wait_exact :
    (key : String) (limit window now t d n : ℕ) (requests : List (ℕ × String × ℕ))
    (w : SlidingWindow)
    → ((k : String) → KeyInv k n w)
    → n ≤ now
    → Between key now t requests
    → (hit key (some limit) (some window) now w).0 ≡ wait d
    → let u = others window requests (hit key (some limit) (some window) now w).1 in
      let repeated = (hit key (some limit) (some window) t u).0 in
      ((repeated ≡ allowed) ⊎ ((repeated ≡ capacity_exhausted) × (requests ≢ []))) ↔ (now + d ≤ t)
unfolding others expire
wait_exact key limit window now t d n requests w v h b e =
    let (xs, up, q, s) = refused_left key limit window now t d n w (v key) h e in
    let u = (hit key (some limit) (some window) now w).1 in
    let known = refused limit window now d xs q in
    let exact = admits limit window now t d xs up q (Between-le key now t requests b) in
    let (inv, same) =
      others-kept key window now t requests u
        (λ k. hit-KeyInv key (some limit) (some window) now n w (v key) k h (v k)) b in
    let left = same ∙ ap (expire t window) s in
    elim (hit-Decides key (some limit) (some window) t t (others window requests u) (inv key)) [
      | inl (full, empty, _) ↦
          let gone : expire t window xs ≡ [] = sym left ∙ ap (expire t window) empty in
          (
            λ _. exact.0 (rw gone (ground (arith, known))),
            λ _. inr (
              full,
              λ none_yet.
                  let nothing : stamps_of key u ≡ [] =
                    subst (λ rs. stamps_of key (others window rs u) ≡ []) none_yet empty in
                  absurd (omega (arith, known, ap length (sym nothing ∙ s))),
            ),
          )
      | inr (r, _) ↦
          let decided = r ∙ ap (verdict limit window t) left in
          (
            λ a. elim a [
              | inl yes_now ↦ exact.0 (sym decided ∙ yes_now)
              | inr (full, _) ↦ absurd (ground (arith, sym decided ∙ full))
            ],
            λ long. inl (decided ∙ exact.1 long),
          )
    ]
