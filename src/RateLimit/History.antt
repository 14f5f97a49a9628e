-- ===== src/RateLimit/History.antt =====
-- What one call of `SlidingWindow.hit` (app/utils/rate_limit.py) does to the stamps of each key.
use justup.Prelude.{
  ℕ, ◌+◌, ◌-◌, ◌≤◌, String, ◌≡◌, refl, sym, ◌∙◌, inl, inr, Bool, false, Option, none, some, List,
  [], ◌∷◌, ◌++◌, arith, leb, length, get_or, All, All-map, str_eq, eq_iff, Bool-cases,
  if◌then◌else◌, ltb_false→le, ap, All-append, ◌&&◌,
}
use justup.Dict
use justup.Dict.{Dict}
use justup.RateLimit.{
  SlidingWindow, Hit, allowed, wait, index_error, expire, last_or, is_active, init, sweep,
  count_hit, make_room,
}
use justup.RateLimit.Expiry.{Ascending, expire_expired, Ascending-snoc}

abbrev pub stamps_or : Option (List ℕ) → List ℕ
stamps_or none = []
stamps_or (some xs) = xs

-- The stamps of a key, none for a key that is not in the table.
abbrev pub stamps_of : String → SlidingWindow → List ℕ
stamps_of j w = stamps_or (Dict.get j w.hits)

pub record KeyInv (j : String) (now : ℕ) (w : SlidingWindow) : Type 0 where
  pub once : Dict.occurs j w.hits ≤ 1
  pub rising : Ascending (stamps_of j w)
  pub past : All (λ s. s ≤ now) (stamps_of j w)

pub init-KeyInv : (j : String) (limit window max_keys : ℕ) → KeyInv j 0 (init limit window max_keys)
unfolding init
init-KeyInv j limit window max_keys = record {
  once = rw (Dict.occurs-nil (List ℕ) j) (omega arith);
  rising = rw (Dict.get-nil {V = List ℕ} j) tt;
  past = rw (Dict.get-nil {V = List ℕ} j) tt;
}

last-bound : (x : ℕ) (xs : List ℕ) → Ascending (x ∷ xs) → All (λ s. s ≤ last_or x xs) (x ∷ xs)
unfolding last_or
last-bound x [] h = (omega arith, tt)
last-bound x (y ∷ ys) h = let rest = last-bound y ys h.1 in (ground (arith, rest.0, h.0.0), rest)

inactive-expire :
    (now w t : ℕ) (xs : List ℕ)
    → Ascending xs
    → now ≤ t
    → is_active now w xs ≡ false
    → expire t w xs ≡ []
unfolding is_active
inactive-expire now w t [] h k e = expire_expired t w [] tt
inactive-expire now w t (x ∷ xs) h k e = expire_expired t w (x ∷ xs) (
    All-map {P = λ s. s ≤ last_or x xs} {Q = λ s. s + w ≤ t}
      (λ s b. let p = ltb_false→le now (last_or x xs + w) e in omega arith) (x ∷ xs)
      (last-bound x xs h))

kept-expire :
    (now w t : ℕ) (o : Option (List ℕ))
    → Ascending (stamps_or o)
    → now ≤ t
    → expire t w (stamps_or (Dict.kept (is_active now w) o)) ≡ expire t w (stamps_or o)
kept-expire now w t none h k = refl
kept-expire now w t (some xs) h k = elim (Bool-cases (is_active now w xs)) [
  | inl e ↦ rw e
  | inr e ↦ rw e (expire_expired t w [] tt ∙ sym (inactive-expire now w t xs h k e))
]

kept-Ascending :
    (keep : List ℕ → Bool) (o : Option (List ℕ))
    → Ascending (stamps_or o)
    → Ascending (stamps_or (Dict.kept keep o))
kept-Ascending keep none h = tt
kept-Ascending keep (some xs) h = elim (Bool-cases (keep xs)) [ inl e ↦ rw e h | inr e ↦ rw e tt ]

kept-All :
    (n : ℕ) (keep : List ℕ → Bool) (o : Option (List ℕ))
    → All (λ s. s ≤ n) (stamps_or o)
    → All (λ s. s ≤ n) (stamps_or (Dict.kept keep o))
kept-All n keep none h = tt
kept-All n keep (some xs) h = elim (Bool-cases (keep xs)) [ inl e ↦ rw e h | inr e ↦ rw e tt ]

sweep-KeyInv :
    (j : String) (now n : ℕ) (w : SlidingWindow) → KeyInv j n w → KeyInv j n (sweep now w)
unfolding sweep
sweep-KeyInv j now n w v = record {
  once =
      let p = Dict.occurs-retain-le j (is_active now w.window) w.hits in
      let q = v.once in omega arith;
  rising =
      rw (Dict.get-retain j (is_active now w.window) w.hits v.once)
        (kept-Ascending (is_active now w.window) (Dict.get j w.hits) v.rising);
  past =
      rw (Dict.get-retain j (is_active now w.window) w.hits v.once)
        (kept-All n (is_active now w.window) (Dict.get j w.hits) v.past);
}

-- A sweep takes no stamp away that still counts.
sweep-expire :
    (j : String) (now t n : ℕ) (w : SlidingWindow)
    → KeyInv j n w
    → now ≤ t
    → expire t w.window (stamps_of j (sweep now w)) ≡ expire t w.window (stamps_of j w)
unfolding sweep
sweep-expire j now t n w v l =
    rw (Dict.get-retain j (is_active now w.window) w.hits v.once)
      (kept-expire now w.window t (Dict.get j w.hits) v.rising l)

pub record Roomy (j : String) (now n : ℕ) (w u : SlidingWindow) : Type 0 where
  pub inv : KeyInv j n u
  pub same :
      (t : ℕ) → now ≤ t → expire t w.window (stamps_of j u) ≡ expire t w.window (stamps_of j w)
  pub width : u.window ≡ w.window
  pub absent : Dict.get j w.hits ≡ none → Dict.get j u.hits ≡ none

sweep-absent :
    (j : String) (now n : ℕ) (w : SlidingWindow)
    → KeyInv j n w
    → Dict.get j w.hits ≡ none
    → Dict.get j (sweep now w).hits ≡ none
unfolding sweep
sweep-absent j now n w v e =
    Dict.get-retain j (is_active now w.window) w.hits v.once
    ∙ ap (Dict.kept (is_active now w.window)) e

sweep-window : (now : ℕ) (w : SlidingWindow) → (sweep now w).window ≡ w.window
unfolding sweep
sweep-window now w = refl

pub make_room-Roomy :
    (j : String) (now n : ℕ) (w : SlidingWindow) → KeyInv j n w → Roomy j now n w (make_room now w)
unfolding make_room
make_room-Roomy j now n w v =
    elim (Bool-cases (leb w.max_keys (length w.hits) && leb w.next_sweep now)) [
      | inl e ↦ rw e (record {
        inv = sweep-KeyInv j now n w v;
        same = λ t. sweep-expire j now t n w v;
        width = sweep-window now w;
        absent = sweep-absent j now n w v;
      })
      | inr e ↦ rw e (record { inv = v; same = λ t _. refl; width = refl; absent = λ p. p })
    ]

-- The result of `hit` and the stamps of its key, from the stamps that were left by `popleft`.
abbrev pub verdict : ℕ → ℕ → ℕ → List ℕ → Hit
verdict limit window now xs =
    if leb limit (length xs)
    then (if leb 1 limit
        then wait (get_or xs (length xs - limit) 0 + window - now)
        else index_error)
    else allowed

abbrev pub noted : ℕ → ℕ → List ℕ → List ℕ
noted limit now xs = if leb limit (length xs) then xs else xs ++ now ∷ []

pub noted-Ascending :
    (limit now : ℕ) (xs : List ℕ)
    → Ascending xs
    → All (λ s. s ≤ now) xs
    → Ascending (noted limit now xs)
noted-Ascending limit now xs h k = elim (Bool-cases (leb limit (length xs))) [
  | inl e ↦ rw e h
  | inr e ↦ rw e (Ascending-snoc xs now h k)
]

pub noted-All :
    (limit now : ℕ) (xs : List ℕ) → All (λ s. s ≤ now) xs → All (λ s. s ≤ now) (noted limit now xs)
noted-All limit now xs k = elim (Bool-cases (leb limit (length xs))) [
  | inl e ↦ rw e k
  | inr e ↦ rw e (All-append (λ s. s ≤ now) xs (now ∷ []) k (omega arith, tt))
]

abbrev pub filed : String → List ℕ → SlidingWindow → SlidingWindow
filed key xs w = record w { hits = Dict.put key xs w.hits }

pub count_hit_eq :
    (key : String) (limit now : ℕ) (xs : List ℕ) (w : SlidingWindow)
    → count_hit key limit now xs w
      ≡ (verdict limit w.window now xs, filed key (noted limit now xs) w)
unfolding count_hit
count_hit_eq key limit now xs w = elim (Bool-cases (leb limit (length xs))) [
  | inl e ↦ rw e
  | inr e ↦ rw e
]

pub filed_self :
    (key : String) (xs : List ℕ) (w : SlidingWindow) → stamps_of key (filed key xs w) ≡ xs
filed_self key xs w = rw (Dict.get-put key key xs w.hits) (ground (arith, eq_iff key key))

pub filed-other :
    (j key : String) (xs : List ℕ) (w : SlidingWindow)
    → str_eq key j ≡ false
    → stamps_of j (filed key xs w) ≡ stamps_of j w
filed-other j key xs w h = rw (Dict.get-put key j xs w.hits, h) refl

pub filed-KeyInv :
    (j key : String) (n : ℕ) (xs : List ℕ) (w : SlidingWindow)
    → KeyInv j n w
    → Ascending xs
    → All (λ s. s ≤ n) xs
    → KeyInv j n (filed key xs w)
filed-KeyInv j key n xs w v h k = elim (Bool-cases (str_eq key j)) [
  | inl e ↦ record {
    once = Dict.occurs-put-le key j xs w.hits v.once;
    rising = rw (Dict.get-put key j xs w.hits, e) h;
    past = rw (Dict.get-put key j xs w.hits, e) k;
  }
  | inr e ↦ record {
    once = Dict.occurs-put-le key j xs w.hits v.once;
    rising = rw (Dict.get-put key j xs w.hits, e) v.rising;
    past = rw (Dict.get-put key j xs w.hits, e) v.past;
  }
]
