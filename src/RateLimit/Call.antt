-- ===== src/RateLimit/Call.antt =====
-- The three things that `SlidingWindow.hit` (app/utils/rate_limit.py) does: it keeps the table well
-- formed, it decides on the stamps of its own key, and it leaves those of other keys alone.
use justup.Prelude.{
  ℕ, ◌≤◌, String, ◌≡◌, refl, ◌∙◌, ◌⊎◌, inl, inr, Bool, false, Option, none, some, List, [], arith,
  leb, length, All, All-map, str_eq, Bool-cases, ap, ◌≢◌, eq_iff,
}
use justup.Dict
use justup.RateLimit.{
  SlidingWindow, Hit, capacity_exhausted, expire, count_hit, make_room, or_default, hit_entry, hit,
}
use justup.RateLimit.Expiry.{Ascending, expire_expired, expire-All, expire-Ascending}
use justup.RateLimit.History.{
  stamps_or, stamps_of, KeyInv, Roomy, make_room-Roomy, verdict, noted, noted-Ascending, noted-All,
  count_hit_eq, filed_self, filed-other, filed-KeyInv,
}

pub later : {j : String} {n now : ℕ} {w : SlidingWindow} → n ≤ now → KeyInv j n w → KeyInv j now w
later {j} {n} {now} {w} h v = record {
  once = v.once;
  rising = v.rising;
  past = All-map {P = λ s. s ≤ n} {Q = λ s. s ≤ now} (λ s b. omega arith) (stamps_of j w) v.past;
}

count_hit-KeyInv :
    (j key : String) (limit now : ℕ) (xs : List ℕ) (w : SlidingWindow)
    → KeyInv j now w
    → Ascending xs
    → All (λ s. s ≤ now) xs
    → KeyInv j now (count_hit key limit now xs w).1
count_hit-KeyInv j key limit now xs w v h k = rw (count_hit_eq key limit now xs w) (
    filed-KeyInv j key now (noted limit now xs) w v (noted-Ascending limit now xs h k)
      (noted-All limit now xs k))

abbrev full : ℕ → SlidingWindow → Bool
full now w = leb (make_room now w).max_keys (length (make_room now w).hits)

hit_entry-KeyInv :
    (j key : String) (limit now n : ℕ) (w : SlidingWindow) (o : Option (List ℕ))
    → Dict.get key w.hits ≡ o
    → n ≤ now
    → KeyInv j n w
    → KeyInv key n w
    → KeyInv j now (hit_entry key limit now o w).1
unfolding hit_entry
hit_entry-KeyInv j key limit now n w none e h v k = elim (Bool-cases (full now w)) [
  | inl f ↦ rw f (later h (make_room-Roomy j now n w v).inv)
  | inr f ↦ rw f (
      count_hit-KeyInv j key limit now [] (make_room now w)
        (later h (make_room-Roomy j now n w v).inv) tt tt)
]
hit_entry-KeyInv j key limit now n w (some xs) e h v k =
    let up : Ascending xs = rw e at k.rising in
    let old : All (λ s. s ≤ now) xs = rw e at ((later h k).past) in
    count_hit-KeyInv j key limit now (expire now w.window xs) w (later h v)
      (expire-Ascending now w.window xs up) (expire-All (λ s. s ≤ now) now w.window xs old)

abbrev pub Decides : String → ℕ → ℕ → SlidingWindow → Hit × SlidingWindow → Type 0
Decides key limit now w r =
    ((r.0 ≡ capacity_exhausted) × (stamps_of key w ≡ []) × (stamps_of key r.1 ≡ []))
    ⊎ ((r.0 ≡ verdict limit w.window now (expire now w.window (stamps_of key w)))
        × (stamps_of key r.1 ≡ noted limit now (expire now w.window (stamps_of key w))))

hit_entry-Decides :
    (key : String) (limit now n : ℕ) (w : SlidingWindow) (o : Option (List ℕ))
    → Dict.get key w.hits ≡ o
    → KeyInv key n w
    → Decides key limit now w (hit_entry key limit now o w)
unfolding hit_entry
hit_entry-Decides key limit now n w none e v =
    let room : Roomy key now n w (make_room now w) = make_room-Roomy key now n w v in
    elim (Bool-cases (full now w)) [
      | inl f ↦ rw f (inl (refl, ap stamps_or e, ap stamps_or (room.absent e)))
      | inr f ↦
          rw (f, count_hit_eq key limit now [] (make_room now w), e, room.width)
            (inr (
              rw (expire_expired now w.window [] tt),
              rw (expire_expired now w.window [] tt)
                  (filed_self key (noted limit now []) (make_room now w)),
            ))
    ]
hit_entry-Decides key limit now n w (some xs) e v =
    rw (count_hit_eq key limit now (expire now w.window xs) w, e)
      (inr (refl, filed_self key (noted limit now (expire now w.window xs)) w))

hit_entry-other :
    (j key : String) (limit now t n : ℕ) (w : SlidingWindow) (o : Option (List ℕ))
    → KeyInv j n w
    → str_eq key j ≡ false
    → now ≤ t
    → expire t w.window (stamps_of j (hit_entry key limit now o w).1)
      ≡ expire t w.window (stamps_of j w)
unfolding hit_entry
hit_entry-other j key limit now t n w none v h k =
    let room : Roomy j now n w (make_room now w) = make_room-Roomy j now n w v in
    elim (Bool-cases (full now w)) [
      | inl f ↦ rw f (room.same t k)
      | inr f ↦
          rw (f, count_hit_eq key limit now [] (make_room now w))
            (ap (expire t w.window) (filed-other j key (noted limit now []) (make_room now w) h)
              ∙ room.same t k)
    ]
hit_entry-other j key limit now t n w (some xs) v h k =
    rw (count_hit_eq key limit now (expire now w.window xs) w)
      (ap (expire t w.window) (filed-other j key (noted limit now (expire now w.window xs)) w h))

hit_entry-window :
    (key : String) (limit now n : ℕ) (w : SlidingWindow) (o : Option (List ℕ))
    → KeyInv key n w
    → (hit_entry key limit now o w).1.window ≡ w.window
unfolding hit_entry
hit_entry-window key limit now n w none v = elim (Bool-cases (full now w)) [
  | inl f ↦ rw f (make_room-Roomy key now n w v).width
  | inr f ↦
      rw (f, count_hit_eq key limit now [] (make_room now w)) (make_room-Roomy key now n w v).width
]
hit_entry-window key limit now n w (some xs) v =
    rw (count_hit_eq key limit now (expire now w.window xs) w)

abbrev pub widened : SlidingWindow → ℕ → SlidingWindow
widened w window = record w { window = window }

widened-KeyInv :
    {j : String} {n : ℕ} (w : SlidingWindow) (window : ℕ)
    → KeyInv j n w
    → KeyInv j n (widened w window)
widened-KeyInv w window v = record { once = v.once; rising = v.rising; past = v.past }

module _ (key : String) (limit window : Option ℕ) (now n : ℕ) (w : SlidingWindow)
    (v : KeyInv key n w) where
  -- `hit` keeps each key at most once in the table, with its stamps in order and not in the future.
  pub hit-KeyInv :
      (j : String) → n ≤ now → KeyInv j n w → KeyInv j now (hit key limit window now w).1
  unfolding hit
  hit-KeyInv j h u =
      hit_entry-KeyInv j key (or_default limit w.limit) now n
        (widened w (or_default window w.window)) (Dict.get key w.hits) refl h
        (widened-KeyInv w (or_default window w.window) u)
        (widened-KeyInv w (or_default window w.window) v)

  -- `hit` refuses a new key of a full table, and otherwise decides on the live stamps of the key.
  pub hit-Decides :
      Decides key
        (or_default limit w.limit)
        now
        (widened w (or_default window w.window))
        (hit key limit window now w)
  unfolding hit
  hit-Decides =
      hit_entry-Decides key (or_default limit w.limit) now n
        (widened w (or_default window w.window)) (Dict.get key w.hits) refl
        (widened-KeyInv w (or_default window w.window) v)

  pub hit-window : (hit key limit window now w).1.window ≡ or_default window w.window
  unfolding hit
  hit-window =
      hit_entry-window key (or_default limit w.limit) now n (widened w (or_default window w.window))
        (Dict.get key w.hits) (widened-KeyInv w (or_default window w.window) v)

-- A request of one key never touches what counts for another: at any later time the same stamps of
-- the other key are left, also when the request swept the table, was refused or found it full.
pub hit_isolated :
    (j key : String) (limit window : Option ℕ) (now t n : ℕ) (w : SlidingWindow)
    → KeyInv j n w
    → j ≢ key
    → now ≤ t
    → expire t (or_default window w.window) (stamps_of j (hit key limit window now w).1)
      ≡ expire t (or_default window w.window) (stamps_of j w)
unfolding hit
hit_isolated j key limit window now t n w v h k =
    hit_entry-other j key (or_default limit w.limit) now t n
      (widened w (or_default window w.window)) (Dict.get key w.hits)
      (widened-KeyInv w (or_default window w.window) v) (ground (arith, eq_iff key j)) k
