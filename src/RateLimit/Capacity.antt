-- ===== src/RateLimit/Capacity.antt =====
-- The size of the client table (app/utils/rate_limit.py, `MAX_KEYS`).
use justup.Prelude.{
  ℕ, ◌≤◌, ◌<◌, String, ◌≡◌, refl, ◌⊎◌, inl, inr, true, ◌&&◌, Option, none, some, List, [], arith,
  leb, length, All, Bool-cases,
}
use justup.Dict
use justup.Dict.{Dict}
use justup.RateLimit.{
  SlidingWindow, capacity_exhausted, expire, is_active, sweep, count_hit, make_room, or_default,
  hit_entry, hit,
}
use justup.RateLimit.History.{noted, count_hit_eq}

make_room_bounds :
    (now : ℕ) (w : SlidingWindow)
    → (length (make_room now w).hits ≤ length w.hits) × ((make_room now w).max_keys ≡ w.max_keys)
unfolding make_room sweep
make_room_bounds now w = ground (arith, Dict.length-retain-le (is_active now w.window) w.hits)

record IsBounded (w u : SlidingWindow) : Type 0 where
  pub same : u.max_keys ≡ w.max_keys
  pub fits : length u.hits ≤ u.max_keys

hit_entry-IsBounded :
    (key : String) (limit now : ℕ) (w : SlidingWindow) (o : Option (List ℕ))
    → Dict.get key w.hits ≡ o
    → length w.hits ≤ w.max_keys
    → IsBounded w (hit_entry key limit now o w).1
unfolding hit_entry
hit_entry-IsBounded key limit now w (some xs) e h =
    rw (count_hit_eq key limit now (expire now w.window xs) w) (record {
      same = refl;
      fits = ground (arith, Dict.length-put key (noted limit now (expire now w.window xs)) w.hits);
    })
hit_entry-IsBounded key limit now w none e h =
    let u = make_room now w in
    elim (Bool-cases (leb u.max_keys (length u.hits))) [
      | inl f ↦ rw f (ground (arith, make_room_bounds now w))
      | inr f ↦
          rw (f, count_hit_eq key limit now [] u)
            (ground
              (arith, make_room_bounds now w, Dict.length-put key (noted limit now []) u.hits))
    ]

-- The table never grows beyond its limit, which no call changes.
pub hit-IsBounded :
    (key : String) (limit window : Option ℕ) (now : ℕ) (w : SlidingWindow)
    → length w.hits ≤ w.max_keys
    → ((hit key limit window now w).1.max_keys ≡ w.max_keys)
      × (length (hit key limit window now w).1.hits ≤ w.max_keys)
unfolding hit
hit-IsBounded key limit window now w h = ground (
  arith,
  hit_entry-IsBounded key (or_default limit w.limit) now
      (record w { window = or_default window w.window }) (Dict.get key w.hits) refl h,
)

abbrev pub AllActive : ℕ → ℕ → Dict (List ℕ) → Type 0
AllActive now window = All (λ e. is_active now window e.1 ≡ true)

make_room_full :
    (now : ℕ) (w : SlidingWindow)
    → length w.hits ≤ w.max_keys
    → (make_room now w).max_keys ≤ length (make_room now w).hits
    → (w.max_keys ≤ length w.hits) × ((now < w.next_sweep) ⊎ AllActive now w.window w.hits)
unfolding make_room sweep
make_room_full now w b h =
    elim (Bool-cases (leb w.max_keys (length w.hits) && leb w.next_sweep now)) [
      | inl e ↦
          let r : w.max_keys ≤ length (Dict.retain (is_active now w.window) w.hits) = rw e at h in
          (ground arith, inr (Dict.retain_whole (is_active now w.window) w.hits (omega arith)))
      | inr e ↦ let r : w.max_keys ≤ length w.hits = rw e at h in (r, inl (ground arith))
    ]

hit_entry_full :
    (key : String) (limit now : ℕ) (w : SlidingWindow) (o : Option (List ℕ))
    → Dict.get key w.hits ≡ o
    → length w.hits ≤ w.max_keys
    → (hit_entry key limit now o w).0 ≡ capacity_exhausted
    → (Dict.get key w.hits ≡ none)
      × (w.max_keys ≤ length w.hits)
      × ((now < w.next_sweep) ⊎ AllActive now w.window w.hits)
unfolding hit_entry count_hit
hit_entry_full key limit now w (some xs) e b h = absurd (ground arith)
hit_entry_full key limit now w none e b h = ground (arith, make_room_full now w)

-- On a table within its limit, `hit` refuses for lack of room only a key that is not in the table, only when the table is full,
-- and only when the last sweep was less than a second ago or no bucket of the table could be
-- dropped, since each still has a stamp that counts.
pub hit_full :
    (key : String) (limit window : Option ℕ) (now : ℕ) (w : SlidingWindow)
    → length w.hits ≤ w.max_keys
    → (hit key limit window now w).0 ≡ capacity_exhausted
    → (Dict.get key w.hits ≡ none)
      × (w.max_keys ≤ length w.hits)
      × ((now < w.next_sweep) ⊎ AllActive now (or_default window w.window) w.hits)
unfolding hit
hit_full key limit window now w b h =
    hit_entry_full key (or_default limit w.limit) now
      (record w { window = or_default window w.window }) (Dict.get key w.hits) refl b h
