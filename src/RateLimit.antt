-- ===== src/RateLimit.antt =====
-- The sliding-window limiter of app/utils/rate_limit.py. Times and windows are whole nanoseconds,
-- where the code has float seconds, so its tests `s <= now - window` are `s + window <= now` here.
mod Expiry
pub use Expiry.{live, within}
unfoldable pub use Expiry.{expire}
pub mod History
pub mod Call
pub mod Budget
pub mod Capacity
pub mod Retry
pub mod Parse
pub mod Grammar
pub mod Admit
mod Tests
use justup.Prelude.{
  ℕ, ◌+◌, ◌-◌, ◌*◌, ◌/◌, String, Bool, true, false, not, ◌&&◌, ◌||◌, Option, none, some, List, [],
  ◌∷◌, ◌++◌, leb, ltb, max, min, get_or, length, if◌then◌else◌,
}
use justup.Dict
use justup.Dict.{Dict}

abbrev pub second : ℕ
second = 1000000000

-- `_SWEEP_INTERVAL`
abbrev pub sweep_interval : ℕ
sweep_interval = second

abbrev pub fail_closed_retry_max : ℕ
fail_closed_retry_max = 60

-- `next_sweep` is `_last_sweep + _SWEEP_INTERVAL`, which starts at 0 and is never negative.
pub record SlidingWindow : Type 0 where
  pub limit : ℕ
  pub window : ℕ
  pub max_keys : ℕ
  pub hits : Dict (List ℕ)
  pub next_sweep : ℕ

pub init : ℕ → ℕ → ℕ → SlidingWindow
init limit window max_keys = record {
  limit = limit;
  window = window;
  max_keys = max_keys;
  hits = [];
  next_sweep = 0;
}

pub reset : SlidingWindow → SlidingWindow
reset w = record w { hits = []; next_sweep = 0 }

-- `s[-1]` of a list that is not empty.
last_or : ℕ → List ℕ → ℕ
last_or d [] = d
last_or d (x ∷ xs) = last_or x xs

-- Not (`not s or s[-1] <= now - self._window`).
pub is_active : ℕ → ℕ → List ℕ → Bool
unfolding last_or
is_active now window [] = false
is_active now window (x ∷ xs) = ltb now (last_or x xs + window)

pub sweep : ℕ → SlidingWindow → SlidingWindow
unfolding is_active
sweep now w = record w {
  hits = Dict.retain (is_active now w.window) w.hits;
  next_sweep = now + sweep_interval;
}

pub data Hit : Type 0 where
  allowed : Hit
  wait : ℕ → Hit
  capacity_exhausted index_error : Hit

-- The part of `hit` below `popleft`, on the stamps that are left.
pub count_hit : String → ℕ → ℕ → List ℕ → SlidingWindow → Hit × SlidingWindow
count_hit key limit now stamps w =
    if leb limit (length stamps)
    then (
      if leb 1 limit
          then wait (get_or stamps (length stamps - limit) 0 + w.window - now)
          else index_error,
      record w { hits = Dict.put key stamps w.hits },
    )
    else (allowed, record w { hits = Dict.put key (stamps ++ now ∷ []) w.hits })

-- The sweep that a new key may start.
pub make_room : ℕ → SlidingWindow → SlidingWindow
unfolding sweep
make_room now w = if leb w.max_keys (length w.hits) && leb w.next_sweep now then sweep now w else w

abbrev pub or_default : Option ℕ → ℕ → ℕ
or_default none d = d
or_default (some n) d = n

pub hit_entry : String → ℕ → ℕ → Option (List ℕ) → SlidingWindow → Hit × SlidingWindow
unfolding count_hit make_room
hit_entry key limit now (some stamps) w = count_hit key limit now (expire now w.window stamps) w
hit_entry key limit now none w =
    let roomy = make_room now w in
    if leb roomy.max_keys (length roomy.hits)
    then (capacity_exhausted, roomy)
    else count_hit key limit now [] roomy

pub hit : String → Option ℕ → Option ℕ → ℕ → SlidingWindow → Hit × SlidingWindow
unfolding hit_entry
hit key limit window now w =
    hit_entry key (or_default limit w.limit) now (Dict.get key w.hits)
      (record w { window = or_default window w.window })
