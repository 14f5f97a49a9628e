-- ===== src/SettingsCache/Threads.antt =====
-- Threads that read and write settings beside one another (app/utils/settings_cache.py). A read is cut
-- where `get_setting_cached` holds the lock or reads the database; a writer commits first and
-- invalidates later, as the contract of the cache says.
use justup.Prelude.{
  ℕ, zero, suc, String, not, ◌&&◌, Option, none, some, List, [], ◌∷◌, ◌++◌, filter_if, str_eq,
  if◌then◌else◌,
}
use justup.SettingsCache.{
  Query, Cache, Lookup, hit, bypass, miss, look_up, publish, mark_setting_uncacheable,
  invalidate_settings_cache, is_uncacheable,
}

-- The settings of each database.
abbrev pub Store : Type 0
Store = String → String → Option String

abbrev pub or_default : Option String → String → String
or_default none d = d
or_default (some v) d = v

-- get_setting(conn, key, default)
abbrev pub get_setting : Store → Query → String
get_setting db q = or_default (db q.identity q.key) q.default

abbrev pub set_setting : Store → String → String → Option String → Store
set_setting db identity key value i k = if str_eq i identity && str_eq k key then value else db i k

-- A read that missed: before and after it has read the database.
pub data Read : Type 0 where
  started : Query → ℕ → Read
  fetched : Query → ℕ → String → Read

-- `unannounced` are the keys that were written and not invalidated since; `answers` are what the
-- reads have returned, the newest first.
pub record World : Type 0 where
  pub db : Store
  pub cache : Cache
  pub reads : List Read
  pub unannounced : List String
  pub answers : List (Query × String)

abbrev pub empty : Store → World
empty db = record {
  db = db;
  cache = record { entries = []; uncacheable = []; generation = 0 };
  reads = [];
  unannounced = [];
  answers = [];
}

-- `proceeds n` moves the read at place `n` on, at a time.
pub data Event : Type 0 where
  asks : ℕ → Query → Event
  proceeds : ℕ → ℕ → Event
  writes : String → String → Option String → Event
  invalidates : Option String → Event
  marks : String → String → Event

unfoldable pub answer_with : Query → Lookup → World → World
answer_with q (hit value) w = record w { answers = (q, value) ∷ w.answers }
answer_with q bypass w = record w { answers = (q, get_setting w.db q) ∷ w.answers }
answer_with q (miss generation) w = record w { reads = started q generation ∷ w.reads }

abbrev pub read_at : ℕ → List Read → Option Read
read_at n [] = none
read_at zero (r ∷ rs) = some r
read_at (suc n) (r ∷ rs) = read_at n rs

abbrev pub replaced : ℕ → List Read → List Read → List Read
replaced n new [] = []
replaced zero new (r ∷ rs) = new ++ rs
replaced (suc n) new (r ∷ rs) = r ∷ replaced n new rs

unfoldable pub proceed : ℕ → ℕ → Option Read → World → World
proceed now n none w = w
proceed now n (some (started q generation)) w = record w {
  reads = replaced n (fetched q generation (get_setting w.db q) ∷ []) w.reads;
}
proceed now n (some (fetched q generation value)) w = record w {
  reads = replaced n [] w.reads;
  cache = publish now q generation value w.cache;
  answers = (q, value) ∷ w.answers;
}

abbrev pub announced : Option String → List String → List String
announced none keys = []
announced (some key) keys = filter_if (λ k. not (str_eq k key)) keys

-- A key that is marked as uncacheable is written without an invalidation.
unfoldable pub step : Event → World → World
unfolding answer_with proceed
step (asks now q) w = answer_with q (look_up now q w.cache) w
step (proceeds now n) w = proceed now n (read_at n w.reads) w
step (writes identity key value) w = record w {
  db = set_setting w.db identity key value;
  unannounced =
      if is_uncacheable identity key w.cache.uncacheable
      then w.unannounced
      else key ∷ w.unannounced;
}
step (invalidates key) w = record w {
  cache = invalidate_settings_cache key w.cache;
  unannounced = announced key w.unannounced;
}
step (marks identity key) w = record w { cache = mark_setting_uncacheable identity key w.cache }

unfoldable pub run : List Event → World → World
run [] w = w
run (e ∷ es) w = run es (step e w)
