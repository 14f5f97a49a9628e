-- ===== src/SettingsCache/Size.antt =====
-- The size of the settings cache (app/utils/settings_cache.py, `CACHE_MAX_SIZE`).
use justup.Prelude.{
  ℕ, ◌+◌, ◌≤◌, ◌<◌, ◌/◌, max, ◌≡◌, refl, Option, none, some, List, [], ◌∷◌, arith, length,
  length-drop, length-filter_if, count_if-le-length, not, ◌&&◌, str_eq, String,
}
use justup.SettingsCache.{
  Query, Entry, Cache, Lookup, hit, bypass, miss, put, room, evict_oldest, publish,
  mark_setting_uncacheable, without_key, invalidate_settings_cache, look_up,
}
use justup.SettingsCache.Threads.{
  Store, World, Read, started, fetched, empty, Event, asks, proceeds, writes, invalidates, marks,
  answer_with, proceed, read_at, step, run,
}

length-put-le : (e : Entry) (es : List Entry) → length (put e es) ≤ length es + 1
unfolding put
length-put-le e [] = omega arith
length-put-le e (d ∷ ds) = ground (arith, length-put-le e ds)

length-room-lt : (es : List Entry) → length es ≤ 64 → length (room es) < 64
unfolding room evict_oldest
length-room-lt es h = ground (arith, h, length-drop (max 1 (length es / 4)) es)

length-publish-le :
    (now : ℕ) (q : Query) (g : ℕ) (value : String) (c : Cache)
    → length c.entries ≤ 64
    → length (publish now q g value c).entries ≤ 64
unfolding publish
length-publish-le now q g value c h = ground (
  arith,
  h,
  length-room-lt c.entries h,
  length-put-le (record { query = q; value = value; expires_at = now + q.ttl; inserted_at = now })
      (room c.entries),
)

length-without_key-le :
    (key : Option String) (es : List Entry) → length (without_key key es) ≤ length es
length-without_key-le none es = omega arith
length-without_key-le (some key) es = omega (
  arith,
  length-filter_if (λ e. not (str_eq e.query.key key)) es,
  count_if-le-length (λ e. not (str_eq e.query.key key)) es,
)

answer_with-cache : (q : Query) (l : Lookup) (w : World) → (answer_with q l w).cache ≡ w.cache
unfolding answer_with
answer_with-cache q (hit value) w = refl
answer_with-cache q bypass w = refl
answer_with-cache q (miss g) w = refl

proceed_size :
    (now n : ℕ) (o : Option Read) (w : World)
    → length w.cache.entries ≤ 64
    → length (proceed now n o w).cache.entries ≤ 64
unfolding proceed
proceed_size now n none w h = h
proceed_size now n (some (started q g)) w h = h
proceed_size now n (some (fetched q g value)) w h = length-publish-le now q g value w.cache h

step_size :
    (e : Event) (w : World) → length w.cache.entries ≤ 64 → length (step e w).cache.entries ≤ 64
unfolding step invalidate_settings_cache mark_setting_uncacheable
step_size (asks now q) w h = rw (answer_with-cache q (look_up now q w.cache) w) h
step_size (proceeds now n) w h = proceed_size now n (read_at n w.reads) w h
step_size (writes i k v) w h = h
step_size (invalidates key) w h = omega (arith, h, length-without_key-le key w.cache.entries)
step_size (marks i k) w h = omega (
  arith,
  h,
  length-filter_if (λ e. not (str_eq e.query.identity i && str_eq e.query.key k)) w.cache.entries,
  count_if-le-length (λ e. not (str_eq e.query.identity i && str_eq e.query.key k)) w.cache.entries,
)

run_size :
    (es : List Event) (w : World)
    → length w.cache.entries ≤ 64
    → length (run es w).cache.entries ≤ 64
unfolding run
run_size [] w h = h
run_size (e ∷ es) w h = run_size es (step e w) (step_size e w h)

-- The cache never holds more than 64 values, whatever is asked for and in whatever order.
pub cache_bounded : (es : List Event) (db : Store) → length (run es (empty db)).cache.entries ≤ 64
cache_bounded es db = run_size es (empty db) (omega arith)
