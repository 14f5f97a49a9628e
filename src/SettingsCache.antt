-- ===== src/SettingsCache.antt =====
-- The cache of settings (app/utils/settings_cache.py). A value, also a default, is its `repr`; times are
-- milliseconds of the monotonic clock.
mod Threads
mod Fresh
mod Coherent
mod Size
mod Tests
use justup.Prelude.{
  ℕ, ◌+◌, ◌/◌, String, Bool, true, false, not, ◌&&◌, ◌||◌, Option, none, some, List, [], ◌∷◌, ◌==◌,
  ltb, leb, max, drop, length, filter_if, str_eq, if◌then◌else◌,
}

-- What a caller asks for, in the database of a file.
pub record Query : Type 0 where
  pub identity : String
  pub key : String
  pub ttl : ℕ
  pub default : String

pub record Entry : Type 0 where
  pub query : Query
  pub value : String
  pub expires_at : ℕ
  pub inserted_at : ℕ

pub record Cache : Type 0 where
  pub entries : List Entry
  pub uncacheable : List (String × String)
  pub generation : ℕ

abbrev pub cache_max_size : ℕ
cache_max_size = 64

abbrev pub same_query : Query → Query → Bool
same_query p q =
    str_eq p.identity q.identity
    && (str_eq p.key q.key && (p.ttl == q.ttl && str_eq p.default q.default))

unfoldable pub find : Query → List Entry → Option Entry
find q [] = none
find q (e ∷ es) = if same_query e.query q then some e else find q es

-- _cache[cache_key] = …: a new key goes to the end
unfoldable pub put : Entry → List Entry → List Entry
put e [] = e ∷ []
put e (d ∷ ds) = let rest = put e ds in if same_query d.query e.query then e ∷ ds else d ∷ rest

-- (identity, key) in _uncacheable
unfoldable pub is_uncacheable : String → String → List (String × String) → Bool
is_uncacheable identity key [] = false
is_uncacheable identity key ((i, k) ∷ pairs) =
    str_eq i identity && str_eq k key || is_uncacheable identity key pairs

-- What the first section under the lock finds.
pub data Lookup : Type 0 where
  hit : String → Lookup
  bypass : Lookup
  miss : ℕ → Lookup

abbrev pub unexpired : ℕ → ℕ → Option Entry → Lookup
unexpired now generation none = miss generation
unexpired now generation (some e) = if ltb now e.expires_at then hit e.value else miss generation

unfoldable pub look_up : ℕ → Query → Cache → Lookup
unfolding is_uncacheable find
look_up now q c =
    if is_uncacheable q.identity q.key c.uncacheable
    then bypass
    else unexpired now c.generation (find q c.entries)

-- `_evict_oldest`: the oldest quarter, and at least one.
unfoldable pub evict_oldest : List Entry → List Entry
evict_oldest es = drop (max 1 (length es / 4)) es

unfoldable pub room : List Entry → List Entry
unfolding evict_oldest
room es = if leb cache_max_size (length es) then evict_oldest es else es

-- The second section: a value is published unless the cache was invalidated since `generation`.
unfoldable pub publish : ℕ → Query → ℕ → String → Cache → Cache
unfolding room put
publish now q generation value c =
    if generation == c.generation && not (is_uncacheable q.identity q.key c.uncacheable)
    then record c {
      entries =
          put (record { query = q; value = value; expires_at = now + q.ttl; inserted_at = now })
            (room c.entries);
    }
    else c

unfoldable pub mark_setting_uncacheable : String → String → Cache → Cache
mark_setting_uncacheable identity key c = record {
  entries =
      filter_if (λ e. not (str_eq e.query.identity identity && str_eq e.query.key key)) c.entries;
  uncacheable = (identity, key) ∷ c.uncacheable;
  generation = c.generation + 1;
}

abbrev pub without_key : Option String → List Entry → List Entry
without_key none es = []
without_key (some key) es = filter_if (λ e. not (str_eq e.query.key key)) es

unfoldable pub invalidate_settings_cache : Option String → Cache → Cache
invalidate_settings_cache key c = record c {
  generation = c.generation + 1;
  entries = without_key key c.entries;
}
