-- ===== src/SettingsCache/Fresh.antt =====
-- What each change of the cache or the database leaves fresh (app/utils/settings_cache.py).
use justup.Prelude.{
  ℕ, zero, suc, ◌+◌, ◌/◌, String, ◌≡◌, refl, ap, ◌∙◌, inl, inr, Bool, true, false, not, ◌&&◌, ◌||◌,
  Option, none, some, List, [], ◌∷◌, ◌==◌, leb, ltb, max, drop, filter_if, str_eq, eq_iff, arith,
  All, All-map, if◌then◌else◌, Bool-cases, length,
}
use justup.SettingsCache.{
  Query, Entry, Cache, same_query, put, is_uncacheable, room, evict_oldest, publish, without_key,
}
use justup.SettingsCache.Threads.{
  Store, Read, started, fetched, get_setting, set_setting, announced,
}

module _ {ℓ κ} {A : Type ℓ} (P : A → Type κ) where
  All-drop : (n : ℕ) (xs : List A) → All P xs → All P (drop n xs)
  All-drop zero xs h = h
  All-drop (suc n) [] h = tt
  All-drop (suc n) (x ∷ xs) h = All-drop n xs h.1

All-filter {ℓ κ} :
    {A : Type ℓ} (P : A → Type κ) (f : A → Bool) (xs : List A)
    → All P xs
    → All (λ x. P x × (f x ≡ true)) (filter_if f xs)
All-filter P f [] h = tt
All-filter P f (x ∷ xs) h = elim (Bool-cases (f x)) [
  | inl e ↦ rw e ((h.0, e), All-filter P f xs h.1)
  | inr e ↦ rw e (All-filter P f xs h.1)
]

abbrev pub has_key : String → List String → Bool
has_key k [] = false
has_key k (j ∷ js) = str_eq j k || has_key k js

-- The value is what the database has, or the key was written and not invalidated yet.
abbrev pub is_fresh : Store → List String → Query → String → Bool
is_fresh db keys q value = has_key q.key keys || str_eq value (get_setting db q)

abbrev pub hides : List (String × String) → Query → Bool
hides pairs q = is_uncacheable q.identity q.key pairs

abbrev pub EntryOk : Store → List String → List (String × String) → Entry → Type 0
EntryOk db keys pairs e = (is_fresh db keys e.query e.value ≡ true) × (hides pairs e.query ≡ false)

-- A value that was fetched under the present generation may still be published.
abbrev pub is_publishable : Store → List String → List (String × String) → ℕ → Read → Bool
is_publishable db keys pairs generation (started q g) = leb g generation
is_publishable db keys pairs generation (fetched q g value) =
    leb g generation && (ltb g generation || (hides pairs q || is_fresh db keys q value))

abbrev pub ReadOk : Store → List String → List (String × String) → ℕ → Read → Type 0
ReadOk db keys pairs generation r = is_publishable db keys pairs generation r ≡ true

-- A write leaves what was fresh fresh, but for the key of a pair that is hidden.
write_fresh :
    (db : Store) (keys : List String) (i k : String) (v : Option String) (q : Query)
    (value : String) (hidden : Bool)
    → is_fresh db keys q value ≡ true
    → (hidden ≡ true → (str_eq q.identity i && str_eq q.key k) ≡ false)
    → is_fresh (set_setting db i k v) (if hidden then keys else k ∷ keys) q value ≡ true
write_fresh db keys i k v q value true h n = ground (arith, h, n refl)
write_fresh db keys i k v q value false h n = ground (arith, h, eq_iff q.key k, eq_iff k q.key)

hidden_elsewhere :
    (pairs : List (String × String)) (i k : String) (q : Query)
    → hides pairs q ≡ false
    → is_uncacheable i k pairs ≡ true
    → (str_eq q.identity i && str_eq q.key k) ≡ false
hidden_elsewhere pairs i k q h u = ground (arith, h, u, eq_iff q.identity i, eq_iff q.key k)

pub write_entry :
    (db : Store) (keys : List String) (pairs : List (String × String)) (i k : String)
    (v : Option String) (e : Entry)
    → EntryOk db keys pairs e
    → EntryOk (set_setting db i k v) (if is_uncacheable i k pairs then keys else k ∷ keys) pairs e
write_entry db keys pairs i k v e h = (
  write_fresh db keys i k v e.query e.value (is_uncacheable i k pairs) h.0
      (hidden_elsewhere pairs i k e.query h.1),
  h.1,
)

weaken :
    (a b u f f' : Bool)
    → (u ≡ false → f ≡ true → f' ≡ true)
    → (a && (b || (u || f))) ≡ true
    → (a && (b || (u || f'))) ≡ true
weaken true true u f f' h p = refl
weaken true false true f f' h p = refl
weaken true false false f f' h p = h refl p
weaken false b u f f' h p = p

-- What is in the cache still and is not of the pair that is marked now.
mark_hides :
    (pairs : List (String × String)) (i k : String) (q : Query)
    → hides pairs q ≡ false
    → not (str_eq q.identity i && str_eq q.key k) ≡ true
    → hides ((i, k) ∷ pairs) q ≡ false
unfolding is_uncacheable
mark_hides pairs i k q h n =
    ground (arith, h, n, eq_iff i q.identity, eq_iff q.identity i, eq_iff k q.key, eq_iff q.key k)

pub write_read :
    (db : Store) (keys : List String) (pairs : List (String × String)) (g : ℕ) (i k : String)
    (v : Option String) (r : Read)
    → ReadOk db keys pairs g r
    → ReadOk (set_setting db i k v) (if is_uncacheable i k pairs then keys else k ∷ keys) pairs g r
write_read db keys pairs g i k v (started q n) h = h
write_read db keys pairs g i k v (fetched q n value) h =
    weaken (leb n g) (ltb n g) (hides pairs q) (is_fresh db keys q value)
      (is_fresh (set_setting db i k v) (if is_uncacheable i k pairs then keys else k ∷ keys) q
        value)
      (λ u f.
        write_fresh db keys i k v q value (is_uncacheable i k pairs) f
          (hidden_elsewhere pairs i k q u))
      h

has_key-filter :
    (k key : String) (keys : List String)
    → str_eq k key ≡ false
    → has_key k (filter_if (λ j. not (str_eq j key)) keys) ≡ has_key k keys
has_key-filter k key [] h = refl
has_key-filter k key (j ∷ js) h =
    ground (arith, h, has_key-filter k key js h, eq_iff j key, eq_iff j k, eq_iff k key)

pub older_read :
    (db : Store) (keys keys' : List String) (pairs pairs' : List (String × String)) (g : ℕ)
    (r : Read)
    → ReadOk db keys pairs g r
    → ReadOk db keys' pairs' (g + 1) r
older_read db keys keys' pairs pairs' g (started q n) h = ground (arith, h)
older_read db keys keys' pairs pairs' g (fetched q n value) h = ground (arith, h)

pub invalidate_entries :
    (db : Store) (keys : List String) (pairs : List (String × String)) (key : Option String)
    (es : List Entry)
    → All (EntryOk db keys pairs) es
    → All (EntryOk db (announced key keys) pairs) (without_key key es)
invalidate_entries db keys pairs none es h = tt
invalidate_entries db keys pairs (some key) es h =
    All-map
      (λ (e : Entry) (p : EntryOk db keys pairs e × (not (str_eq e.query.key key) ≡ true)). (
        ap (λ b. b || str_eq e.value (get_setting db e.query))
              (has_key-filter e.query.key key keys (ground (arith, p.1)))
            ∙ p.0.0,
        p.0.1,
      ))
      (filter_if (λ e. not (str_eq e.query.key key)) es)
      (All-filter (EntryOk db keys pairs) (λ e. not (str_eq e.query.key key)) es h)

pub mark_entries :
    (db : Store) (keys : List String) (pairs : List (String × String)) (i k : String)
    (es : List Entry)
    → All (EntryOk db keys pairs) es
    → All
        (EntryOk db keys ((i, k) ∷ pairs))
        (filter_if (λ e. not (str_eq e.query.identity i && str_eq e.query.key k)) es)
mark_entries db keys pairs i k es h =
    All-map
      (λ (e : Entry)
          (p : EntryOk db keys pairs e
            × (not (str_eq e.query.identity i && str_eq e.query.key k) ≡ true)).
        (p.0.0, mark_hides pairs i k e.query p.0.1 p.1))
      (filter_if (λ e. not (str_eq e.query.identity i && str_eq e.query.key k)) es)
      (All-filter (EntryOk db keys pairs)
        (λ e. not (str_eq e.query.identity i && str_eq e.query.key k)) es h)

All-put : (P : Entry → Type 0) (e : Entry) (es : List Entry) → P e → All P es → All P (put e es)
unfolding put
All-put P e [] p h = (p, tt)
All-put P e (d ∷ ds) p h = elim (Bool-cases (same_query d.query e.query)) [
  | inl t ↦ rw t (p, h.1)
  | inr t ↦ rw t (h.0, All-put P e ds p h.1)
]

All-room : (P : Entry → Type 0) (es : List Entry) → All P es → All P (room es)
unfolding room evict_oldest
All-room P es h = elim (Bool-cases (leb 64 (length es))) [
  | inl t ↦ rw t (All-drop P (max 1 (length es / 4)) es h)
  | inr t ↦ rw t h
]

pub publish_entries :
    (db : Store) (keys : List String) (now : ℕ) (q : Query) (g : ℕ) (value : String) (c : Cache)
    → ReadOk db keys c.uncacheable c.generation (fetched q g value)
    → All (EntryOk db keys c.uncacheable) c.entries
    → All (EntryOk db keys c.uncacheable) (publish now q g value c).entries
unfolding publish
publish_entries db keys now q g value c r h =
    elim (Bool-cases (g == c.generation && not (is_uncacheable q.identity q.key c.uncacheable))) [
      | inl t ↦ rw t (
          All-put (EntryOk db keys c.uncacheable)
            (record { query = q; value = value; expires_at = now + q.ttl; inserted_at = now })
            (room c.entries) (ground (arith, r, t))
            (All-room (EntryOk db keys c.uncacheable) c.entries h))
      | inr t ↦ rw t h
    ]

pub publish_kept :
    (now : ℕ) (q : Query) (g : ℕ) (value : String) (c : Cache)
    → ((publish now q g value c).uncacheable ≡ c.uncacheable)
      × ((publish now q g value c).generation ≡ c.generation)
unfolding publish
publish_kept now q g value c = ground arith
