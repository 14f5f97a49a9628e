-- ===== src/SettingsCache/Coherent.antt =====
-- What the cache holds against the database, over any interleaving of reads, writes and invalidations
-- (app/utils/settings_cache.py).
use justup.Prelude.{
  ℕ, zero, suc, String, ◌≡◌, refl, ap, subst, inl, inr, Bool, true, Option, none, some, List, [],
  ◌∷◌, leb, eq_iff, arith, All, All-map, All-append, Bool-cases, Option-cases,
}
use justup.SettingsCache.{
  Query, Entry, Cache, Lookup, hit, bypass, miss, unexpired, same_query, find, is_uncacheable,
  look_up, mark_setting_uncacheable, invalidate_settings_cache,
}
use justup.SettingsCache.Threads.{
  Store, World, Read, started, fetched, get_setting, empty, Event, asks, proceeds, writes,
  invalidates, marks, answer_with, proceed, read_at, replaced, announced, step, run,
}
use justup.SettingsCache.Fresh.{
  is_fresh, EntryOk, ReadOk, write_entry, write_read, older_read, invalidate_entries, mark_entries,
  publish_entries, publish_kept,
}

record IsCoherent (w : World) : Type 0 where
  pub entries : All (EntryOk w.db w.unannounced w.cache.uncacheable) w.cache.entries
  pub reads : All (ReadOk w.db w.unannounced w.cache.uncacheable w.cache.generation) w.reads

module _ {ℓ} (P : Read → Type ℓ) where
  All-replaced : (n : ℕ) (new rs : List Read) → All P new → All P rs → All P (replaced n new rs)
  All-replaced n new [] a h = tt
  All-replaced zero new (r ∷ rs) a h = All-append P new rs a h.1
  All-replaced (suc n) new (r ∷ rs) a h = (h.0, All-replaced n new rs a h.1)

  All-read_at : (n : ℕ) (rs : List Read) (r : Read) → read_at n rs ≡ some r → All P rs → P r
  All-read_at n [] r e h = absurd (ground arith)
  All-read_at zero (x ∷ rs) r e h = subst (λ o. elim o [ none ↦ P r | some y ↦ P y ]) e h.0
  All-read_at (suc n) (x ∷ rs) r e h = All-read_at n rs r e h.1

get_setting_fresh :
    (db : Store) (keys : List String) (q : Query) → is_fresh db keys q (get_setting db q) ≡ true
get_setting_fresh db keys q = ground (arith, eq_iff (get_setting db q) (get_setting db q))

abbrev is_current : ℕ → Lookup → Bool
is_current generation (hit value) = true
is_current generation bypass = true
is_current generation (miss g) = leb g generation

unexpired_current : (now g : ℕ) (o : Option Entry) → is_current g (unexpired now g o) ≡ true
unexpired_current now g none = ground arith
unexpired_current now g (some e) = ground arith

look_up_current :
    (now : ℕ) (q : Query) (c : Cache) → is_current c.generation (look_up now q c) ≡ true
unfolding look_up
look_up_current now q c = ground (arith, unexpired_current now c.generation (find q c.entries))

answer_with-IsCoherent :
    (q : Query) (l : Lookup) (w : World)
    → is_current w.cache.generation l ≡ true
    → IsCoherent w
    → IsCoherent (answer_with q l w)
unfolding answer_with
answer_with-IsCoherent q (hit value) w c h = record { entries = h.entries; reads = h.reads }
answer_with-IsCoherent q bypass w c h = record { entries = h.entries; reads = h.reads }
answer_with-IsCoherent q (miss g) w c h = record { entries = h.entries; reads = (c, h.reads) }

proceed-IsCoherent :
    (now n : ℕ) (o : Option Read) (w : World)
    → read_at n w.reads ≡ o
    → IsCoherent w
    → IsCoherent (proceed now n o w)
unfolding proceed
proceed-IsCoherent now n none w e h = h
proceed-IsCoherent now n (some (started q g)) w e h =
    let ok =
      All-read_at (ReadOk w.db w.unannounced w.cache.uncacheable w.cache.generation) n w.reads
        (started q g) e h.reads in
    record {
      entries = h.entries;
      reads =
          All-replaced (ReadOk w.db w.unannounced w.cache.uncacheable w.cache.generation) n
            (fetched q g (get_setting w.db q) ∷ []) w.reads
            (ground (arith, ok, get_setting_fresh w.db w.unannounced q), tt) h.reads;
    }
proceed-IsCoherent now n (some (fetched q g value)) w e h =
    let ok =
      All-read_at (ReadOk w.db w.unannounced w.cache.uncacheable w.cache.generation) n w.reads
        (fetched q g value) e h.reads in
    let kept = publish_kept now q g value w.cache in
    record {
      entries = rw (kept.0) (publish_entries w.db w.unannounced now q g value w.cache ok h.entries);
      reads =
          rw (kept.0, kept.1)
            (All-replaced (ReadOk w.db w.unannounced w.cache.uncacheable w.cache.generation) n []
              w.reads tt h.reads);
    }

step-IsCoherent : (e : Event) (w : World) → IsCoherent w → IsCoherent (step e w)
unfolding step
step-IsCoherent (asks now q) w h =
    answer_with-IsCoherent q (look_up now q w.cache) w (look_up_current now q w.cache) h
step-IsCoherent (proceeds now n) w h = proceed-IsCoherent now n (read_at n w.reads) w refl h
step-IsCoherent (writes i k v) w h = record {
  entries =
      All-map (write_entry w.db w.unannounced w.cache.uncacheable i k v) w.cache.entries h.entries;
  reads =
      All-map (write_read w.db w.unannounced w.cache.uncacheable w.cache.generation i k v) w.reads
        h.reads;
}
step-IsCoherent (invalidates key) w h =
    unfold invalidate_settings_cache in
    record {
      entries =
          invalidate_entries w.db w.unannounced w.cache.uncacheable key w.cache.entries h.entries;
      reads =
          All-map
            (older_read w.db w.unannounced (announced key w.unannounced) w.cache.uncacheable
              w.cache.uncacheable w.cache.generation)
            w.reads h.reads;
    }
step-IsCoherent (marks i k) w h =
    unfold mark_setting_uncacheable in
    record {
      entries = mark_entries w.db w.unannounced w.cache.uncacheable i k w.cache.entries h.entries;
      reads =
          All-map
            (older_read w.db w.unannounced w.unannounced w.cache.uncacheable
              ((i, k) ∷ w.cache.uncacheable) w.cache.generation)
            w.reads h.reads;
    }

run-IsCoherent : (es : List Event) (w : World) → IsCoherent w → IsCoherent (run es w)
unfolding run
run-IsCoherent [] w h = h
run-IsCoherent (e ∷ es) w h = run-IsCoherent es (step e w) (step-IsCoherent e w h)

find_fresh :
    (db : Store) (keys : List String) (pairs : List (String × String)) (q : Query) (es : List Entry)
    (e : Entry)
    → All (EntryOk db keys pairs) es
    → find q es ≡ some e
    → is_fresh db keys q e.value ≡ true
unfolding find
find_fresh db keys pairs q [] e h f = absurd (ground (arith, f))
find_fresh db keys pairs q (d ∷ ds) e h f = elim (Bool-cases (same_query d.query q)) [
  | inl t ↦
      let found : some d ≡ some e = rw t at f in
      let same : d ≡ e = cc in
      rw (← ap (λ (x : Entry). x.value) same) (
        ground (
          arith,
          h.0.0,
          t,
          eq_iff d.query.identity q.identity,
          eq_iff d.query.key q.key,
          eq_iff d.query.default q.default,
        ))
  | inr t ↦ find_fresh db keys pairs q ds e h.1 (rw t at f)
]

hit_found :
    (now : ℕ) (q : Query) (c : Cache) (value : String)
    → look_up now q c ≡ hit value
    → (e : Entry) × (find q c.entries ≡ some e) × (e.value ≡ value)
unfolding look_up
hit_found now q c value h = elim (Bool-cases (is_uncacheable q.identity q.key c.uncacheable)) [
  | inl u ↦ absurd (ground (arith, h, u))
  | inr u ↦ elim (Option-cases (find q c.entries)) [
    | inl f ↦ absurd (ground (arith, h, u, f))
    | inr (e, f) ↦ (e, f, ground (arith, h, u, f))
  ]
]

-- A cached value is never staler than the contract allows: over any interleaving of reads, writes,
-- invalidations and marks, what a lookup answers from the cache is what the database has now, or
-- the key was written and no invalidation has followed yet. That holds for reads that raced with the
-- write too, and a key that is marked as uncacheable may be written with no invalidation.
pub fresh_hits :
    (es : List Event) (db : Store) (now : ℕ) (q : Query) (value : String)
    → look_up now q (run es (empty db)).cache ≡ hit value
    → is_fresh (run es (empty db)).db (run es (empty db)).unannounced q value ≡ true
fresh_hits es db now q value h =
    let w = run es (empty db) in
    let coherent = run-IsCoherent es (empty db) (record { entries = tt; reads = tt }) in
    let (e, found, same) = hit_found now q w.cache value h in
    rw (← same)
      (find_fresh w.db w.unannounced w.cache.uncacheable q w.cache.entries e coherent.entries found)
