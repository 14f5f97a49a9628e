-- ===== src/SettingsCache/Tests.antt =====
-- Reads and writes of settings, and the theorems at them.
use justup.Prelude.{◌≡◌, refl, true, none, some, List, [], ◌∷◌}
use justup.SettingsCache.{Query, look_up, miss, publish, invalidate_settings_cache}
use justup.SettingsCache.Threads.{
  Store, empty, Event, asks, proceeds, writes, invalidates, answer_with, proceed, step, run,
}
use justup.SettingsCache.Fresh.{is_fresh}
use justup.SettingsCache.Coherent.{fresh_hits}

abbrev size : Query
size = record { identity = "app.db"; key = "pdf_page_size"; ttl = 30; default = "'A4'" }

abbrev nothing_stored : Store
nothing_stored identity key = none

-- The value is read, a writer commits and invalidates, and the reader's stale value is not published.
abbrev raced : List Event
raced =
    asks 0 size
    ∷ proceeds 1 0
    ∷ writes "app.db" "pdf_page_size" (some "'A3'")
    ∷ invalidates (some "pdf_page_size")
    ∷ proceeds 2 0
    ∷ []

raced_misses : look_up 3 size (run raced (empty nothing_stored)).cache ≡ miss 1
unfolding run step answer_with proceed look_up publish invalidate_settings_cache
raced_misses = refl

abbrev read_again : List Event
read_again = asks 0 size ∷ proceeds 1 0 ∷ proceeds 2 0 ∷ []

fresh_hits_example :
    is_fresh
      (run read_again (empty nothing_stored)).db
      (run read_again (empty nothing_stored)).unannounced
      size
      "'A4'"
    ≡ true
unfolding run step answer_with proceed look_up publish
fresh_hits_example = fresh_hits read_again nothing_stored 3 size "'A4'" refl
