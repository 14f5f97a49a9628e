-- ===== src/Uptime/Single.antt =====
-- The short cut of `count_availability` for a single metric (app/db/tsdb.py).
use justup.Prelude.{
  ℕ, String, ◌≡◌, refl, ap, ◌∙◌, sym, Bool, true, false, some, List, [], ◌∷◌, arith, eq_iff,
}
use justup.Dict
use justup.Uptime.{
  Event, Point, Reading, value_0, value_1, other_value, all_up, closes, combine_from,
  combine_availability, events_of, merge, merge_all, streams, count_points, count_samples,
  count_value, event_if, one_more, count_binary_points, count_merged, count_availability,
}

-- Every further event of the metric ends the cycle that is open.
closes_single :
    (m : String) (v : Bool) (start : ℕ) (e : Event)
    → e.metric ≡ m
    → closes (some start) ((m, v) ∷ []) e ≡ true
unfolding closes Dict.get
closes_single m v start e h = ground (arith, h, eq_iff m e.metric)

abbrev event : String → ℕ → Bool → Event
event m at up = record { ts = at; metric = m; up = up }

count_next :
    (m : String) (v w : Bool) (start at : ℕ) (es : List Event)
    → count_samples (combine_from (some start) ((m, v) ∷ []) (event m at w ∷ es))
      ≡ one_more v (count_samples (combine_from (some at) ((m, w) ∷ []) es))
unfolding combine_from count_samples all_up Dict.put
count_next m v w start at es = rw (closes_single m v start (event m at w) refl) (ground arith)

count_value_next :
    (m : String) (v : Bool) (start at : ℕ) (r : Reading) (es : List Event) (counts : ℕ × ℕ)
    → ((w : Bool) (t : ℕ)
        → count_samples (combine_from (some t) ((m, w) ∷ []) es) ≡ one_more w counts)
    → count_samples (combine_from (some start) ((m, v) ∷ []) (event_if m at r es))
      ≡ one_more v (count_value r counts)
count_value_next m v start at value_0 es counts h =
    count_next m v false start at es ∙ rw (h false at) (ground arith)
count_value_next m v start at value_1 es counts h = count_next m v true start at es ∙ rw (h true at)
count_value_next m v start at other_value es counts h = h v start

count_open :
    (m : String) (ps : List Point) (v : Bool) (start : ℕ)
    → count_samples (combine_from (some start) ((m, v) ∷ []) (events_of m ps))
      ≡ one_more v (count_points ps)
unfolding events_of count_points
count_open m [] v start = unfold combine_from count_samples all_up in ground arith
count_open m (p ∷ ps) v start =
    count_value_next m v start p.at p.value (events_of m ps) (count_points ps) (count_open m ps)

count_first :
    (m : String) (at : ℕ) (w : Bool) (es : List Event)
    → combine_availability (event m at w ∷ es) ≡ combine_from (some at) ((m, w) ∷ []) es
unfolding combine_availability combine_from closes Dict.put
count_first m at w es = refl

count_value_first :
    (m : String) (at : ℕ) (r : Reading) (ps : List Point)
    → count_samples (combine_availability (events_of m ps)) ≡ count_points ps
    → count_samples (combine_availability (event_if m at r (events_of m ps)))
      ≡ count_value r (count_points ps)
count_value_first m at value_0 ps h =
    ap count_samples (count_first m at false (events_of m ps))
    ∙ count_open m ps false at
    ∙ ground arith
count_value_first m at value_1 ps h =
    ap count_samples (count_first m at true (events_of m ps)) ∙ count_open m ps true at
count_value_first m at other_value ps h = h

count_alone :
    (m : String) (ps : List Point)
    → count_samples (combine_availability (events_of m ps)) ≡ count_points ps
unfolding events_of count_points
count_alone m [] = unfold combine_availability combine_from count_samples in refl
count_alone m (p ∷ ps) = count_value_first m p.at p.value ps (count_alone m ps)

merge_nil : (xs : List Event) → merge xs [] ≡ xs
unfolding merge
merge_nil [] = refl
merge_nil (x ∷ xs) = refl

-- For a single metric the short cut gives what the general way over merged streams and check cycles
-- gives: the number of its points that are 1, and of those that are 0 or 1.
pub count_availability-merged :
    (series : String → List Point) (metric : String)
    → count_availability series (metric ∷ []) ≡ count_merged series (metric ∷ [])
unfolding count_availability count_binary_points count_merged merge_all streams
count_availability-merged series m = sym (
    ap (λ es. count_samples (combine_availability es)) (merge_nil (events_of m (series m)))
    ∙ count_alone m (series m))
