-- ===== src/Downtime/Outages.antt =====
-- The periods of `query_downtime_periods` (app/db/tsdb.py) against the outages they stand for.
use justup.Prelude.{
  ℕ, ◌-◌, ◌/◌, ◌≡◌, refl, sym, subst, true, false, Option, none, some, List, [], ◌∷◌, ◌++◌, leb,
  take, reverse, append-nil, append_assoc, All, All-append, Bool-cases, inl, inr, if◌then◌else◌,
}
use justup.Downtime.{
  Metric, Point, States, Row, Failed, DowntimePeriod, update, failed_now, any_failed, union,
  failed_labels, close_period, ongoing_period, scan, timeline, none_failed, query_downtime_periods,
}

-- What failed at a time, by the newest state of each metric up to then.
pub record Sample : Type 0 where
  pub at : ℕ
  pub failed : Failed

abbrev pub samples : States → List Row → List Sample
samples last [] = []
samples last (r ∷ rs) =
    record { at = r.at; failed = failed_now (update r.states last) }
    ∷ samples (update r.states last) rs

abbrev pub IsDown : Sample → Type 0
IsDown s = any_failed s.failed ≡ true

-- The metrics that failed at one time at least.
abbrev pub failed_from : Failed → List Sample → Failed
failed_from f [] = f
failed_from f (s ∷ ss) = failed_from (union f s.failed) ss

-- An outage lasts from its first failed sample until `ended`, if it has ended.
abbrev pub outage : Sample → List Sample → Option ℕ → Option ℕ → DowntimePeriod
outage first others ended duration = record {
  start = first.at;
  end = ended;
  duration_seconds = duration;
  failed_services = failed_labels (failed_from first.failed others);
}

abbrev pub kept : ℕ → Sample → List Sample → ℕ → List DowntimePeriod
kept least first others ended =
    let duration = (ended - first.at) / 1000000 in
    if leb least duration then outage first others (some ended) (some duration) ∷ [] else []

-- The samples are cut into the longest runs that are down, and those that are up.
pub data Outages (least : ℕ) : List Sample → List DowntimePeriod → Type 0 where
  nothing : Outages least [] []
  up :
      (s : Sample) (ss : List Sample) (ps : List DowntimePeriod)
      → any_failed s.failed ≡ false
      → Outages least ss ps
      → Outages least (s ∷ ss) ps
  ended :
      (first : Sample) (others : List Sample) (s : Sample) (ss : List Sample)
      (ps : List DowntimePeriod)
      → All IsDown (first ∷ others)
      → any_failed s.failed ≡ false
      → Outages least ss ps
      → Outages least ((first ∷ others) ++ s ∷ ss) (kept least first others s.at ++ ps)
  ongoing :
      (first : Sample) (others : List Sample)
      → All IsDown (first ∷ others)
      → Outages least (first ∷ others) (outage first others none none ∷ [])

failed_from-append :
    (f : Failed) (ss : List Sample) (s : Sample)
    → failed_from f (ss ++ s ∷ []) ≡ union (failed_from f ss) s.failed
failed_from-append f [] s = refl
failed_from-append f (x ∷ ss) s = failed_from-append (union f x.failed) ss s

pub scan-down :
    (least : ℕ) (start : ℕ) (f : Failed) (last : States) (r : Row) (rs : List Row)
    → any_failed (failed_now (update r.states last)) ≡ true
    → scan least (some start) f last (r ∷ rs)
      ≡ scan least
          (some start)
          (union f (failed_now (update r.states last)))
          (update r.states last)
          rs
unfolding scan
scan-down least start f last r rs h = rw h

pub scan-first :
    (least : ℕ) (f : Failed) (last : States) (r : Row) (rs : List Row)
    → any_failed (failed_now (update r.states last)) ≡ true
    → scan least none f last (r ∷ rs)
      ≡ scan least (some r.at) (failed_now (update r.states last)) (update r.states last) rs
unfolding scan
scan-first least f last r rs h = rw h

pub scan-up :
    (least : ℕ) (start : Option ℕ) (f : Failed) (last : States) (r : Row) (rs : List Row)
    → any_failed (failed_now (update r.states last)) ≡ false
    → scan least start f last (r ∷ rs)
      ≡ close_period least start f r.at ++ scan least none none_failed (update r.states last) rs
unfolding scan
scan-up least start f last r rs h = rw h

close-kept :
    (least : ℕ) (first : Sample) (others : List Sample) (ts : ℕ)
    → close_period least (some first.at) (failed_from first.failed others) ts
      ≡ kept least first others ts
unfolding close_period
close-kept least first others ts = refl

-- What the loop makes of the times that are left, without an open period and within one.
abbrev Closed : ℕ → States → List Row → Type 0
Closed least last rs = Outages least (samples last rs) (scan least none none_failed last rs)

abbrev Open : ℕ → States → List Row → Type 0
Open least last rs =
    (first : Sample) (others : List Sample)
    → All IsDown (first ∷ others)
    → Outages least ((first ∷ others) ++ samples last rs)
        (scan least (some first.at) (failed_from first.failed others) last rs)

Open-nil : (least : ℕ) (last : States) → Open least last []
unfolding scan ongoing_period
Open-nil least last first others h =
    subst (λ xs. Outages least (first ∷ xs) (outage first others none none ∷ []))
      (sym (append-nil others)) (ongoing first others h)

sample_at : States → Row → Sample
sample_at last r = record { at = r.at; failed = failed_now (update r.states last) }

Open-down :
    (least : ℕ) (last : States) (r : Row) (rs : List Row)
    → any_failed (failed_now (update r.states last)) ≡ true
    → Open least (update r.states last) rs
    → Open least last (r ∷ rs)
unfolding sample_at
Open-down least last r rs d next first others h =
    let s = sample_at last r in
    let longer =
      next first (others ++ s ∷ []) (All-append IsDown (first ∷ others) (s ∷ []) h (d, tt)) in
    let whole = append_assoc others (s ∷ []) (samples (update r.states last) rs) in
    rw
      (
        scan-down least first.at (failed_from first.failed others) last r rs d,
        sym (failed_from-append first.failed others s),
      )
      (subst
        (λ xs. Outages least (first ∷ xs) (
          scan least (some first.at) (failed_from first.failed (others ++ s ∷ []))
            (update r.states last) rs))
        whole longer)

Open-up :
    (least : ℕ) (last : States) (r : Row) (rs : List Row)
    → any_failed (failed_now (update r.states last)) ≡ false
    → Closed least (update r.states last) rs
    → Open least last (r ∷ rs)
unfolding sample_at close_period
Open-up least last r rs d next first others h =
    rw (scan-up least (some first.at) (failed_from first.failed others) last r rs d) (
      ended first others (sample_at last r) (samples (update r.states last) rs)
        (scan least none none_failed (update r.states last) rs) h d next)

scan-Both : (least : ℕ) (rs : List Row) (last : States) → Closed least last rs × Open least last rs
unfolding scan ongoing_period close_period sample_at
scan-Both least [] last = (nothing, Open-nil least last)
scan-Both least (r ∷ rs) last =
    let next = scan-Both least rs (update r.states last) in
    elim (Bool-cases (any_failed (failed_now (update r.states last)))) [
      | inl d ↦ (
        rw (scan-first least none_failed last r rs d) (next.1 (sample_at last r) [] (d, tt)),
        Open-down least last r rs d next.1,
      )
      | inr u ↦ (
        rw (scan-up least none none_failed last r rs u) (
            up (sample_at last r) (samples (update r.states last) rs)
              (scan least none none_failed (update r.states last) rs) u next.0),
        Open-up least last r rs u next.0,
      )
    ]

-- What the result is of the outages, the newest first.
pub record IsHistory (least : ℕ) (limit : ℕ) (ss : List Sample) (result : List DowntimePeriod)
    : Type 0 where
  pub periods : List DowntimePeriod
  pub outages : Outages least ss periods
  pub newest : result ≡ take limit (reverse periods)

-- The periods are the newest ones, the newest first and at most `limit`, of the outages in the
-- window: the times that have a point are cut into the longest runs at which a metric is down by its newest state,
-- and those at which none is; a run that ends gives a period where it lasted long enough, a run
-- that has not ended always gives one, and a period names the checks that failed in it.
pub query_downtime_periods-IsHistory :
    (series : Metric → List Point) (before : States) (limit least : ℕ)
    → IsHistory least limit
        (samples before (timeline series))
        (query_downtime_periods series before limit least)
unfolding query_downtime_periods
query_downtime_periods-IsHistory series before limit least = record {
  periods = scan least none none_failed before (timeline series);
  outages = (scan-Both least (timeline series) before).0;
  newest = refl;
}
