-- ===== src/Spooler/Worker/Sends.antt =====
-- What a run of the worker sends, and that it keeps the ledger
-- (app/services/notifications/spooler.py).
use justup.Prelude.{
  ℕ, suc, ◌≡◌, refl, ◌∙◌, Bool, true, false, none, some, List, [], ◌∷◌, count_if, arith, Bool-cases,
  Option-cases, inl, inr,
}
use justup.Text.{same_text, same_text-eq, same_text_refl}
use justup.Spooler.{Row, State, renew_lease, record_attempt, pacing_wait}
use justup.Spooler.Ledger.{Step, Step-refl, Step-trans, side-Step}
use justup.Spooler.Outcomes.{renew_lease-Step}
use justup.Spooler.Send.{DeliveryResult, item_key}
use justup.Spooler.Send.Outage.{apply_result-Step}
use justup.Spooler.Worker.{
  Entry, entered, in_window, stale_generation, has_entered, take_lease, reserve_send, finalize,
  Turn, Attempt, is_cooled, attempt, sets_cooldown, Run, after_attempt, process_item, process_items,
}

take_lease-Step : (now : ℕ) (r : Row) (st : State) → Step st (take_lease now r st).1
unfolding take_lease record_attempt
take_lease-Step now r st =
    let renewed = renew_lease now r.id r.updated_at st in
    let kept = renew_lease-Step now r.id r.updated_at st in
    elim (Option-cases renewed.0) [
      | inl e ↦ rw (take_lease, e) kept
      | inr (stamp, e) ↦
          rw (take_lease, e)
            (Step-trans kept
              (side-Step renewed.1 (record_attempt now (item_key r) renewed.1) refl refl refl))
    ]

reserve_send-Step :
    (first later : Entry) (asked now : ℕ) (r : Row) (st : State)
    → Step st (reserve_send first later asked now r st).1
unfolding reserve_send
reserve_send-Step first later asked now r st = elim (Bool-cases (has_entered first)) [
  | inr e ↦ rw (reserve_send, e) (Step-refl st)
  | inl e ↦ elim (Option-cases (pacing_wait asked (item_key r) st)) [
    | inl p ↦ rw (reserve_send, e, p) (Step-refl st)
    | inr (wait, p) ↦ elim (Bool-cases (has_entered later)) [
      | inl q ↦ rw (reserve_send, e, p, q) (take_lease-Step now r st)
      | inr q ↦ rw (reserve_send, e, p, q) (Step-refl st)
    ]
  ]
]

finalize-Step :
    (entries : List Entry) (now drawn : ℕ) (r : Row) (result : DeliveryResult) (st : State)
    → Step st (finalize entries now drawn r result st).1
unfolding finalize
finalize-Step [] now drawn r result st = Step-refl st
finalize-Step (entered ∷ entries) now drawn r result st = apply_result-Step now drawn r result st
finalize-Step (stale_generation ∷ entries) now drawn r result st = Step-refl st
finalize-Step (in_window ∷ entries) now drawn r result st =
    finalize-Step entries now drawn r result st

attempt-Step :
    (cooled : List (List ℕ)) (t : Turn) (r : Row) (st : State) → Step st (attempt cooled t r st).1
unfolding attempt
attempt-Step cooled t r st = elim (Bool-cases (is_cooled (item_key r) cooled)) [
  | inl e ↦ rw (attempt, e) (Step-refl st)
  | inr e ↦ elim (Bool-cases t.may_send) [
    | inl q ↦ rw (attempt, e, q) (reserve_send-Step t.first t.later t.asked t.now r st)
    | inr q ↦ rw (attempt, e, q) (Step-refl st)
  ]
]

after_attempt-Step :
    (t : Turn) (r : Row) (tried : Attempt) (run : Run)
    → Step run.state (after_attempt t r tried run).state
unfolding after_attempt
after_attempt-Step t r none run = Step-refl run.state
after_attempt-Step t r (some (did_send, result)) run =
    finalize-Step t.finals t.ended t.drawn r result run.state

pub process_items-Step :
    (items : List (Row × Turn)) (run : Run) → Step run.state (process_items items run).state
unfolding process_items process_item
process_items-Step [] run = Step-refl run.state
process_items-Step ((r, t) ∷ items) run =
    let tried = attempt run.cooled t r run.state in
    Step-trans (attempt-Step run.cooled t r run.state) (
      Step-trans (after_attempt-Step t r tried.0 (record run { state = tried.1 }))
        (process_items-Step items (process_item t r run)))

-- How often a run has sent on a path.
abbrev pub sends_on : List ℕ → Run → ℕ
sends_on key run = count_if (λ k. same_text k key) run.sends

after_attempt-cooled :
    (key : List ℕ) (t : Turn) (r : Row) (tried : Attempt) (run : Run)
    → is_cooled key run.cooled ≡ true
    → is_cooled key (after_attempt t r tried run).cooled ≡ true
unfolding after_attempt is_cooled
after_attempt-cooled key t r none run h = h
after_attempt-cooled key t r (some (did_send, result)) run h =
    elim (Bool-cases (sets_cooldown result)) [ inl e ↦ rw e (ground (arith, h)) | inr e ↦ rw e h ]

after_attempt-other :
    (key : List ℕ) (t : Turn) (r : Row) (tried : Attempt) (run : Run)
    → same_text (item_key r) key ≡ false
    → sends_on key (after_attempt t r tried run) ≡ sends_on key run
unfolding after_attempt
after_attempt-other key t r none run h = refl
after_attempt-other key t r (some (true, result)) run h = rw h (omega arith)
after_attempt-other key t r (some (false, result)) run h = refl

process_item-sends :
    (key : List ℕ) (t : Turn) (r : Row) (run : Run)
    → is_cooled key run.cooled ≡ true
    → sends_on key (process_item t r run) ≡ sends_on key run
unfolding process_item attempt after_attempt
process_item-sends key t r run h = elim (Bool-cases (same_text (item_key r) key)) [
  | inl e ↦
      let cold : is_cooled (item_key r) run.cooled ≡ true =
        rw (same_text-eq (item_key r) key e) h in
      rw (process_item, attempt, cold) refl
  | inr e ↦
      let tried = attempt run.cooled t r run.state in
      after_attempt-other key t r tried.0 (record run { state = tried.1 }) e
]

process_item-cooled :
    (key : List ℕ) (t : Turn) (r : Row) (run : Run)
    → is_cooled key run.cooled ≡ true
    → is_cooled key (process_item t r run).cooled ≡ true
unfolding process_item
process_item-cooled key t r run h =
    let tried = attempt run.cooled t r run.state in
    after_attempt-cooled key t r tried.0 (record run { state = tried.1 }) h

process_items-cooled :
    (key : List ℕ) (items : List (Row × Turn)) (run : Run)
    → is_cooled key run.cooled ≡ true
    → sends_on key (process_items items run) ≡ sends_on key run
unfolding process_items
process_items-cooled key [] run h = refl
process_items-cooled key ((r, t) ∷ items) run h =
    let rest =
      process_items-cooled key items (process_item t r run) (process_item-cooled key t r run h) in
    rest ∙ process_item-sends key t r run h

-- A limit puts the path of its item into the run's list.
process_item-cools :
    (t : Turn) (r : Row) (run : Run) {did_send : Bool} {result : DeliveryResult} {seconds : ℕ}
    → (attempt run.cooled t r run.state).0 ≡ some (did_send, result)
    → result.cooldown_seconds ≡ some (suc seconds)
    → is_cooled (item_key r) (process_item t r run).cooled ≡ true
unfolding process_item after_attempt is_cooled
process_item-cools t r run {did_send} {result} {seconds} tried limit =
    let sets : sets_cooldown result ≡ true = rw limit (ground arith) in
    rw (tried, sets) (ground (arith, same_text_refl (item_key r)))

-- Once a provider has answered an item with a limit, which comes with the seconds to wait, the run
-- sends nothing more on the item's path, whatever items follow and whatever was sent before.
pub cooled_path_rests :
    (t : Turn) (r : Row) (items : List (Row × Turn)) (run : Run) {did_send : Bool}
    {result : DeliveryResult} {seconds : ℕ}
    → (attempt run.cooled t r run.state).0 ≡ some (did_send, result)
    → result.cooldown_seconds ≡ some (suc seconds)
    → sends_on (item_key r) (process_items ((r, t) ∷ items) run)
      ≡ sends_on (item_key r) (process_items ((r, t) ∷ []) run)
unfolding process_items
cooled_path_rests t r items run tried limit =
    process_items-cooled (item_key r) items (process_item t r run)
      (process_item-cools t r run tried limit)
