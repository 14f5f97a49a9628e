-- ===== src/Spooler/Worker.antt =====
-- One run of the worker (`process_queue_sync`, `_reserve_send`, `_finalize` of
-- app/services/notifications/spooler.py). What a maintenance section answers, the clock and the
-- senders' answers come in as the `Turn` of an item.
pub mod Sends
pub mod Lease
mod Tests
use justup.Prelude.{
  ℕ, ◌+◌, Bool, true, false, not, ◌||◌, Option, none, some, List, [], ◌∷◌, ltb, if◌then◌else◌,
}
use justup.Text.{codes, same_text}
use justup.Spooler.{
  Row, State, deferred, accepted, ResultKind, renew_lease, record_attempt, pacing_wait,
}
use justup.Spooler.Send.{DeliveryResult, plain_result, item_key, apply_result}

-- How a guarded database phase begins: it runs, or the section raises.
pub data Entry : Type 0 where
  entered in_window stale_generation : Entry

abbrev pub has_entered : Entry → Bool
has_entered entered = true
has_entered _ = false

-- `_reserve_send`: go ahead, the claim was lost, or an outcome without a send.
pub data Reservation : Type 0 where
  go lost : Reservation
  without : DeliveryResult → Reservation

-- The second guarded phase, at the time `now`.
take_lease : ℕ → Row → State → Reservation × State
unfolding item_key record_attempt
take_lease now r st =
    let renewed = renew_lease now r.id r.updated_at st in
    elim renewed.0 [
      | none ↦ (lost, renewed.1)
      | some stamp ↦ (go, record_attempt now (item_key r) renewed.1)
    ]

-- `first` and `second` are the two sections; the wait passes between `asked` and `now`.
reserve_send : Entry → Entry → ℕ → ℕ → Row → State → Reservation × State
unfolding take_lease item_key pacing_wait
reserve_send first later asked now r st =
    if not (has_entered first)
    then (without (plain_result deferred (codes "maintenance")), st)
    else elim (pacing_wait asked (item_key r) st) [
      | none ↦ (without (plain_result deferred (codes "cooldown")), st)
      | some wait ↦
          if has_entered later
          then take_lease now r st
          else (without (plain_result deferred (codes "maintenance")), st)
    ]

-- `_finalize`: one entry for each round of its loop before the deadline.
finalize : List Entry → ℕ → ℕ → Row → DeliveryResult → State → Bool × State
finalize [] now drawn r result st = (false, st)
finalize (entered ∷ entries) now drawn r result st = (true, apply_result now drawn r result st)
finalize (stale_generation ∷ entries) now drawn r result st = (false, st)
finalize (in_window ∷ entries) now drawn r result st = finalize entries now drawn r result st

-- What happens around one item. `answer` is what `_send_item` would return.
pub record Turn : Type 0 where
  pub may_send : Bool
  pub first : Entry
  pub later : Entry
  pub asked : ℕ
  pub now : ℕ
  pub answer : DeliveryResult
  pub finals : List Entry
  pub ended : ℕ
  pub drawn : ℕ

-- The outcome of the second phase, with whether the item was sent; `none` is a lost claim.
abbrev pub Attempt : Type 0
Attempt = Option (Bool × DeliveryResult)

abbrev attempt_of : DeliveryResult → Reservation → Attempt
attempt_of answer go = some (true, answer)
attempt_of answer lost = none
attempt_of answer (without result) = some (false, result)

pub is_cooled : List ℕ → List (List ℕ) → Bool
unfolding same_text
is_cooled key [] = false
is_cooled key (k ∷ keys) = same_text k key || is_cooled key keys

pub attempt : List (List ℕ) → Turn → Row → State → Attempt × State
unfolding is_cooled reserve_send item_key
attempt cooled t r st =
    if is_cooled (item_key r) cooled
    then (some (false, plain_result deferred (codes "cooldown")), st)
    else if not t.may_send
    then (some (false, plain_result deferred (codes "maintenance")), st)
    else let reserved = reserve_send t.first t.later t.asked t.now r st in
      (attempt_of t.answer reserved.0, reserved.1)

-- `if result.cooldown_seconds`
abbrev sets_cooldown : DeliveryResult → Bool
sets_cooldown result = elim result.cooldown_seconds [ none ↦ false | some seconds ↦ ltb 0 seconds ]

abbrev is_accepted : ResultKind → Bool
is_accepted accepted = true
is_accepted _ = false

-- The counts of a run, the paths that hit a limit, and the keys of the sends, the newest first.
pub record Run : Type 0 where
  pub processed : ℕ
  pub succeeded : ℕ
  pub cooled : List (List ℕ)
  pub sends : List (List ℕ)
  pub state : State

-- The third phase of one item.
after_attempt : Turn → Row → Attempt → Run → Run
unfolding finalize item_key
after_attempt t r none run = run
after_attempt t r (some (did_send, result)) run = record {
  processed = run.processed + 1;
  succeeded = run.succeeded + (if is_accepted result.kind then 1 else 0);
  cooled = if sets_cooldown result then item_key r ∷ run.cooled else run.cooled;
  sends = if did_send then item_key r ∷ run.sends else run.sends;
  state = (finalize t.finals t.ended t.drawn r result run.state).1;
}

process_item : Turn → Row → Run → Run
unfolding attempt after_attempt
process_item t r run =
    let tried = attempt run.cooled t r run.state in
    after_attempt t r tried.0 (record run { state = tried.1 })

-- The loop over the claimed items.
unfoldable pub process_items : List (Row × Turn) → Run → Run
unfolding process_item
process_items [] run = run
process_items ((r, t) ∷ items) run = process_items items (process_item t r run)

abbrev pub begin_run : State → Run
begin_run st = record { processed = 0; succeeded = 0; cooled = []; sends = []; state = st }
