-- ===== src/EventBus/Tests.antt =====
-- Runs of the bus, and the theorems at concrete runs (app/services/event_bus.py).
use justup.Prelude.{ℕ, ◌≡◌, refl, ◌++◌, true, false, none, List, [], ◌∷◌}
use justup.EventBus.{
  LiveEvent, target_changed, alert_changed, subscription, offer, force_resync, close, next_item,
  next_turn, visible_to, contains, is_event_type, init, start, subscribe, remove, publish, advance,
  advance_at, deliver_to, deliver, run_oldest, run_callback, close_now,
}
use justup.EventBus.Buffers
use justup.EventBus.Stream
use justup.EventBus.Backlog

program : Unit {0}
unfolding subscription offer force_resync close next_item next_turn visible_to contains
    is_event_type init start subscribe remove publish advance advance_at deliver_to deliver
    run_oldest run_callback close_now Buffers.act Buffers.acts Stream.read_as Stream.step
    Stream.steps Backlog.step Backlog.steps
program = tt

abbrev news : ℕ → LiveEvent
news n = record {
  type = target_changed;
  ids = ("target_id", n) ∷ [];
  user_ids = none;
  admin_only = false;
  admins_too = false;
}

abbrev for_admins : LiveEvent
for_admins = record {
  type = alert_changed;
  ids = [];
  user_ids = none;
  admin_only = true;
  admins_too = false;
}

abbrev busy : List Buffers.Op
busy =
    Buffers.delivers false (news 1)
    ∷ Buffers.delivers false for_admins
    ∷ Buffers.delivers false (news 2)
    ∷ Buffers.reads
    ∷ Buffers.delivers false (news 3)
    ∷ []

-- The buffer of two overflows no more, since one event was read, and the admin event was not shown.
busy_items : (Buffers.acts busy (subscription 0 7 false 2)).items ≡ news 2 ∷ news 3 ∷ []
unfolding program
busy_items = refl

acts-subscription-IsSound_example : Buffers.IsSound (Buffers.acts busy (subscription 0 7 false 2))
acts-subscription-IsSound_example = Buffers.acts-subscription-IsSound busy 0 7 2 false

abbrev watched : List Stream.Op
watched =
    Stream.delivers false (news 1)
    ∷ Stream.delivers false (news 2)
    ∷ Stream.reads
    ∷ Stream.delivers false (news 3)
    ∷ []

nothing_lost_example :
    (Stream.steps watched (Stream.opened 0 7 2 false)).received
      ++ (Stream.steps watched (Stream.opened 0 7 2 false)).sub.items
    ≡ (Stream.steps watched (Stream.opened 0 7 2 false)).offered
unfolding program
nothing_lost_example = Stream.nothing_lost watched 0 7 2 false refl

-- A thread has published, and a second one is between its two steps.
abbrev started : List Backlog.Op
started =
    Backlog.starts
    ∷ Backlog.subscribes 0 7 false
    ∷ Backlog.publishes (news 1)
    ∷ Backlog.advances 0 true
    ∷ Backlog.advances 0 true
    ∷ Backlog.publishes (news 2)
    ∷ Backlog.advances 0 true
    ∷ []

two_pending : (Backlog.steps started (Backlog.idle (init 64 200))).bus.pending ≡ 2
unfolding program
two_pending = refl

bus-AllBounded_example : Backlog.AllBounded (Backlog.steps started (Backlog.idle (init 64 200)))
bus-AllBounded_example = Backlog.bus-AllBounded started 64 200
