-- ===== src/EventBus.antt =====
-- The in-process event bus of app/services/event_bus.py. `scheduled` is what `call_soon_threadsafe`
-- has handed to the event loop and the loop has not run yet, in order.
mod Client
pub use Client.{
  EventType, target_measurement, target_status, alert_changed, notification_changed, target_changed,
  system_heartbeat, system_resync, other_type, LiveEvent, Subscription, Turn, receives, stopped,
  sleeps,
}
unfoldable pub use Client.{
  is_event_type, contains, visible_to, subscription, offer, force_resync, close, next_item,
  next_turn, resync_event,
}
pub mod Buffers
pub mod Stream
pub mod Backlog
mod Tests
use justup.Prelude.{
  ℕ, zero, suc, ◌+◌, ◌-◌, Bool, true, false, not, ◌||◌, ◌&&◌, Option, none, some, List, [], ◌∷◌,
  ◌++◌, ◌==◌, leb, map, length, filter_if, if◌then◌else◌,
}

-- `MAX_PENDING_PUBLISHES`
abbrev pub max_pending : ℕ
max_pending = 2000

-- `bound` says that `_loop` is set.
pub record Bus : Type 0 where
  pub queue_size : ℕ
  pub max_subscribers : ℕ
  pub bound : Bool
  pub subs : List Subscription
  pub pending : ℕ
  pub backlog_lost : Bool
  pub closed : Bool
  pub scheduled : List LiveEvent

pub init : ℕ → ℕ → Bus
init queue_size max_subscribers = record {
  queue_size = queue_size;
  max_subscribers = max_subscribers;
  bound = false;
  subs = [];
  pending = 0;
  backlog_lost = false;
  closed = false;
  scheduled = [];
}

pub start : Bus → Bus
start b = record b { bound = true; closed = false }

-- `key` is the identity of the new object.
pub subscribe : ℕ → ℕ → Bool → Bus → Option Subscription × Bus
unfolding subscription
subscribe key user_id is_admin b =
    if b.closed || not b.bound || leb b.max_subscribers (length b.subs) then (none, b) else (
      some (subscription key user_id is_admin b.queue_size),
      record b { subs = b.subs ++ subscription key user_id is_admin b.queue_size ∷ [] },
    )

-- `_remove`: `set.discard`
pub remove : ℕ → Bus → Bus
remove key b = record b { subs = filter_if (λ s. not (s.key == key)) b.subs }

-- A thread within `publish`: before the first locked section, behind it, or where the loop has refused
-- the callback and the second one is still to come.
pub data Publisher : Type 0 where
  asking counted : LiveEvent → Publisher
  refused : Publisher

-- The bus and the threads that publish on it.
pub record World : Type 0 where
  pub bus : Bus
  pub publishers : List Publisher

-- A call of `publish` passes its first test or returns.
pub publish : LiveEvent → World → World
unfolding is_event_type
publish event w =
    if not w.bus.bound || w.bus.closed || not (is_event_type event.type)
    then w
    else record w { publishers = asking event ∷ w.publishers }

-- The next step of a thread, with what is left of it to do. `alive` is whether `call_soon_threadsafe`
-- accepts the callback; a closed loop raises.
pub advance : Bool → Publisher → Bus → Option Publisher × Bus
advance alive (asking event) b =
    if leb max_pending b.pending
    then (none, record b { backlog_lost = true })
    else (some (counted event), record b { pending = b.pending + 1 })
advance alive (counted event) b =
    if alive then (none, record b { scheduled = b.scheduled ++ event ∷ [] }) else (some refused, b)
advance alive refused b = (none, record b { pending = b.pending - 1 })

abbrev pub and_publisher : Option Publisher → List Publisher → List Publisher
and_publisher none ps = ps
and_publisher (some p) ps = p ∷ ps

-- The thread at an index goes on.
pub advance_at : ℕ → Bool → List Publisher → Bus → List Publisher × Bus
unfolding advance
advance_at i alive [] b = ([], b)
advance_at zero alive (p ∷ ps) b = let next = advance alive p b in (and_publisher next.0 ps, next.1)
advance_at (suc i) alive (p ∷ ps) b = let next = advance_at i alive ps b in (p ∷ next.0, next.1)

-- The body of the loop of `_deliver`.
pub deliver_to : Bool → LiveEvent → Subscription → Subscription
deliver_to lost event sub =
    let told = if lost then force_resync sub else sub in
    if visible_to event told.user_id told.is_admin then offer event told else told

-- `_deliver`, when the loop runs the callback. Other threads do not touch the subscribers, so what
-- they do while it goes through them can come before or after it.
pub deliver : LiveEvent → Bus → Bus
unfolding deliver_to
deliver event b = record b {
  pending = b.pending - 1;
  backlog_lost = false;
  subs = map (deliver_to b.backlog_lost event) b.subs;
}

pub run_oldest : List LiveEvent → Bus → Bus
unfolding deliver
run_oldest [] b = b
run_oldest (event ∷ later) b = deliver event (record b { scheduled = later })

-- The loop runs the oldest callback.
pub run_callback : Bus → Bus
unfolding run_oldest
run_callback b = run_oldest b.scheduled b

-- `_close_now`, with the closed objects that the streams still hold.
pub close_now : Bus → List Subscription × Bus
unfolding close
close_now b = (map close b.subs, record b { closed = true; subs = [] })
