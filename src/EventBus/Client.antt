-- ===== src/EventBus/Client.antt =====
-- `LiveEvent` and `Subscription` of app/services/event_bus.py.
use justup.Prelude.{
  ℕ, String, Bool, true, false, not, ◌||◌, ◌&&◌, Option, none, some, List, [], ◌∷◌, ◌++◌, ◌==◌, leb,
  length, if◌then◌else◌,
}
use justup.Dict.{Dict}

pub data EventType : Type 0 where
  target_measurement target_status alert_changed notification_changed : EventType
  target_changed system_heartbeat system_resync : EventType
  other_type : String → EventType

-- `type in EVENT_TYPES`
unfoldable pub is_event_type : EventType → Bool
is_event_type (other_type name) = false
is_event_type _ = true

-- The data of an event are ids by name.
pub record LiveEvent : Type 0 where
  pub type : EventType
  pub ids : Dict ℕ
  pub user_ids : Option (List ℕ)
  pub admin_only : Bool
  pub admins_too : Bool

unfoldable pub contains : ℕ → List ℕ → Bool
contains a [] = false
contains a (x ∷ xs) = a == x || contains a xs

visible_among : Option (List ℕ) → LiveEvent → ℕ → Bool → Bool
unfolding contains
visible_among none event user_id is_admin = is_admin || not event.admin_only
visible_among (some ids) event user_id is_admin =
    contains user_id ids || (event.admins_too && is_admin)

unfoldable pub visible_to : LiveEvent → ℕ → Bool → Bool
unfolding visible_among
visible_to event user_id is_admin = visible_among event.user_ids event user_id is_admin

-- `wakeup` is the flag of the `asyncio.Event`; `key` is the identity of the object.
pub record Subscription : Type 0 where
  pub key : ℕ
  pub user_id : ℕ
  pub is_admin : Bool
  pub size : ℕ
  pub items : List LiveEvent
  pub wakeup : Bool
  pub resync : Bool
  pub closed : Bool

unfoldable pub subscription : ℕ → ℕ → Bool → ℕ → Subscription
subscription key user_id is_admin size = record {
  key = key;
  user_id = user_id;
  is_admin = is_admin;
  size = size;
  items = [];
  wakeup = false;
  resync = false;
  closed = false;
}

-- `_offer`
unfoldable pub offer : LiveEvent → Subscription → Subscription
offer event s =
    if s.closed || s.resync
    then s
    else if leb s.size (length s.items)
    then record s { items = []; resync = true; wakeup = true }
    else record s { items = s.items ++ event ∷ []; wakeup = true }

unfoldable pub force_resync : Subscription → Subscription
force_resync s = if s.closed then s else record s { items = []; resync = true; wakeup = true }

-- `_close`
unfoldable pub close : Subscription → Subscription
close s = record s { closed = true; items = []; wakeup = true }

abbrev pub resync_event : LiveEvent
resync_event = record {
  type = system_resync;
  ids = [];
  user_ids = none;
  admin_only = false;
  admins_too = false;
}

pub data Turn : Type 0 where
  receives : LiveEvent → Turn
  stopped sleeps : Turn

unfoldable pub next_item : List LiveEvent → Subscription → Turn × Subscription
next_item [] s = if s.closed then (stopped, s) else (sleeps, record s { wakeup = false })
next_item (event ∷ later) s = (receives event, record s { items = later })

-- One turn of the loop of `next`, up to its wait; a timeout of the wait changes nothing.
unfoldable pub next_turn : Subscription → Turn × Subscription
next_turn s =
    if s.resync then (receives resync_event, record s { resync = false }) else next_item s.items s
