-- ===== src/EventBus/Stream.antt =====
-- What a client gets to see (app/services/event_bus.py): the events, or the word to reload.
use justup.Prelude.{
  ℕ, ◌≡◌, refl, sym, ◌∙◌, ap, inl, inr, Bool, true, false, List, [], ◌∷◌, ◌++◌, arith, append_assoc,
  Bool-cases, if◌then◌else◌,
}
use justup.EventBus.{
  LiveEvent, Subscription, Turn, receives, visible_to, subscription, offer, force_resync, next_item,
  next_turn, deliver_to,
}

pub data Op : Type 0 where
  delivers : Bool → LiveEvent → Op
  reads : Op

-- A subscription with the client's view since it was last told to reload everything, or since it
-- subscribed: the visible events that the bus delivered, and those that `next` returned.
pub record Stream : Type 0 where
  pub sub : Subscription
  pub offered : List LiveEvent
  pub received : List LiveEvent

-- A turn of `next` that tells of a resync starts a new view.
unfoldable pub read_as : Bool → Turn × Subscription → Stream → Stream
read_as true (told, sub) t = record { sub = sub; offered = []; received = [] }
read_as false (receives event, sub) t = record t { sub = sub; received = t.received ++ event ∷ [] }
read_as false (_, sub) t = record t { sub = sub }

unfoldable pub step : Op → Stream → Stream
unfolding read_as
step (delivers lost event) t = record t {
  sub = deliver_to lost event t.sub;
  offered =
      if visible_to event t.sub.user_id t.sub.is_admin then t.offered ++ event ∷ [] else t.offered;
}
step reads t = read_as t.sub.resync (next_turn t.sub) t

unfoldable pub steps : List Op → Stream → Stream
steps [] t = t
steps (op ∷ ops) t = steps ops (step op t)

record Complete (t : Stream) : Type 0 where
  pub live : t.sub.closed ≡ false
  pub emptied : t.sub.resync ≡ true → t.sub.items ≡ []
  pub whole : t.sub.resync ≡ false → t.received ++ t.sub.items ≡ t.offered

deliver-Complete :
    (lost : Bool) (e : LiveEvent) (t : Stream) → Complete t → Complete (step (delivers lost e) t)
unfolding step deliver_to offer force_resync
deliver-Complete lost e t h = record {
  live = let l = h.live in ground arith;
  emptied = let l = h.live in let m = h.emptied in ground arith;
  whole =
      let l = h.live in
      let m = h.whole in ground (arith, append_assoc t.received t.sub.items (e ∷ []));
}

abbrev IsWhole : Stream → Type 0
IsWhole t = t.received ++ t.sub.items ≡ t.offered

read_item-IsWhole :
    (xs : List LiveEvent) (t : Stream)
    → t.sub.items ≡ xs
    → t.sub.closed ≡ false
    → IsWhole t
    → IsWhole (read_as false (next_item xs t.sub) t)
unfolding next_item read_as
read_item-IsWhole [] t e c h = simp c h
read_item-IsWhole (x ∷ xs) t e c h =
    append_assoc t.received (x ∷ []) xs ∙ ap (◌++◌ t.received) (sym e) ∙ h

read-IsWhole : (t : Stream) → Complete t → IsWhole (step reads t)
unfolding step next_turn
read-IsWhole t h = elim (Bool-cases t.sub.resync) [
  | inl r ↦ simp (r, h.emptied r)
  | inr r ↦ simp r (read_item-IsWhole t.sub.items t refl h.live (h.whole r))
]

read-Complete : (t : Stream) → Complete t → Complete (step reads t)
unfolding step next_turn next_item
read-Complete t h = record {
  live = let l = h.live in ground arith;
  emptied = let l = h.live in let m = h.emptied in ground arith;
  whole = λ _. read-IsWhole t h;
}

steps-Complete : (ops : List Op) (t : Stream) → Complete t → Complete (steps ops t)
unfolding steps
steps-Complete [] t h = h
steps-Complete (delivers lost e ∷ ops) t h =
    steps-Complete ops (step (delivers lost e) t) (deliver-Complete lost e t h)
steps-Complete (reads ∷ ops) t h = steps-Complete ops (step reads t) (read-Complete t h)

abbrev pub opened : ℕ → ℕ → ℕ → Bool → Stream
opened key user_id size is_admin = record {
  sub = subscription key user_id is_admin size;
  offered = [];
  received = [];
}

opened-Complete :
    (key user_id size : ℕ) (is_admin : Bool) → Complete (opened key user_id size is_admin)
unfolding subscription
opened-Complete key user_id size is_admin = record {
  live = refl;
  emptied = λ _. refl;
  whole = λ _. refl;
}

-- No event is lost in silence. Over any deliveries and reads of an open subscription, unless a
-- resync is pending, what the client has received since it last reloaded, followed by what its
-- buffer holds, is exactly what the bus has delivered to it since then, in order.
pub nothing_lost :
    (ops : List Op) (key user_id size : ℕ) (is_admin : Bool)
    → (steps ops (opened key user_id size is_admin)).sub.resync ≡ false
    → (steps ops (opened key user_id size is_admin)).received
        ++ (steps ops (opened key user_id size is_admin)).sub.items
      ≡ (steps ops (opened key user_id size is_admin)).offered
nothing_lost ops key user_id size is_admin =
    (steps-Complete ops _ (opened-Complete key user_id size is_admin)).whole
