-- ===== src/EventBus/Buffers.antt =====
-- What holds of a client's buffer between any two operations on it (app/services/event_bus.py).
use justup.Prelude.{
  ℕ, ◌≤◌, ◌≡◌, refl, inl, inr, Bool, true, false, ◌||◌, List, [], ◌∷◌, arith, leb, length,
  length-append, All, All-append, Bool-cases, if◌then◌else◌,
}
use justup.EventBus.{
  LiveEvent, Subscription, visible_to, subscription, offer, force_resync, close, next_item,
  next_turn, deliver_to,
}

-- What can happen to one subscription: a delivery, a turn of `next`, and `close`.
pub data Op : Type 0 where
  delivers : Bool → LiveEvent → Op
  reads closes : Op

unfoldable pub act : Op → Subscription → Subscription
unfolding deliver_to next_turn close
act (delivers lost event) s = deliver_to lost event s
act reads s = (next_turn s).1
act closes s = close s

unfoldable pub acts : List Op → Subscription → Subscription
acts [] s = s
acts (op ∷ ops) s = acts ops (act op s)

abbrev pub is_empty : List LiveEvent → Bool
is_empty [] = true
is_empty _ = false

-- `next` would not wait.
abbrev pub has_news : Subscription → Bool
has_news s = s.resync || s.closed || (if is_empty s.items then false else true)

abbrev pub AllVisible : Subscription → List LiveEvent → Type 0
AllVisible s = All (λ e. visible_to e s.user_id s.is_admin ≡ true)

pub record IsSound (s : Subscription) : Type 0 where
  pub bounded : length s.items ≤ s.size
  pub emptied : s.resync ≡ true → s.items ≡ []
  pub ended : s.closed ≡ true → s.items ≡ []
  pub woken : has_news s ≡ true → s.wakeup ≡ true
  pub seen : AllVisible s s.items

subscription-IsSound :
    (key user_id size : ℕ) (is_admin : Bool) → IsSound (subscription key user_id is_admin size)
unfolding subscription
subscription-IsSound key user_id size is_admin = ground arith

offer-seen :
    (e : LiveEvent) (s : Subscription)
    → visible_to e s.user_id s.is_admin ≡ true
    → AllVisible s s.items
    → AllVisible (offer e s) (offer e s).items
unfolding offer
offer-seen e s v h = elim (Bool-cases (s.closed || s.resync)) [
  | inl a ↦ rw a h
  | inr a ↦ elim (Bool-cases (leb s.size (length s.items))) [
    | inl b ↦ rw (a, b) tt
    | inr b ↦
        rw (a, b)
          (All-append (λ x. visible_to x s.user_id s.is_admin ≡ true) s.items (e ∷ []) h (v, tt))
  ]
]

offer-IsSound :
    (e : LiveEvent) (s : Subscription)
    → visible_to e s.user_id s.is_admin ≡ true
    → IsSound s
    → IsSound (offer e s)
unfolding offer
offer-IsSound e s v h = record {
  bounded = ground (arith, length-append s.items (e ∷ []));
  emptied = ground arith;
  ended = ground arith;
  woken = ground arith;
  seen = offer-seen e s v h.seen;
}

force_resync-IsSound : (s : Subscription) → IsSound s → IsSound (force_resync s)
unfolding force_resync
force_resync-IsSound s h = ground arith

told-IsSound :
    (lost : Bool) (s : Subscription) → IsSound s → IsSound (if lost then force_resync s else s)
told-IsSound true s h = force_resync-IsSound s h
told-IsSound false s h = h

deliver_to-IsSound :
    (lost : Bool) (e : LiveEvent) (s : Subscription) → IsSound s → IsSound (deliver_to lost e s)
unfolding deliver_to
deliver_to-IsSound lost e s h =
    let told = if lost then force_resync s else s in
    elim (Bool-cases (visible_to e told.user_id told.is_admin)) [
      | inl v ↦ rw v (offer-IsSound e told v (told-IsSound lost s h))
      | inr v ↦ rw v (told-IsSound lost s h)
    ]

close-IsSound : (s : Subscription) → IsSound s → IsSound (close s)
unfolding close
close-IsSound s h = ground arith

next_item-IsSound :
    (xs : List LiveEvent) (s : Subscription)
    → s.items ≡ xs
    → s.resync ≡ false
    → IsSound s
    → IsSound (next_item xs s).1
unfolding next_item
next_item-IsSound [] s e r h = elim (Bool-cases s.closed) [
  | inl c ↦ simp c h
  | inr c ↦ simp c (record {
    bounded = h.bounded;
    emptied = h.emptied;
    ended = λ _. e;
    woken = ground arith;
    seen = h.seen;
  })
]
next_item-IsSound (x ∷ xs) s e r h =
    let v : AllVisible s (x ∷ xs) = rw e at h.seen in
    record {
      bounded = let b = h.bounded in ground arith;
      emptied = ground arith;
      ended = ground arith;
      woken = ground arith;
      seen = v.1;
    }

next_turn-IsSound : (s : Subscription) → IsSound s → IsSound (next_turn s).1
unfolding next_turn
next_turn-IsSound s h = elim (Bool-cases s.resync) [
  | inl r ↦ simp r (record {
    bounded = h.bounded;
    emptied = λ _. h.emptied r;
    ended = h.ended;
    woken = λ _. h.woken (rw r refl);
    seen = h.seen;
  })
  | inr r ↦ simp r (next_item-IsSound s.items s refl r h)
]

act-IsSound : (op : Op) (s : Subscription) → IsSound s → IsSound (act op s)
unfolding act
act-IsSound (delivers lost e) s h = deliver_to-IsSound lost e s h
act-IsSound reads s h = next_turn-IsSound s h
act-IsSound closes s h = close-IsSound s h

acts-IsSound : (ops : List Op) (s : Subscription) → IsSound s → IsSound (acts ops s)
unfolding acts
acts-IsSound [] s h = h
acts-IsSound (op ∷ ops) s h = acts-IsSound ops (act op s) (act-IsSound op s h)

-- After any deliveries, reads and a close, in any order, a new subscription holds at most `size`
-- events, each of them visible to its user; it holds none while a resync is pending or once it is
-- closed; and whenever a resync, an event or the end is there to be told, the wake-up flag is set,
-- so `next` never sleeps on news.
pub acts-subscription-IsSound :
    (ops : List Op) (key user_id size : ℕ) (is_admin : Bool)
    → IsSound (acts ops (subscription key user_id is_admin size))
acts-subscription-IsSound ops key user_id size is_admin =
    acts-IsSound ops (subscription key user_id is_admin size)
      (subscription-IsSound key user_id size is_admin)
