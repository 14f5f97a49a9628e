-- ===== src/EventBus/Backlog.antt =====
-- The publish backlog and the set of subscribers of the bus (app/services/event_bus.py).
use justup.Prelude.{
  ℕ, zero, suc, ◌+◌, ◌≤◌, ◌≡◌, refl, subst, ◌⊎◌, Bool, true, false, not, Option, none, some, List,
  [], ◌∷◌, arith, ◌==◌, map, length, length-append, length-filter_if, count_if, count_if-le-length,
  All, if◌then◌else◌,
}
use justup.EventBus.{
  LiveEvent, Subscription, subscription, offer, force_resync, Bus, init, start, subscribe, remove,
  Publisher, asking, counted, refused, World, publish, advance, and_publisher, advance_at,
  deliver_to, deliver, run_oldest, run_callback, close_now, max_pending,
}

-- A call on the loop's thread, a new call of `publish`, or the next step of a thread within one.
pub data Op : Type 0 where
  starts runs_callback closes : Op
  subscribes : ℕ → ℕ → Bool → Op
  removes : ℕ → Op
  publishes : LiveEvent → Op
  advances : ℕ → Bool → Op

abbrev pub on_bus : (Bus → Bus) → World → World
on_bus f w = record w { bus = f w.bus }

unfoldable pub step : Op → World → World
step starts w = on_bus start w
step runs_callback w = on_bus run_callback w
step closes w = on_bus (λ b. (close_now b).1) w
step (subscribes key user_id is_admin) w = on_bus (λ b. (subscribe key user_id is_admin b).1) w
step (removes key) w = on_bus (remove key) w
step (publishes event) w = publish event w
step (advances i alive) w =
    let next = advance_at i alive w.publishers w.bus in record { bus = next.1; publishers = next.0 }

unfoldable pub steps : List Op → World → World
steps [] w = w
steps (op ∷ ops) w = steps ops (step op w)

abbrev pub idle : Bus → World
idle b = record { bus = b; publishers = [] }

-- The thread has a place in the backlog, and nothing scheduled for it.
abbrev pub has_place : Publisher → Bool
has_place (asking event) = false
has_place (counted event) = true
has_place refused = true

-- `places` are those of the threads within `publish`.
pub record IsBounded (places : ℕ) (b : Bus) : Type 0 where
  pub pending_known : b.pending ≡ length b.scheduled + places
  pub limited : b.pending ≤ max_pending
  pub clients : length b.subs ≤ b.max_subscribers

length-map-subs :
    (f : Subscription → Subscription) (xs : List Subscription) → length (map f xs) ≡ length xs
length-map-subs f [] = refl
length-map-subs f (x ∷ xs) = omega (arith, length-map-subs f xs)

subscribe-IsBounded :
    (n key user_id : ℕ) (is_admin : Bool) (b : Bus)
    → IsBounded n b
    → IsBounded n (subscribe key user_id is_admin b).1
unfolding subscribe
subscribe-IsBounded n key user_id is_admin b h =
    ground (arith, length-append b.subs (subscription key user_id is_admin b.queue_size ∷ []))

remove-IsBounded : (n key : ℕ) (b : Bus) → IsBounded n b → IsBounded n (remove key b)
unfolding remove
remove-IsBounded n key b h = record {
  pending_known = h.pending_known;
  limited = h.limited;
  clients = omega (
    arith,
    h.clients,
    length-filter_if (λ s. not (s.key == key)) b.subs,
    count_if-le-length (λ s. not (s.key == key)) b.subs,
  );
}

run_oldest-IsBounded :
    (n : ℕ) (xs : List LiveEvent) (b : Bus)
    → b.scheduled ≡ xs
    → IsBounded n b
    → IsBounded n (run_oldest xs b)
unfolding run_oldest deliver
run_oldest-IsBounded n [] b e h = h
run_oldest-IsBounded n (x ∷ xs) b e h =
    ground (arith, length-map-subs (deliver_to b.backlog_lost x) b.subs)

-- A step of a thread takes a place, hands it to the loop or gives it back.
advance-IsBounded :
    (n : ℕ) (alive : Bool) (p : Publisher) (b : Bus)
    → IsBounded ((if has_place p then 1 else 0) + n) b
    → IsBounded
        (count_if has_place (and_publisher (advance alive p b).0 []) + n)
        (advance alive p b).1
unfolding advance
advance-IsBounded n alive (asking e) b h = ground arith
advance-IsBounded n alive (counted e) b h = ground (arith, length-append b.scheduled (e ∷ []))
advance-IsBounded n alive refused b h = ground arith

count-and_publisher :
    (p : Option Publisher) (ps : List Publisher)
    → count_if has_place (and_publisher p ps)
      ≡ count_if has_place (and_publisher p []) + count_if has_place ps
count-and_publisher none ps = omega arith
count-and_publisher (some p) ps = omega arith

advance_at-IsBounded :
    (n i : ℕ) (alive : Bool) (ps : List Publisher) (b : Bus)
    → IsBounded (count_if has_place ps + n) b
    → IsBounded (count_if has_place (advance_at i alive ps b).0 + n) (advance_at i alive ps b).1
unfolding advance_at
advance_at-IsBounded n i alive [] b h = h
advance_at-IsBounded n zero alive (p ∷ ps) b h =
    let next = advance alive p b in
    subst (λ k. IsBounded k next.1) (omega (arith, count-and_publisher next.0 ps))
      (advance-IsBounded (count_if has_place ps + n) alive p b
        (subst (λ k. IsBounded k b) (omega arith) h))
advance_at-IsBounded n (suc i) alive (p ∷ ps) b h =
    let k = if has_place p then 1 else 0 in
    let next = advance_at i alive ps b in
    subst (λ k. IsBounded k next.1) (omega arith)
      (advance_at-IsBounded (k + n) i alive ps b (subst (λ k. IsBounded k b) (omega arith) h))

abbrev pub AllBounded : World → Type 0
AllBounded w = IsBounded (count_if has_place w.publishers) w.bus

step-AllBounded : (op : Op) (w : World) → AllBounded w → AllBounded (step op w)
unfolding step start close_now run_callback publish
step-AllBounded starts w h = ground arith
step-AllBounded runs_callback w h =
    run_oldest-IsBounded (count_if has_place w.publishers) w.bus.scheduled w.bus refl h
step-AllBounded closes w h = ground arith
step-AllBounded (subscribes key user_id is_admin) w h =
    subscribe-IsBounded (count_if has_place w.publishers) key user_id is_admin w.bus h
step-AllBounded (removes key) w h = remove-IsBounded (count_if has_place w.publishers) key w.bus h
step-AllBounded (publishes e) w h = ground arith
step-AllBounded (advances i alive) w h =
    subst (λ k. IsBounded k (advance_at i alive w.publishers w.bus).1) (omega arith)
      (advance_at-IsBounded 0 i alive w.publishers w.bus
        (subst (λ k. IsBounded k w.bus) (omega arith) h))

steps-AllBounded : (ops : List Op) (w : World) → AllBounded w → AllBounded (steps ops w)
unfolding steps
steps-AllBounded [] w h = h
steps-AllBounded (op ∷ ops) w h = steps-AllBounded ops (step op w) (step-AllBounded op w h)

-- Over any calls on the bus, any callbacks of the loop and any interleaving of the threads that publish,
-- the pending count is the number of scheduled deliveries and of threads that have a place and have
-- neither scheduled a delivery nor given it back; it stays within the backlog limit, and there are
-- never more subscribers than allowed.
pub bus-AllBounded :
    (ops : List Op) (queue_size max_subscribers : ℕ)
    → AllBounded (steps ops (idle (init queue_size max_subscribers)))
unfolding init
bus-AllBounded ops queue_size max_subscribers = steps-AllBounded ops _ (ground arith)

abbrev pub IsTold : Subscription → Type 0
IsTold s = (s.closed ≡ true) ⊎ (s.resync ≡ true)

deliver_to-IsTold : (e : LiveEvent) (s : Subscription) → IsTold (deliver_to true e s)
unfolding deliver_to offer force_resync
deliver_to-IsTold e s = ground arith

deliver-IsTold :
    (lost : Bool) (e : LiveEvent) (xs : List Subscription)
    → lost ≡ true
    → All IsTold (map (deliver_to lost e) xs)
deliver-IsTold lost e [] h = tt
deliver-IsTold lost e (s ∷ xs) h = (rw h (deliver_to-IsTold e s), deliver-IsTold lost e xs h)

-- Where an event was dropped because the backlog was full, the next delivery leaves every subscriber
-- closed or with a resync pending, and takes the mark down.
pub lost_backlog_resyncs :
    (event : LiveEvent) (later : List LiveEvent) (b : Bus)
    → b.scheduled ≡ event ∷ later
    → b.backlog_lost ≡ true
    → All IsTold (run_callback b).subs × ((run_callback b).backlog_lost ≡ false)
unfolding run_callback run_oldest deliver
lost_backlog_resyncs event later b e l = rw e (deliver-IsTold b.backlog_lost event b.subs l, refl)
