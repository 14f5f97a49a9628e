-- ===== src/Spooler/Rows.antt =====
-- The rows of `notification_queue` (app/services/notifications/spooler.py). Times are microseconds;
-- their ISO texts are stored and compared in the same order. `WHERE id = ?` meets at most one row.
use justup.Prelude.{
  ℕ, ◌+◌, ◌≤◌, ◌≡◌, refl, String, Bool, true, false, Option, none, some, List, [], ◌∷◌, ◌++◌, arith,
  ◌==◌, ltb, length, if◌then◌else◌, All, Bool-cases, inl, inr, take, length-take-le, length-append,
  subst, ltb_false→le, count_if,
}
use mathlib.Core.Option.{some-injective}
use justup.Text.{codes}
use justup.DeliveryPolicy.{Channel}

pub data NotificationType : Type 0 where
  welcome alert test : NotificationType

pub data QueueStatus : Type 0 where
  pending processing sent failed : QueueStatus

-- What the code reads from the JSON payload, with its text.
pub record Payload : Type 0 where
  pub text : String
  pub alert_id : Option String
  pub alert_event : Option String
  pub sender : List ℕ

pub record Row : Type 0 where
  pub id : ℕ
  pub type : NotificationType
  pub channel : Channel
  pub recipient_id : Option ℕ
  pub address : String
  pub payload : Payload
  pub status : QueueStatus
  pub retry_count : ℕ
  pub limited_attempts : ℕ
  pub next_retry_at : ℕ
  pub last_error : Option (List ℕ)
  pub created_at : ℕ
  pub updated_at : ℕ
  pub target_id : Option ℕ

-- The wording of a final failure in the inbox.
pub data Reason : Type 0 where
  expired rejected exhausted : Reason

-- The calls that `_record_delivery` makes of the inbox.
pub data Event : Type 0 where
  delivery_sent : Channel → Event
  handoff_recovered : Event
  delivery_failed : ℕ → Channel → Option ℕ → Reason → Event
  handoff_failed : Reason → Event

-- status IN ('pending', 'processing')
abbrev pub is_open : QueueStatus → Bool
is_open pending = true
is_open processing = true
is_open _ = false

abbrev pub is_processing : QueueStatus → Bool
is_processing processing = true
is_processing _ = false

abbrev pub is_pending : QueueStatus → Bool
is_pending pending = true
is_pending _ = false

abbrev pub is_test : NotificationType → Bool
is_test test = true
is_test _ = false

unfoldable pub find : ℕ → List Row → Option Row
find id [] = none
find id (r ∷ rows) = if r.id == id then some r else find id rows

-- UPDATE ... WHERE id = ?
unfoldable pub modify : ℕ → (Row → Row) → List Row → List Row
modify id f [] = []
modify id f (r ∷ rows) = if r.id == id then f r ∷ rows else r ∷ modify id f rows

-- `error[:497] + "..."` of a text of more than 500 characters
unfoldable pub truncated : List ℕ → List ℕ
truncated error = if ltb 500 (length error) then take 497 error ++ codes "..." else error

pub truncated-length-le : (error : List ℕ) → length (truncated error) ≤ 500
unfolding truncated
truncated-length-le error =
    let cut = length-take-le 497 error in
    let sum = length-append (take 497 error) (codes "...") in
    let dots : length (codes "...") ≡ 3 = refl in
    elim (Bool-cases (ltb 500 (length error))) [
      | inl e ↦ rw e (omega arith)
      | inr e ↦ rw e (ltb_false→le 500 (length error) e)
    ]

abbrev mapped : (Row → Row) → Option Row → Option Row
mapped f none = none
mapped f (some r) = some (f r)

pub find-modify :
    (i j : ℕ) (f : Row → Row) (rows : List Row)
    → ((r : Row) → (f r).id ≡ r.id)
    → find j (modify i f rows) ≡ (if i == j then mapped f (find j rows) else find j rows)
unfolding find modify
find-modify i j f [] h = ground arith
find-modify i j f (r ∷ rows) h = ground (arith, h r, find-modify i j f rows h)

pub All-modify {κ} :
    (P : Row → Type κ) (i : ℕ) (f : Row → Row) (rows : List Row)
    → ((r : Row) → find i rows ≡ some r → P r → P (f r))
    → All P rows
    → All P (modify i f rows)
unfolding modify find
All-modify P i f [] h all = tt
All-modify P i f (r ∷ rows) h all = elim (Bool-cases (r.id == i)) [
  | inl e ↦ rw e (h r (rw e refl) all.0, all.1)
  | inr e ↦ rw e (all.0, All-modify P i f rows (λ x q. h x (rw e q)) all.1)
]

pub find-All :
    (P : Row → Type 0) (i : ℕ) (rows : List Row) {r : Row} → All P rows → find i rows ≡ some r → P r
unfolding find
find-All P i [] all h = absurd (ground arith)
find-All P i (x ∷ rows) {r} all h = elim (Bool-cases (x.id == i)) [
  | inl e ↦ let q : some x ≡ some r = rw e at h in subst P (some-injective x r q) all.0
  | inr e ↦ find-All P i rows all.1 (rw e at h)
]

pub find-id : (i : ℕ) (rows : List Row) {r : Row} → find i rows ≡ some r → r.id ≡ i
unfolding find
find-id i [] h = absurd (ground arith)
find-id i (x ∷ rows) {r} h = ground (arith, find-id i rows {r = r})

-- A row that is replaced changes a count by itself.
pub count-modify :
    (p : Row → Bool) (i : ℕ) (f : Row → Row) (rows : List Row) {r : Row}
    → find i rows ≡ some r
    → count_if p (modify i f rows) + (if p r then 1 else 0)
      ≡ count_if p rows + (if p (f r) then 1 else 0)
unfolding find modify
count-modify p i f [] h = absurd (ground arith)
count-modify p i f (x ∷ rows) {r} h = elim (Bool-cases (x.id == i)) [
  | inl e ↦
      let q = some-injective x r (rw e at h) in
      rw e (
        subst
          (λ y.
            count_if p (f x ∷ rows) + (if p y then 1 else 0)
            ≡ count_if p (x ∷ rows) + (if p (f y) then 1 else 0))
          q (omega arith))
  | inr e ↦ let known = count-modify p i f rows (rw e at h) in rw e (omega arith)
]
