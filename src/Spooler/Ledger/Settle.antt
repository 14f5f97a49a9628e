-- ===== src/Spooler/Ledger/Settle.antt =====
-- What one guarded UPDATE of the notification queue keeps (app/services/notifications/spooler.py): a
-- row that ends, with the call of the inbox, and a row that stays open.
use mathlib.Core.Option.{some-injective}
use justup.Prelude.{
  ℕ, ◌+◌, ◌≤◌, ◌≡◌, refl, sym, ap, ◌∙◌, subst, Bool, true, false, not, ◌&&◌, some, List, ◌==◌,
  arith, if◌then◌else◌, count_if, All,
}
use justup.DeliveryPolicy.{Channel, email, max_retries}
use justup.Spooler.{
  Row, State, sent, failed, is_open, is_test, find, modify, settle, Message, same_channel,
  same_alert,
}
use justup.Spooler.Rows.{All-modify, count-modify}
use justup.Spooler.Ledger.{
  has_id, has_sent_on, has_failed_as, has_failed_message_as, WithinBudget, Older, Sound, Keeps,
  same_alert-Keeps, Step, frozen-modify, id-Keeps, settle_counts,
}

-- What is known of the row that an UPDATE meets, for the row as it stands in the list.
budget-modify :
    (f : Row → Row) (id : ℕ) (rows : List Row) {r : Row}
    → find id rows ≡ some r
    → (WithinBudget r → WithinBudget (f r))
    → All WithinBudget rows
    → All WithinBudget (modify id f rows)
budget-modify f id rows {r} h stays all =
    All-modify WithinBudget id f rows
      (λ x q w.
        let same : r ≡ x = some-injective r x (sym h ∙ q) in
        subst (λ y. WithinBudget y → WithinBudget (f y)) same stays w)
      all

-- The row that a final state is written to.
abbrev pub Ends : Bool → Row → Type 0
Ends true r = r.status ≡ sent
Ends false r = r.status ≡ failed

-- What an open row counts for before an UPDATE.
open_counts :
    (r : Row) (c : Channel) (i : ℕ)
    → is_open r.status ≡ true
    → (has_sent_on c r ≡ false) × (has_failed_as i r ≡ false) × (has_failed_message_as i r ≡ false)
open_counts r c i h = ground arith

sent_row :
    (r : Row) (c : Channel) (i : ℕ)
    → r.status ≡ sent
    → (has_sent_on c r ≡ same_channel r.channel c)
      × (has_failed_as i r ≡ false)
      × (has_failed_message_as i r ≡ false)
sent_row r c i h = rw h (refl, refl, refl)

failed_row :
    (r : Row) (c : Channel) (i : ℕ)
    → r.status ≡ failed
    → (has_sent_on c r ≡ false)
      × (has_failed_as i r ≡ (r.id == i))
      × (has_failed_message_as i r ≡ (not (is_test r.type) && r.id == i))
failed_row r c i h = rw h (refl, refl, refl)

counted_same :
    (p : Row → Bool) (id : ℕ) (f : Row → Row) (rows : List Row) {r : Row}
    → find id rows ≡ some r
    → p (f r) ≡ p r
    → count_if p (modify id f rows) ≡ count_if p rows
counted_same p id f rows {r} h same =
    let c : count_if p (modify id f rows) + (if p r then 1 else 0)
        ≡ count_if p rows + (if p (f r) then 1 else 0) =
      count-modify p id f rows h in
    let d = rw same at c in omega (arith, d)

counted_new :
    (p : Row → Bool) (id : ℕ) (f : Row → Row) (rows : List Row) (b : Bool) {r : Row}
    → find id rows ≡ some r
    → p r ≡ false
    → p (f r) ≡ b
    → count_if p (modify id f rows) ≡ (if b then 1 else 0) + count_if p rows
counted_new p id f rows b {r} h old new =
    let c : count_if p (modify id f rows) + (if p r then 1 else 0)
        ≡ count_if p rows + (if p (f r) then 1 else 0) =
      count-modify p id f rows h in
    let d = rw (old, new) at c in omega (arith, d)

module _ (f : Row → Row) (keeps : Keeps f) where
  unique-modify :
      (id i : ℕ) (rows : List Row) {r : Row}
      → find id rows ≡ some r
      → count_if (has_id i) rows ≤ 1
      → count_if (has_id i) (modify id f rows) ≤ 1
  unique-modify id i rows {r} h u =
      let same : has_id i (f r) ≡ has_id i r = ap (λ k. k == i) (id-Keeps f keeps r) in
      omega (arith, u, counted_same (has_id i) id f rows h same)

  Older-modify :
      (id next : ℕ) (rows : List Row) → All (Older next) rows → All (Older next) (modify id f rows)
  Older-modify id next rows = All-modify (Older next) id f rows (λ x q o. rw (id-Keeps f keeps x) o)

  alerts-modify :
      (id : ℕ) (m : Message) (rows : List Row) {r : Row}
      → find id rows ≡ some r
      → count_if (same_alert m) rows ≤ count_if (same_alert m) (modify id f rows)
  alerts-modify id m rows {r} h =
      omega (arith, counted_same (same_alert m) id f rows h (same_alert-Keeps f m r keeps))

  settle-Sound :
      (done : Bool) (id : ℕ) (st : State) {r : Row}
      → find id st.rows ≡ some r
      → is_open r.status ≡ true
      → Ends done (f r)
      → Sound st
      → Sound (settle done id f st)
  settle-Sound true id st {r} h o ends s =
      let tells = settle_counts true id f st keeps h in
      record {
        unique = λ i. rw (tells.same_rows) (unique-modify id i st.rows h (s.unique i));
        older = rw (tells.same_rows, tells.same_next) (Older-modify id st.next_id st.rows s.older);
        sent_told = λ c. rw (tells.same_rows) (
            omega (
              arith,
              tells.tells_sent c,
              s.sent_told c,
              counted_new (has_sent_on c) id f st.rows (same_channel (f r).channel c) h
                  (open_counts r c 0 o).0 (sent_row (f r) c 0 ends).0,
            ));
        told_failed = λ i. rw (tells.same_rows) (
            omega (
              arith,
              tells.tells_failed i,
              s.told_failed i,
              counted_new (has_failed_as i) id f st.rows false h (open_counts r email i o).1
                  (sent_row (f r) email i ends).1,
            ));
        failed_told = λ i. rw (tells.same_rows) (
            omega (
              arith,
              tells.tells_failed i,
              s.failed_told i,
              counted_new (has_failed_message_as i) id f st.rows false h (open_counts r email i o).2
                  (sent_row (f r) email i ends).2,
            ));
        budget =
            rw (tells.same_rows)
              (budget-modify f id st.rows h (λ w q. absurd (ground (arith, q, ends))) s.budget);
      }
  settle-Sound false id st {r} h o ends s =
      let tells = settle_counts false id f st keeps h in
      record {
        unique = λ i. rw (tells.same_rows) (unique-modify id i st.rows h (s.unique i));
        older = rw (tells.same_rows, tells.same_next) (Older-modify id st.next_id st.rows s.older);
        sent_told = λ c. rw (tells.same_rows) (
            omega (
              arith,
              tells.tells_sent c,
              s.sent_told c,
              counted_new (has_sent_on c) id f st.rows false h (open_counts r c 0 o).0
                  (failed_row (f r) c 0 ends).0,
            ));
        told_failed = λ i. rw (tells.same_rows) (
            omega (
              arith,
              tells.tells_failed i,
              s.told_failed i,
              counted_new (has_failed_as i) id f st.rows ((f r).id == i) h
                  (open_counts r email i o).1 (failed_row (f r) email i ends).1,
            ));
        failed_told = λ i. rw (tells.same_rows) (
            ground (
              arith,
              tells.tells_failed i,
              s.failed_told i,
              counted_new (has_failed_message_as i) id f st.rows
                  (not (is_test (f r).type) && (f r).id == i) h (open_counts r email i o).2
                  (failed_row (f r) email i ends).2,
            ));
        budget =
            rw (tells.same_rows)
              (budget-modify f id st.rows h (λ w q. absurd (ground (arith, q, ends))) s.budget);
      }

  pub settle-Step :
      (done : Bool) (id : ℕ) (st : State) {r : Row}
      → find id st.rows ≡ some r
      → is_open r.status ≡ true
      → Ends done (f r)
      → Step st (settle done id f st)
  settle-Step done id st {r} h o ends =
      let tells = settle_counts done id f st keeps h in
      record {
        sound = settle-Sound done id st h o ends;
        frozen =
            λ j q c. rw (tells.same_rows) (frozen-modify id f st.rows (id-Keeps f keeps) h o j q c);
        alerts = λ m. rw (tells.same_rows) (alerts-modify id m st.rows h);
      }

  pub touch-Step :
      (id : ℕ) (st : State) {r : Row}
      → find id st.rows ≡ some r
      → is_open r.status ≡ true
      → is_open (f r).status ≡ true
      → (r.limited_attempts ≤ max_retries → (f r).limited_attempts ≤ max_retries)
      → Step st (record st { rows = modify id f st.rows })
  touch-Step id st {r} h o stays spend = record {
    sound = λ s. record {
      unique = λ i. unique-modify id i st.rows h (s.unique i);
      older = Older-modify id st.next_id st.rows s.older;
      sent_told = λ c. omega (
        arith,
        s.sent_told c,
        counted_new (has_sent_on c) id f st.rows false h (open_counts r c 0 o).0
            (open_counts (f r) c 0 stays).0,
      );
      told_failed = λ i. omega (
        arith,
        s.told_failed i,
        counted_new (has_failed_as i) id f st.rows false h (open_counts r email i o).1
            (open_counts (f r) email i stays).1,
      );
      failed_told = λ i. omega (
        arith,
        s.failed_told i,
        counted_new (has_failed_message_as i) id f st.rows false h (open_counts r email i o).2
            (open_counts (f r) email i stays).2,
      );
      budget = budget-modify f id st.rows h (λ w q. spend (w o)) s.budget;
    };
    frozen = frozen-modify id f st.rows (id-Keeps f keeps) h o;
    alerts = λ m. alerts-modify id m st.rows h;
  }
