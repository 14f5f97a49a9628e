-- ===== src/ServiceAlerts/Rows.antt =====
-- The rows of an incident, counted (app/db/notifications.py).
use justup.Prelude.{
  ℕ, ◌+◌, ◌≤◌, ◌≡◌, refl, ap, ◌∙◌, Bool, true, false, not, ◌&&◌, Option, none, some, List, [], ◌∷◌,
  ltb, arith, All, if◌then◌else◌,
}
use justup.ServiceAlerts.Incidents.{
  Notice, Key, opening, recovery, Row, OpenIncident, Inbox, has_key, rewrite_row,
  rewrite_incident_row,
}

abbrev pub is_opening : Key → Bool
is_opening (opening at) = true
is_opening (recovery id) = false

abbrev pub is_recovery : Key → Bool
is_recovery (opening at) = false
is_recovery (recovery id) = true

abbrev pub openings : List Row → ℕ
openings [] = 0
openings (r ∷ rs) = (if is_opening r.key then 1 else 0) + openings rs

abbrev pub recoveries : List Row → ℕ
recoveries [] = 0
recoveries (r ∷ rs) = (if is_recovery r.key then 1 else 0) + recoveries rs

abbrev pub open_count : Option OpenIncident → ℕ
open_count none = 0
open_count (some i) = 1

-- A recovery is of an incident that was there before.
abbrev pub is_below : ℕ → Key → Bool
is_below n (opening at) = true
is_below n (recovery id) = ltb id n

abbrev pub AllBelow : ℕ → List Row → Type 0
AllBelow n = All (λ r. is_below n r.key ≡ true)

abbrev pub is_unresolved : Option OpenIncident → ℕ → List Row → Bool
is_unresolved none n rows = true
is_unresolved (some i) n rows =
    ltb i.notification_id n && not (has_key (recovery i.notification_id) rows)

pub record IsPaired (lost : ℕ) (b : Inbox) : Type 0 where
  pub enough : recoveries b.rows + open_count b.incident ≤ openings b.rows
  pub paired : openings b.rows ≤ recoveries b.rows + open_count b.incident + lost
  pub below : AllBelow b.next_id b.rows
  pub unresolved : is_unresolved b.incident b.next_id b.rows ≡ true

pub AllBelow-mono : (n : ℕ) (rows : List Row) → AllBelow n rows → AllBelow (n + 1) rows
AllBelow-mono n [] h = tt
AllBelow-mono n (r ∷ rs) h = (ground (arith, h.0), AllBelow-mono n rs h.1)

-- No row resolves what is not there yet.
pub unresolved_new : (n : ℕ) (rows : List Row) → AllBelow n rows → has_key (recovery n) rows ≡ false
unfolding has_key
unresolved_new n [] h = refl
unresolved_new n (r ∷ rs) h = ground (arith, h.0, unresolved_new n rs h.1)

module _ (id : ℕ) (notice : Notice) (renotify : Bool) where
  abbrev pub rewritten : List Row → List Row
  rewritten rows = rewrite_incident_row id notice renotify rows

  pub record IsSameKeys (rows : List Row) : Type 0 where
    pub openings_same : openings (rewritten rows) ≡ openings rows
    pub recoveries_same : recoveries (rewritten rows) ≡ recoveries rows
    pub keys_same : (key : Key) → has_key key (rewritten rows) ≡ has_key key rows

  rewrite_row-key : (r : Row) → (rewrite_row id notice renotify r).key ≡ r.key
  rewrite_row-key r = ground arith

  pub rewrite-IsSameKeys : (rows : List Row) → IsSameKeys rows
  unfolding rewrite_incident_row has_key
  rewrite-IsSameKeys [] = record {
    openings_same = refl;
    recoveries_same = refl;
    keys_same = λ key. refl;
  }
  rewrite-IsSameKeys (r ∷ rs) =
      let rest = rewrite-IsSameKeys rs in
      let same = rewrite_row-key r in
      record {
        openings_same = rw (same, rest.openings_same);
        recoveries_same = rw (same, rest.recoveries_same);
        keys_same = λ key. rw (same, rest.keys_same key);
      }

  pub rewrite_below :
      (n : ℕ) (rows : List Row)
      → AllBelow n rows
      → AllBelow n (rewrite_incident_row id notice renotify rows)
  unfolding rewrite_incident_row
  rewrite_below n [] h = tt
  rewrite_below n (r ∷ rs) h = (ap (is_below n) (rewrite_row-key r) ∙ h.0, rewrite_below n rs h.1)
