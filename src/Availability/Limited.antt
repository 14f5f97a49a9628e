-- ===== src/Availability/Limited.antt =====
-- The result of `_limit_availability_points` (app/db/tsdb.py): few enough points, in their order.
use justup.Prelude.{
  ℕ, ◌-◌, ◌≤◌, ◌≡◌, refl, max, Option, some, List, [], ◌∷◌, leb, length, arith, leb→le, Bool-cases,
  inl, inr,
}
use justup.Availability.{Observed, get_elem?, kept_indices, limit_availability_points, pick}
use justup.Availability.Indices.{Contains, Sublist, pick-Contains, pick-Sublist}
use justup.Availability.Kept.{kept_indices-Indices, kept_indices-last, length-kept_indices}

-- What the result is, for a limit of at least one
pub record IsLimited (points : List Observed) (budget : ℕ) (result : Option (List Observed))
    : Type 0 where
  pub shown : List Observed
  pub answered : result ≡ some shown
  pub within : length shown ≤ budget
  pub ordered : Sublist shown points
  pub newest : (p : Observed) → get_elem? points (length points - 1) ≡ some p → Contains p shown

Sublist-refl : (ps : List Observed) → Sublist ps ps
Sublist-refl [] = Sublist.empty
Sublist-refl (p ∷ ps) = Sublist.take p ps ps (Sublist-refl ps)

all-IsLimited :
    (points : List Observed) (budget : ℕ)
    → length points ≤ budget
    → IsLimited points budget (some points)
all-IsLimited points budget h = record {
  shown = points;
  answered = refl;
  within = h;
  ordered = Sublist-refl points;
  newest = λ p e. (length points - 1, e);
}

picked-IsLimited :
    (points : List Observed) (budget : ℕ)
    → 1 ≤ budget
    → 1 ≤ length points
    → IsLimited points budget (pick points (kept_indices budget points))
picked-IsLimited points budget h n =
    let is = kept_indices budget points in
    let (shown, answered, ordered, same) =
      pick-Sublist 0 points is (kept_indices-Indices budget points n) in
    record {
      shown = shown;
      answered = answered;
      within = omega (arith, same, length-kept_indices budget points h);
      ordered = ordered;
      newest = λ p e.
          pick-Contains points is shown (length points - 1) p answered
            (kept_indices-last budget points h n) e;
    }

-- The points that are shown are among the points and in their order, no index is out of range, there are
-- at most as many as the limit, which counts as one where it is zero, and the newest point is among them.
pub limit_availability_points-IsLimited :
    (points : List Observed) (limit : ℕ)
    → IsLimited points (max limit 1) (limit_availability_points points limit)
unfolding limit_availability_points
limit_availability_points-IsLimited points limit =
    elim (Bool-cases (leb (length points) (max limit 1))) [
      | inl few ↦ rw few (all-IsLimited points (max limit 1) (leb→le _ _ few))
      | inr many ↦
          rw many (picked-IsLimited points (max limit 1) (omega arith) (ground (arith, many)))
    ]
