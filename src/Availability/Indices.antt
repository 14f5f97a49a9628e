-- ===== src/Availability/Indices.antt =====
-- Sets of indices, and the points at them (app/db/tsdb.py, `_limit_availability_points`).
use justup.Prelude.{
  ℕ, zero, suc, ◌+◌, ◌-◌, ◌≤◌, ◌<◌, ◌≡◌, refl, sym, ap, subst, Bool, true, false, ◌||◌, Option,
  none, some, List, [], ◌∷◌, ◌==◌, length, drop, arith, Bool-cases, inl, inr,
}
use justup.Availability.{Observed, add, add_range, get_elem?, cons_if, pick}

abbrev pub member : ℕ → List ℕ → Bool
member i [] = false
member i (j ∷ js) = i == j || member i js

-- Ascending, from `lo` on and below `n`
abbrev pub Indices : ℕ → ℕ → List ℕ → Type 0
Indices lo n [] = Unit
Indices lo n (i ∷ is) = (lo ≤ i) × (i < n) × Indices (suc i) n is

Indices-le : (lo lo' n : ℕ) (is : List ℕ) → lo ≤ lo' → Indices lo' n is → Indices lo n is
Indices-le lo lo' n [] h a = tt
Indices-le lo lo' n (i ∷ is) h a = (omega (arith, h, a.0), a.1, a.2)

add-Indices :
    (i lo n : ℕ) (is : List ℕ) → lo ≤ i → i < n → Indices lo n is → Indices lo n (add i is)
unfolding add
add-Indices i lo n [] l h a = (l, h, tt)
add-Indices i lo n (j ∷ js) l h a = ground (arith, l, h, a, add-Indices i (suc j) n js)

length-add : (i : ℕ) (is : List ℕ) → length (add i is) ≤ suc (length is)
unfolding add
length-add i [] = omega arith
length-add i (j ∷ js) = ground (arith, length-add i js)

member-add : (i k : ℕ) (is : List ℕ) → member k (add i is) ≡ (k == i || member k is)
unfolding add
member-add i k [] = refl
member-add i k (j ∷ js) = ground (arith, member-add i k js)

pub add_range-Indices :
    (lo m n : ℕ) (is : List ℕ) → m ≤ n - lo → Indices 0 n is → Indices 0 n (add_range lo m is)
unfolding add_range
add_range-Indices lo zero n is h a = a
add_range-Indices lo (suc m) n is h a =
    add_range-Indices (suc lo) m n (add lo is) (omega (arith, h))
      (add-Indices lo 0 n is (omega arith) (omega (arith, h)) a)

pub length-add_range : (lo m : ℕ) (is : List ℕ) → length (add_range lo m is) ≤ m + length is
unfolding add_range
length-add_range lo zero is = omega arith
length-add_range lo (suc m) is =
    omega (arith, length-add_range (suc lo) m (add lo is), length-add lo is)

pub member-add_range-old :
    (lo m k : ℕ) (is : List ℕ) → member k is ≡ true → member k (add_range lo m is) ≡ true
unfolding add_range
member-add_range-old lo zero k is h = h
member-add_range-old lo (suc m) k is h =
    member-add_range-old (suc lo) m k (add lo is) (ground (arith, member-add lo k is, h))

pub member-add_range :
    (lo m k : ℕ) (is : List ℕ) → lo ≤ k → k < lo + m → member k (add_range lo m is) ≡ true
unfolding add_range
member-add_range lo zero k is l h = ground arith
member-add_range lo (suc m) k is l h = elim (Bool-cases (k == lo)) [
  | inl e ↦ member-add_range-old (suc lo) m k (add lo is) (ground (arith, member-add lo k is, e))
  | inr d ↦ member-add_range (suc lo) m k (add lo is) (ground arith) (omega (arith, h))
]

-- A part of a list that keeps its order
pub data Sublist : List Observed → List Observed → Type 0 where
  empty : Sublist [] []
  skip : (p : Observed) (qs ps : List Observed) → Sublist qs ps → Sublist qs (p ∷ ps)
  take : (p : Observed) (qs ps : List Observed) → Sublist qs ps → Sublist (p ∷ qs) (p ∷ ps)

get_elem?-below :
    (ps : List Observed) (i : ℕ) → i < length ps → (p : Observed) × (get_elem? ps i ≡ some p)
unfolding get_elem?
get_elem?-below [] i h = ground (arith, h)
get_elem?-below (p ∷ ps) zero h = (p, refl)
get_elem?-below (p ∷ ps) (suc i) h = get_elem?-below ps i (omega (arith, h))

drop-get_elem? :
    (ps : List Observed) (i : ℕ) (p : Observed)
    → get_elem? ps i ≡ some p
    → drop i ps ≡ p ∷ drop (suc i) ps
unfolding get_elem?
drop-get_elem? [] i p e = ground (arith, e)
drop-get_elem? (q ∷ ps) zero p e = ground (arith, e)
drop-get_elem? (q ∷ ps) (suc i) p e = drop-get_elem? ps i p e

Sublist-nil : (ps : List Observed) → Sublist [] ps
Sublist-nil [] = empty
Sublist-nil (p ∷ ps) = skip p [] ps (Sublist-nil ps)

Sublist-drop :
    (lo i : ℕ) (qs ps : List Observed) → lo ≤ i → Sublist qs (drop i ps) → Sublist qs (drop lo ps)
Sublist-drop zero zero qs ps h s = s
Sublist-drop (suc lo) zero qs ps h s = ground (arith, h)
Sublist-drop zero (suc i) qs [] h s = s
Sublist-drop (suc lo) (suc i) qs [] h s = s
Sublist-drop zero (suc i) qs (p ∷ ps) h s = skip p qs ps (Sublist-drop zero i qs ps (omega arith) s)
Sublist-drop (suc lo) (suc i) qs (p ∷ ps) h s = Sublist-drop lo i qs ps (omega (arith, h)) s

-- The points at indices of the list are there, one for each index, in the order of the list.
pub pick-Sublist :
    (lo : ℕ) (ps : List Observed) (is : List ℕ)
    → Indices lo (length ps) is
    → (qs : List Observed) × (pick ps is ≡ some qs)
      × Sublist qs (drop lo ps)
      × (length qs ≡ length is)
unfolding pick
pick-Sublist lo ps [] h = ([], refl, Sublist-nil (drop lo ps), refl)
pick-Sublist lo ps (i ∷ is) h =
    let (p, e) = get_elem?-below ps i (h.1) in
    let (qs, picked, sub, same) = pick-Sublist (suc i) ps is (h.2) in
    (
      p ∷ qs,
      rw (e, picked) refl,
      Sublist-drop lo i (p ∷ qs) ps (h.0) (
          subst (Sublist (p ∷ qs)) (sym (drop-get_elem? ps i p e))
            (take p qs (drop (suc i) ps) sub)),
      ap suc same,
    )

abbrev pub Contains : Observed → List Observed → Type 0
Contains p qs = (n : ℕ) × (get_elem? qs n ≡ some p)

cons_if-some :
    (a : Option Observed) (b : Option (List Observed)) (qs : List Observed)
    → cons_if a b ≡ some qs
    → (x : Observed) × (ys : List Observed) × (a ≡ some x) × (b ≡ some ys) × (x ∷ ys ≡ qs)
cons_if-some none b qs e = ground (arith, e)
cons_if-some (some x) none qs e = ground (arith, e)
cons_if-some (some x) (some ys) qs e = (x, ys, refl, refl, ground (arith, e))

pub pick-Contains :
    (ps : List Observed) (is : List ℕ) (qs : List Observed) (i : ℕ) (p : Observed)
    → pick ps is ≡ some qs
    → member i is ≡ true
    → get_elem? ps i ≡ some p
    → Contains p qs
unfolding pick get_elem?
pick-Contains ps [] qs i p e m g = ground (arith, m)
pick-Contains ps (j ∷ js) qs i p e m g =
    let (x, ys, found, rest, whole) = cons_if-some (get_elem? ps j) (pick ps js) qs e in
    elim (Bool-cases (i == j)) [
      | inl same ↦ subst (Contains p) whole (0, ground (arith, same, found, g))
      | inr other ↦
          let (n, at) = pick-Contains ps js ys i p rest (ground (arith, m, other)) g in
          subst (Contains p) whole (suc n, at)
    ]
