-- ===== src/Spooler/Claim/Allowed.antt =====
-- What the query of the candidates lets through, and what it leaves out (app/services/notifications/spooler.py).
use mathlib.Core.List.{Memᴰ}
use justup.Prelude.{
  sym, count_if, ◌&&◌, ℕ, zero, suc, ◌≤◌, ◌≡◌, ◌⊎◌, refl, subst, Bool, true, List, [], ◌∷◌, ltb,
  length, length-take-le, take, filter_if, arith, All, All-map, Bool-cases, inl, inr,
}
use justup.DeliveryPolicy.{channel_policy}
use justup.Spooler.{same_channel, Row}
use justup.Spooler.Claim.Openings.{IsAllowed, candidate-IsAllowed, allowed_is_candidate}
use justup.Spooler.Claim.{candidates, is_candidate, channel_rank, sort_rows, insert_row, is_before}

module _ (P : Row → Type 0) where
  All-filter_if : (p : Row → Bool) (rows : List Row) → All P rows → All P (filter_if p rows)
  All-filter_if p [] all = tt
  All-filter_if p (r ∷ rows) all = elim (Bool-cases (p r)) [
    | inl e ↦ rw e (all.0, All-filter_if p rows all.1)
    | inr e ↦ rw e (All-filter_if p rows all.1)
  ]

  All-take : (n : ℕ) (rows : List Row) → All P rows → All P (take n rows)
  All-take zero rows all = tt
  All-take (suc n) [] all = tt
  All-take (suc n) (r ∷ rows) all = (all.0, All-take n rows all.1)

  All-insert_row : (r : Row) (rows : List Row) → P r → All P rows → All P (insert_row r rows)
  unfolding insert_row
  All-insert_row r [] h all = (h, tt)
  All-insert_row r (x ∷ rows) h all = elim (Bool-cases (is_before x r)) [
    | inl e ↦ rw e (all.0, All-insert_row r rows h all.1)
    | inr e ↦ rw e (h, all)
  ]

  All-sort_rows : (rows : List Row) → All P rows → All P (sort_rows rows)
  unfolding sort_rows
  All-sort_rows [] all = tt
  All-sort_rows (r ∷ rows) all = All-insert_row r (sort_rows rows) all.0 (All-sort_rows rows all.1)

filter_if-All : (p : Row → Bool) (rows : List Row) → All (λ r. p r ≡ true) (filter_if p rows)
filter_if-All p [] = tt
filter_if-All p (r ∷ rows) = elim (Bool-cases (p r)) [
  | inl e ↦ rw e (e, filter_if-All p rows)
  | inr e ↦ rw e (filter_if-All p rows)
]

-- Sorted by the time of the next attempt
abbrev pub FromOldest : List Row → Type 0
FromOldest [] = Unit
FromOldest (r ∷ rows) = All (λ x. r.next_retry_at ≤ x.next_retry_at) rows × FromOldest rows

insert_row-FromOldest :
    (r : Row) (rows : List Row) → FromOldest rows → FromOldest (insert_row r rows)
unfolding insert_row
insert_row-FromOldest r [] h = (tt, tt)
insert_row-FromOldest r (x ∷ rows) h = elim (Bool-cases (is_before x r)) [
  | inl e ↦ rw e (
    All-insert_row (λ y. x.next_retry_at ≤ y.next_retry_at) r rows (ground (arith, e)) h.0,
    insert_row-FromOldest r rows h.1,
  )
  | inr e ↦
      let first : r.next_retry_at ≤ x.next_retry_at = ground (arith, e) in
      rw e ((first, All-map (λ y l. omega (arith, first, l)) rows h.0), h)
]

sort_rows-FromOldest : (rows : List Row) → FromOldest (sort_rows rows)
unfolding sort_rows
sort_rows-FromOldest [] = tt
sort_rows-FromOldest (r ∷ rows) =
    insert_row-FromOldest r (sort_rows rows) (sort_rows-FromOldest rows)

take-FromOldest : (n : ℕ) (rows : List Row) → FromOldest rows → FromOldest (take n rows)
take-FromOldest zero rows h = tt
take-FromOldest (suc n) [] h = tt
take-FromOldest (suc n) (r ∷ rows) h = (All-take _ n rows h.0, take-FromOldest n rows h.1)

module _ {A : Type 0} where
  filter_if-keeps :
      (p : A → Bool) (xs : List A) {x : A} → Memᴰ x xs → p x ≡ true → Memᴰ x (filter_if p xs)
  filter_if-keeps p [] m h = elim m [ ]
  filter_if-keeps p (y ∷ xs) {x} (Memᴰ.head e) h =
      let kept : p y ≡ true = subst (λ z. p z ≡ true) e h in rw kept (Memᴰ.head e)
  filter_if-keeps p (y ∷ xs) {x} (Memᴰ.tail m) h = elim (Bool-cases (p y)) [
    | inl e ↦ rw e (Memᴰ.tail (filter_if-keeps p xs m h))
    | inr e ↦ rw e (filter_if-keeps p xs m h)
  ]

  count-filter_if :
      (p q : A → Bool) (xs : List A) → count_if p (filter_if q xs) ≡ count_if (λ x. q x && p x) xs
  count-filter_if p q [] = refl
  count-filter_if p q (x ∷ xs) = ground (arith, count-filter_if p q xs)

  All-listed : {P : A → Type 0} (xs : List A) → ((x : A) → Memᴰ x xs → P x) → All P xs
  All-listed [] f = tt
  All-listed (x ∷ xs) f = (f x (Memᴰ.head refl), All-listed xs (λ y m. f y (Memᴰ.tail m)))

insert_row-first : (r : Row) (rows : List Row) → Memᴰ r (insert_row r rows)
unfolding insert_row
insert_row-first r [] = Memᴰ.head refl
insert_row-first r (x ∷ rows) = elim (Bool-cases (is_before x r)) [
  | inl e ↦ rw e (Memᴰ.tail (insert_row-first r rows))
  | inr e ↦ rw e (Memᴰ.head refl)
]

insert_row-keeps : (r : Row) (rows : List Row) {x : Row} → Memᴰ x rows → Memᴰ x (insert_row r rows)
unfolding insert_row
insert_row-keeps r [] m = elim m [ ]
insert_row-keeps r (y ∷ rows) (Memᴰ.head same) = elim (Bool-cases (is_before y r)) [
  | inl e ↦ rw e (Memᴰ.head same)
  | inr e ↦ rw e (Memᴰ.tail (Memᴰ.head same))
]
insert_row-keeps r (y ∷ rows) (Memᴰ.tail m) = elim (Bool-cases (is_before y r)) [
  | inl e ↦ rw e (Memᴰ.tail (insert_row-keeps r rows m))
  | inr e ↦ rw e (Memᴰ.tail (Memᴰ.tail m))
]

sort_rows-keeps : (rows : List Row) {x : Row} → Memᴰ x rows → Memᴰ x (sort_rows rows)
unfolding sort_rows
sort_rows-keeps [] m = elim m [ ]
sort_rows-keeps (r ∷ rows) {x} (Memᴰ.head e) =
    subst (λ y. Memᴰ y (insert_row r (sort_rows rows))) (sym e)
      (insert_row-first r (sort_rows rows))
sort_rows-keeps (r ∷ rows) (Memᴰ.tail m) =
    insert_row-keeps r (sort_rows rows) (sort_rows-keeps rows m)

-- What is cut off comes after a full list that is due at least as long.
abbrev pub IsFull : ℕ → List Row → Row → Type 0
IsFull limit listed r =
    (length listed ≡ limit) × All (λ x. x.next_retry_at ≤ r.next_retry_at) listed

All-member : (P : Row → Type 0) (rows : List Row) {r : Row} → All P rows → Memᴰ r rows → P r
All-member P [] all m = elim m [ ]
All-member P (x ∷ rows) all (Memᴰ.head e) = subst P (sym e) all.0
All-member P (x ∷ rows) all (Memᴰ.tail m) = All-member P rows all.1 m

take-or-IsFull :
    (n : ℕ) (rows : List Row) {r : Row}
    → FromOldest rows
    → Memᴰ r rows
    → Memᴰ r (take n rows) ⊎ IsFull n (take n rows) r
take-or-IsFull zero rows h m = inr (refl, tt)
take-or-IsFull (suc n) [] h m = elim m [ ]
take-or-IsFull (suc n) (x ∷ rows) h (Memᴰ.head e) = inl (Memᴰ.head e)
take-or-IsFull (suc n) (x ∷ rows) h (Memᴰ.tail m) = elim (take-or-IsFull n rows h.1 m) [
  | inl found ↦ inl (Memᴰ.tail found)
  | inr (many, older) ↦
      inr (
        omega (arith, many),
        (All-member (λ y. x.next_retry_at ≤ y.next_retry_at) rows h.0 m, older),
      )
]

-- Why a row of the queue is a candidate or not: it is listed; or it is not allowed; or the list is
-- full of rows that are due at least as long; or a batch of its channel goes before it.
abbrev pub Accounted : ℕ → ℕ → List (List ℕ) → List Row → Row → Type 0
Accounted limit now keys rows r =
    let listed = candidates limit now keys rows in
    Memᴰ r listed
    ⊎ (¬ IsAllowed now keys rows r)
    ⊎ IsFull limit listed r
    ⊎ ((channel_policy r.channel).batch_limit
        ≤ count_if
            (λ o. is_candidate now keys rows o && same_channel o.channel r.channel && is_before o r)
            rows)

candidates-Accounted :
    (limit now : ℕ) (keys : List (List ℕ)) (rows : List Row) (r : Row)
    → Memᴰ r rows
    → Accounted limit now keys rows r
unfolding candidates
candidates-Accounted limit now keys rows r m =
    let ranked = filter_if (is_candidate now keys rows) rows in
    let best = λ (x : Row). ltb (channel_rank ranked x) (channel_policy x.channel).batch_limit in
    elim (Bool-cases (is_candidate now keys rows r)) [
      | inr e ↦
          inr (inl (λ ok. absurd (ground (arith, e, allowed_is_candidate now keys rows r ok))))
      | inl e ↦
          let in_ranked = filter_if-keeps (is_candidate now keys rows) rows m e in
          elim (Bool-cases (best r)) [
            | inl q ↦
                let sorted = sort_rows (filter_if best ranked) in
                let kept =
                  sort_rows-keeps (filter_if best ranked)
                    (filter_if-keeps best ranked in_ranked q) in
                elim (take-or-IsFull limit sorted (sort_rows-FromOldest (filter_if best ranked))
                  kept) [ inl found ↦ inl found | inr full ↦ inr (inr (inl full)) ]
            | inr q ↦
                let counted =
                  count-filter_if (λ o. same_channel o.channel r.channel && is_before o r)
                    (is_candidate now keys rows) rows in
                inr (inr (inr (ground (arith, q, counted))))
          ]
    ]

-- The query gives at most `limit` candidates, those first that have been due the longest. Each of
-- them waits and its time has come, or was claimed more than ten minutes ago and is still in
-- processing; none is on a blocked path; and a message that an alert is over is no candidate while
-- an older message that the alert has begun, to the same recipient on the same channel, waits or is
-- in processing. And a row of which all this holds is left out only where the list is full of rows
-- that have been due at least as long, or where a whole batch of candidates on its channel goes
-- before it.
pub candidates-IsAllowed :
    (limit now : ℕ) (keys : List (List ℕ)) (rows : List Row)
    → (length (candidates limit now keys rows) ≤ limit)
      × FromOldest (candidates limit now keys rows)
      × All (IsAllowed now keys rows) (candidates limit now keys rows)
      × All (Accounted limit now keys rows) rows
unfolding candidates
candidates-IsAllowed limit now keys rows =
    let P = IsAllowed now keys rows in
    let ranked = filter_if (is_candidate now keys rows) rows in
    let ok : All P ranked =
      All-map (λ r h. candidate-IsAllowed now keys rows r h) ranked
        (filter_if-All (is_candidate now keys rows) rows) in
    let best = λ (r : Row). ltb (channel_rank ranked r) (channel_policy r.channel).batch_limit in
    let sorted = sort_rows (filter_if best ranked) in
    (
      length-take-le limit sorted,
      take-FromOldest limit sorted (sort_rows-FromOldest (filter_if best ranked)),
      All-take P limit sorted
          (All-sort_rows P (filter_if best ranked) (All-filter_if P best ranked ok)),
      All-listed rows (candidates-Accounted limit now keys rows),
    )
