-- ===== src/Dict.antt =====
-- Python's `dict` with string keys, in insertion order.
use justup.Prelude.{
  ℕ, ◌+◌, ◌≤◌, String, ◌≡◌, refl, Bool, true, Option, none, some, List, [], ◌∷◌, arith, max, All,
  str_eq, eq_iff, length, if◌then◌else◌,
}

abbrev pub Dict {ℓ} : Type ℓ → Type ℓ
Dict V = List (String × V)

module _ {ℓ} {V : Type ℓ} where
  -- d.get(k)
  unfoldable pub get : String → Dict V → Option V
  get k [] = none
  get k ((j, v) ∷ d) = if str_eq j k then some v else get k d

  -- d[k] = v: a new key goes to the end
  unfoldable pub put : String → V → Dict V → Dict V
  put k v [] = (k, v) ∷ []
  put k v ((j, w) ∷ d) = if str_eq j k then (j, v) ∷ d else (j, w) ∷ put k v d

  -- for k in [k for k, v in d.items() if not keep(v)]: del d[k]
  unfoldable pub retain : (V → Bool) → Dict V → Dict V
  retain keep [] = []
  retain keep ((j, v) ∷ d) = let rest = retain keep d in if keep v then (j, v) ∷ rest else rest

  -- How often a key occurs: at most once in a dict.
  unfoldable pub occurs : String → Dict V → ℕ
  occurs k [] = 0
  occurs k ((j, v) ∷ d) = (if str_eq j k then 1 else 0) + occurs k d

  pub get-nil : (k : String) → get k [] ≡ none
  unfolding get
  get-nil k = refl

  pub get-put :
      (k j : String) (v : V) (d : Dict V)
      → get j (put k v d) ≡ (if str_eq k j then some v else get j d)
  unfolding get put
  get-put k j v [] = refl
  get-put k j v ((i, w) ∷ d) = ground (arith, eq_iff k j, eq_iff i k, eq_iff i j, get-put k j v d)

  occurs-put_eq :
      (k j : String) (v : V) (d : Dict V)
      → occurs j (put k v d) ≡ (if str_eq k j then max 1 (occurs j d) else occurs j d)
  unfolding occurs put
  occurs-put_eq k j v [] = ground arith
  occurs-put_eq k j v ((i, w) ∷ d) =
      ground (arith, eq_iff k j, eq_iff i k, eq_iff i j, occurs-put_eq k j v d)

  pub occurs-put-le :
      (k j : String) (v : V) (d : Dict V) → occurs j d ≤ 1 → occurs j (put k v d) ≤ 1
  occurs-put-le k j v d h = ground (arith, occurs-put_eq k j v d)

  pub length-put :
      (k : String) (v : V) (d : Dict V)
      → length (put k v d) ≡ length d + elim (get k d) [ none ↦ 1 | some _ ↦ 0 ]
  unfolding get put
  length-put k v [] = omega arith
  length-put k v ((i, w) ∷ d) = ground (arith, length-put k v d)

  pub length-retain-le : (keep : V → Bool) (d : Dict V) → length (retain keep d) ≤ length d
  unfolding retain
  length-retain-le keep [] = omega arith
  length-retain-le keep ((j, v) ∷ d) = ground (arith, length-retain-le keep d)

  -- A dict that `retain` does not shrink has nothing to drop.
  pub retain_whole :
      (keep : V → Bool) (d : Dict V)
      → length d ≤ length (retain keep d)
      → All (λ e. keep e.1 ≡ true) d
  unfolding retain
  retain_whole keep [] h = tt
  retain_whole keep ((j, v) ∷ d) h = ground (arith, retain_whole keep d, length-retain-le keep d)

  pub occurs-retain-le :
      (k : String) (keep : V → Bool) (d : Dict V) → occurs k (retain keep d) ≤ occurs k d
  unfolding retain occurs
  occurs-retain-le k keep [] = omega arith
  occurs-retain-le k keep ((j, v) ∷ d) = ground (arith, occurs-retain-le k keep d)

  pub get_absent : (k : String) (d : Dict V) → occurs k d ≡ 0 → get k d ≡ none
  unfolding occurs get
  get_absent k [] h = refl
  get_absent k ((j, v) ∷ d) h = ground (arith, get_absent k d)

  abbrev pub kept : (V → Bool) → Option V → Option V
  kept keep none = none
  kept keep (some v) = if keep v then some v else none

  pub get-retain :
      (k : String) (keep : V → Bool) (d : Dict V)
      → occurs k d ≤ 1
      → get k (retain keep d) ≡ kept keep (get k d)
  unfolding get retain occurs
  get-retain k keep [] h = refl
  get-retain k keep ((j, v) ∷ d) h =
      ground (arith, get-retain k keep d, get_absent k (retain keep d), occurs-retain-le k keep d)

pub occurs-nil {ℓ} : (V : Type ℓ) (k : String) → occurs {V = V} k [] ≡ 0
unfolding occurs
occurs-nil V k = refl
