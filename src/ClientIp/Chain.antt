-- ===== src/ClientIp/Chain.antt =====
-- Which entry of a proxy chain is the client (app/utils/client_ip.py, `_client_from_chain`).
use justup.Prelude.{
  ◌≡◌, refl, ap, ◌∙◌, sym, ◌⊎◌, inl, inr, true, false, Option, none, some, List, [], ◌∷◌, ◌++◌,
  append_assoc, reverse, Bool-cases, arith, All, All-append,
}
use mathlib.Core.List.{reverse-append}
use mathlib.Core.List
use justup.ClientIp.Addresses.{Text, Ip}
use justup.ClientIp.Requests.{walk, trusts, client_from_chain}

module _ (ip : Ip) (nets : List (ip.Net)) where
  abbrev pub IsTrustedHop : Option Text → Type 0
  IsTrustedHop none = ⊥
  IsTrustedHop (some hop) = trusts ip nets hop ≡ true

  -- `c` stands between `left` and `right`; to its right there are trusted hops alone, and it is not
  -- trusted itself or is the leftmost entry.
  pub record IsClient (c : Text) (entries : List (Option Text)) : Type 0 where
    pub left : List (Option Text)
    pub right : List (Option Text)
    pub place : entries ≡ left ++ some c ∷ right
    pub passed : All IsTrustedHop right
    pub stops : (trusts ip nets c ≡ false) ⊎ (left ≡ [])

  -- The same of the entries in the order of the walk.
  record IsFirst (c : Text) (hops : List (Option Text)) : Type 0 where
    pub before : List (Option Text)
    pub after : List (Option Text)
    pub place : hops ≡ before ++ some c ∷ after
    pub passed : All IsTrustedHop before
    pub stops : (trusts ip nets c ≡ false) ⊎ (after ≡ [])

  walk-IsFirst :
      (c hop : Text) (hops : List (Option Text))
      → walk ip nets (some hop) hops ≡ some c
      → trusts ip nets hop ≡ true
      → IsFirst c (some hop ∷ hops)
  unfolding walk
  walk-IsFirst c hop [] e t = record {
    before = [];
    after = [];
    place = rw e;
    passed = tt;
    stops = inr refl;
  }
  walk-IsFirst c hop (none ∷ hops) e t = absurd (ground (arith, e))
  walk-IsFirst c hop (some next ∷ hops) e t = elim (Bool-cases (trusts ip nets next)) [
    | inl n ↦
        let ih = walk-IsFirst c next hops (rw n at e) n in
        record {
          before = some hop ∷ ih.before;
          after = ih.after;
          place = ap (λ xs. some hop ∷ xs) ih.place;
          passed = (t, ih.passed);
          stops = ih.stops;
        }
    | inr n ↦
        let same : some next ≡ some c = rw n at e in
        let eq : next ≡ c = cc in
        record {
          before = some hop ∷ [];
          after = hops;
          place = rw eq;
          passed = (t, tt);
          stops = inl (rw (sym eq) n);
        }
  ]

  chain-IsFirst :
      (c : Text) (hops : List (Option Text)) → walk ip nets none hops ≡ some c → IsFirst c hops
  unfolding walk
  chain-IsFirst c [] e = absurd (ground (arith, e))
  chain-IsFirst c (none ∷ hops) e = absurd (ground (arith, e))
  chain-IsFirst c (some hop ∷ hops) e = elim (Bool-cases (trusts ip nets hop)) [
    | inl n ↦ walk-IsFirst c hop hops (rw n at e) n
    | inr n ↦
        let same : some hop ≡ some c = rw n at e in
        let eq : hop ≡ c = cc in
        record {
          before = [];
          after = hops;
          place = rw eq;
          passed = tt;
          stops = inl (rw (sym eq) n);
        }
  ]

  All-reverse : (xs : List (Option Text)) → All IsTrustedHop xs → All IsTrustedHop (reverse xs)
  All-reverse [] h = tt
  All-reverse (x ∷ xs) h =
      rw (reverse-append (x ∷ []) xs)
        (All-append IsTrustedHop (reverse xs) (x ∷ []) (All-reverse xs h.1) (h.0, tt))

  -- The client that a chain gives is one of its entries, every hop to the right of it is trusted,
  -- and it is either not trusted itself or the leftmost of a chain of trusted hops.
  pub client_from_chain-IsClient :
      (c : Text) (entries : List (Option Text))
      → client_from_chain ip nets entries ≡ some c
      → IsClient c entries
  unfolding client_from_chain
  client_from_chain-IsClient c entries e =
      let f = chain-IsFirst c (reverse entries) e in
      record {
        left = reverse f.after;
        right = reverse f.before;
        place =
            sym (List.reverse-reverse entries)
            ∙ ap reverse f.place
            ∙ reverse-append f.before (some c ∷ f.after)
            ∙ rw (reverse-append (some c ∷ []) f.after)
                (append_assoc (reverse f.after) (some c ∷ []) (reverse f.before));
        passed = All-reverse f.before f.passed;
        stops = elim f.stops [ inl n ↦ inl n | inr n ↦ inr (rw n) ];
      }
