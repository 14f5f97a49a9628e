-- ===== src/ClientIp/Suffix.antt =====
-- The walk along the chain of `X-Forwarded-For` is decided by its right end
-- (app/utils/client_ip.py, `_client_from_chain`).
use justup.Prelude.{
  ℕ, ◌≡◌, refl, ap, ◌∙◌, sym, inl, inr, Bool, true, false, not, ◌||◌, Option, none, some, List, [],
  ◌∷◌, ◌++◌, append_assoc, reverse, ◌==◌, if◌then◌else◌, Bool-cases, arith,
}
use mathlib.Core.List.{reverse-append}
use mathlib.Core.Path.{fun_ext}
use justup.Text.{strip}
use justup.ClientIp.Addresses.{Text, Ip, is_empty, is_trusted, grow, split_on}
use justup.ClientIp.Requests.{
  Request, join, walk, trusts, client_from_chain, entries_of, client_from_xff, from_headers,
  resolve_peer, peer_of, resolve_trusted_client_ip,
}

split_on-ne-nil : (sep : ℕ) (t : Text) → (p : Text) × (ps : List Text) × (split_on sep t ≡ p ∷ ps)
unfolding split_on grow
split_on-ne-nil sep [] = ([], [], refl)
split_on-ne-nil sep (c ∷ t) =
    let (p, ps, e) = split_on-ne-nil sep t in
    elim (Bool-cases (c == sep)) [
      | inl h ↦ ([], split_on sep t, rw h)
      | inr h ↦ (c ∷ p, ps, rw (h, e))
    ]

grow-append :
    (c : ℕ) (xs ys : List Text) (p : Text) (ps : List Text)
    → xs ≡ p ∷ ps
    → grow c (xs ++ ys) ≡ grow c xs ++ ys
unfolding grow
grow-append c xs ys p ps e = rw e

split_on-append :
    (sep : ℕ) (s t : Text) → split_on sep (s ++ sep ∷ t) ≡ split_on sep s ++ split_on sep t
unfolding split_on
split_on-append sep [] t = ground arith
split_on-append sep (c ∷ s) t =
    let (p, ps, e) = split_on-ne-nil sep s in
    elim (Bool-cases (c == sep)) [
      | inl h ↦ rw (h, split_on-append sep s t)
      | inr h ↦
          rw (h, split_on-append sep s t) (grow-append c (split_on sep s) (split_on sep t) p ps e)
    ]

join-append :
    (vs : List Text) (w : Text) (ws : List Text) (v : Text)
    → join ((v ∷ vs) ++ w ∷ ws) ≡ join (v ∷ vs) ++ b',' ∷ join (w ∷ ws)
unfolding join
join-append [] w ws v = refl
join-append (u ∷ vs) w ws v =
    rw (join-append vs w ws u) (sym (append_assoc v (b',' ∷ join (u ∷ vs)) (b',' ∷ join (w ∷ ws))))

module _ (ip : Ip) (nets : List (ip.Net)) where
  entries_of-append :
      (xs ys : List Text)
      → entries_of ip nets (xs ++ ys) ≡ entries_of ip nets xs ++ entries_of ip nets ys
  unfolding entries_of
  entries_of-append [] ys = refl
  entries_of-append (x ∷ xs) ys = elim (Bool-cases (is_empty (strip x))) [
    | inl h ↦ rw (h, entries_of-append xs ys)
    | inr h ↦ rw (h, entries_of-append xs ys)
  ]

  -- An entry that ends the walk: no address, or a hop that is not trusted.
  abbrev pub ends_walk : Option Text → Bool
  ends_walk none = true
  ends_walk (some hop) = not (trusts ip nets hop)

  abbrev pub decides : List (Option Text) → Bool
  decides [] = false
  decides (e ∷ es) = ends_walk e || decides es

  decides-append : (xs ys : List (Option Text)) → decides (xs ++ ys) ≡ (decides xs || decides ys)
  decides-append [] ys = refl
  decides-append (x ∷ xs) ys = ground (arith, decides-append xs ys)

  decides-reverse : (xs : List (Option Text)) → decides (reverse xs) ≡ decides xs
  decides-reverse [] = refl
  decides-reverse (x ∷ xs) =
      rw (reverse-append (x ∷ []) xs, decides-append (reverse xs) (x ∷ []), decides-reverse xs)
        (ground arith)

  walk-append :
      (candidate : Option Text) (xs ys : List (Option Text))
      → decides xs ≡ true
      → walk ip nets candidate (xs ++ ys) ≡ walk ip nets candidate xs
  unfolding walk
  walk-append candidate [] ys h = cc
  walk-append candidate (none ∷ xs) ys h = refl
  walk-append candidate (some x ∷ xs) ys h = elim (Bool-cases (trusts ip nets x)) [
    | inl e ↦ rw e (walk-append (some x) xs ys (ground arith))
    | inr e ↦ rw e
  ]

  client_from_chain-append :
      (xs ys : List (Option Text))
      → decides ys ≡ true
      → client_from_chain ip nets (xs ++ ys) ≡ client_from_chain ip nets ys
  unfolding client_from_chain
  client_from_chain-append xs ys h =
      rw (reverse-append xs ys)
        (walk-append none (reverse ys) (reverse xs) (decides-reverse ys ∙ h))

  client_from_xff-append :
      (s t : Text)
      → decides (entries_of ip nets (split_on b',' t)) ≡ true
      → client_from_xff ip nets (s ++ b',' ∷ t) ≡ client_from_xff ip nets t
  unfolding client_from_xff
  client_from_xff-append s t h =
      rw (split_on-append b',' s t, entries_of-append (split_on b',' s) (split_on b',' t))
        (client_from_chain-append (entries_of ip nets (split_on b',' s))
          (entries_of ip nets (split_on b',' t)) h)

  abbrev with_xff : List Text → Request → Request
  with_xff values r = record r { forwarded_for = values }

  from_headers_eq :
      (v w : Text) (vs ws : List Text) (r : Request) (peer : Text)
      → client_from_xff ip nets (join (v ∷ vs)) ≡ client_from_xff ip nets (join (w ∷ ws))
      → from_headers ip nets (v ∷ vs) (with_xff (v ∷ vs) r) peer
        ≡ from_headers ip nets (w ∷ ws) (with_xff (w ∷ ws) r) peer
  unfolding from_headers
  from_headers_eq v w vs ws r peer e = rw e

  resolve_eq :
      (v w : Text) (vs ws : List Text) (r : Request) (peer : Text)
      → client_from_xff ip nets (join (v ∷ vs)) ≡ client_from_xff ip nets (join (w ∷ ws))
      → resolve_peer ip nets (with_xff (v ∷ vs) r) peer
        ≡ resolve_peer ip nets (with_xff (w ∷ ws) r) peer
  unfolding resolve_peer
  resolve_eq v w vs ws r peer e =
      ap
        (λ (f : Text → Text). elim (ip.ip_address peer) [
          | none ↦ peer
          | some addr ↦ if is_trusted ip nets addr then f (ip.str addr) else ip.str addr
        ])
        (fun_ext (λ t. from_headers_eq v w vs ws r t e))

join_inline :
    (s w : Text) (ws : List Text) → join ((s ++ b',' ∷ w) ∷ ws) ≡ s ++ b',' ∷ join (w ∷ ws)
unfolding join
join_inline s w [] = refl
join_inline s w (u ∷ ws) = append_assoc s (b',' ∷ w) (b',' ∷ join (u ∷ ws))

-- What stands to the left in `X-Forwarded-For` does not count where the right end decides, which is
-- where one of its entries is no address or is not trusted: the client of the request is the same
-- with header values put in front of it, and with a text put in front of its first value.
pub xff_left_ignored :
    (ip : Ip) (nets : List (ip.Net)) (r : Request) (v s w : Text) (vs ws : List Text)
    → decides ip nets (entries_of ip nets (split_on b',' (join (w ∷ ws)))) ≡ true
    → (resolve_trusted_client_ip ip nets (record r { forwarded_for = (v ∷ vs) ++ w ∷ ws })
        ≡ resolve_trusted_client_ip ip nets (record r { forwarded_for = w ∷ ws }))
      × (resolve_trusted_client_ip ip nets (record r { forwarded_for = (s ++ b',' ∷ w) ∷ ws })
          ≡ resolve_trusted_client_ip ip nets (record r { forwarded_for = w ∷ ws }))
unfolding resolve_trusted_client_ip
xff_left_ignored ip nets r v s w vs ws h = (
  resolve_eq ip nets v w (vs ++ w ∷ ws) ws r (peer_of ip nets r.host) (
      rw (join-append vs w ws v)
        (client_from_xff-append ip nets (join (v ∷ vs)) (join (w ∷ ws)) h)),
  resolve_eq ip nets (s ++ b',' ∷ w) w ws ws r (peer_of ip nets r.host)
      (rw (join_inline s w ws) (client_from_xff-append ip nets s (join (w ∷ ws)) h)),
)
