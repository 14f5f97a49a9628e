-- ===== src/ClientIp/Requests.antt =====
-- The client of a request (app/utils/client_ip.py): the walk along the proxy chain, and which header is
-- read when.
use justup.Prelude.{Bool, false, Option, none, some, List, [], ◌∷◌, ◌++◌, reverse, if◌then◌else◌}
use justup.Text.{codes, strip, lower, same_text}
use justup.ClientIp.Addresses.{Text, Ip, is_empty, split_on, is_trusted, valid_ip}
use justup.ClientIp.Headers.{forwarded_for_entries}

-- What of a request is read: the peer's address, the values of its headers, and the URL's scheme.
pub record Request : Type 0 where
  pub host : Option Text
  pub forwarded_for : List Text
  pub real_ip : Option Text
  pub forwarded : List Text
  pub forwarded_proto : List Text
  pub scheme : Text

-- ",".join(values)
unfoldable pub join : List Text → Text
join [] = []
join (v ∷ []) = v
join (v ∷ w ∷ vs) = v ++ b',' ∷ join (w ∷ vs)

abbrev pub or_else : Option Text → Text → Text
or_else none t = t
or_else (some []) t = t
or_else (some (c ∷ s)) t = c ∷ s

unfoldable pub last_part : Text → List Text → Text
last_part p [] = p
last_part p (q ∷ qs) = last_part q qs

module _ (ip : Ip) (nets : List (ip.Net)) where
  -- The entries of a chain are texts that `ip_address` has read, so it knows them.
  unfoldable pub trusts : Text → Bool
  trusts candidate = elim (ip.ip_address candidate) [
    | none ↦ false
    | some addr ↦ is_trusted ip nets addr
  ]

  unfoldable pub walk : Option Text → List (Option Text) → Option Text
  unfolding trusts
  walk candidate [] = candidate
  walk candidate (none ∷ hops) = none
  walk candidate (some hop ∷ hops) =
      let rest = walk (some hop) hops in if trusts hop then rest else some hop

  unfoldable pub client_from_chain : List (Option Text) → Option Text
  unfolding walk
  client_from_chain entries = walk none (reverse entries)

  unfoldable pub entries_of : List Text → List (Option Text)
  entries_of [] = []
  entries_of (part ∷ parts) =
      let rest = entries_of parts in if is_empty (strip part) then rest else valid_ip ip part ∷ rest

  unfoldable pub client_from_xff : Text → Option Text
  unfolding client_from_chain entries_of
  client_from_xff header = client_from_chain (entries_of (split_on b',' header))

  unfoldable pub from_forwarded : List Text → Text → Text
  unfolding client_from_chain
  from_forwarded [] peer = peer
  from_forwarded (v ∷ vs) peer =
      or_else (client_from_chain (forwarded_for_entries ip (join (v ∷ vs)))) peer

  unfoldable pub real_ip_of : Option Text → Option Text
  real_ip_of none = none
  real_ip_of (some t) = if is_empty t then none else valid_ip ip t

  unfoldable pub from_headers : List Text → Request → Text → Text
  unfolding client_from_xff from_forwarded real_ip_of
  from_headers (v ∷ vs) r peer = or_else (client_from_xff (join (v ∷ vs))) peer
  from_headers [] r peer = elim (real_ip_of r.real_ip) [
    | some candidate ↦ or_else (some candidate) (from_forwarded r.forwarded peer)
    | none ↦ from_forwarded r.forwarded peer
  ]

  unfoldable pub resolve_peer : Request → Text → Text
  unfolding from_headers
  resolve_peer r peer = elim (ip.ip_address peer) [
    | none ↦ peer
    | some addr ↦
        if is_trusted ip nets addr
        then from_headers r.forwarded_for r (ip.str addr)
        else ip.str addr
  ]

  abbrev pub peer_of : Option Text → Text
  peer_of host = or_else host (codes "unknown")

  unfoldable pub resolve_trusted_client_ip : Request → Text
  unfolding resolve_peer
  resolve_trusted_client_ip r = resolve_peer r (peer_of r.host)

  unfoldable pub audit_client_ip : Request → Text
  audit_client_ip r = or_else (valid_ip ip (resolve_trusted_client_ip r)) (codes "unknown")

  unfoldable pub bucket_of : Option (ip.Addr) → Text → Text
  bucket_of none value = value
  bucket_of (some addr) value =
      if ip.is_ipv4 addr
      then ip.str addr
      else elim (ip.ipv4_mapped addr) [ none ↦ ip.network_64 addr | some mapped ↦ ip.str mapped ]

  unfoldable pub normalize_ip_bucket : Text → Text
  unfolding bucket_of
  normalize_ip_bucket value = bucket_of (ip.ip_address value) value

  unfoldable pub trusts_peer : Option Text → Bool
  unfolding trusts
  trusts_peer host = trusts (or_else host [])

  unfoldable pub proto_of : List Text → Text
  unfolding last_part
  proto_of values = lower (strip (last_part [] (split_on b',' (join values))))

  unfoldable pub request_is_https : Request → Bool
  unfolding trusts_peer proto_of
  request_is_https r =
      let proto = proto_of r.forwarded_proto in
      if trusts_peer r.host
      then if is_empty proto
        then same_text r.scheme (codes "https")
        else same_text proto (codes "https")
      else same_text r.scheme (codes "https")
