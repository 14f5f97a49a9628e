-- ===== src/ClientIp/Addresses.antt =====
-- Addresses and trusted networks (app/utils/client_ip.py). Python's `ipaddress` is a parameter.
use justup.Prelude.{
  ℕ, Bool, true, false, ◌||◌, Option, none, some, List, [], ◌∷◌, ◌==◌, reverse, if◌then◌else◌,
}
use justup.Text.{strip}

abbrev pub Text : Type 0
Text = List ℕ

-- `ip_address` and `ip_network`, which fail on a text that they do not know, `str`, `in`,
-- `ipv4_mapped`, the class of an address, and the text of its /64 network.
pub record Ip : Type 1 where
  pub Addr : Type 0
  pub Net : Type 0
  pub ip_address : Text → Option Addr
  pub ip_network : Text → Option Net
  pub str : Addr → Text
  pub has_addr : Net → Addr → Bool
  pub ipv4_mapped : Addr → Option Addr
  pub is_ipv4 : Addr → Bool
  pub network_64 : Addr → Text

-- text.split(sep), for a separator of one character
unfoldable pub grow : ℕ → List Text → List Text
grow c [] = (c ∷ []) ∷ []
grow c (p ∷ ps) = (c ∷ p) ∷ ps

unfoldable pub split_on : ℕ → Text → List Text
unfolding grow
split_on sep [] = [] ∷ []
split_on sep (c ∷ t) = let rest = split_on sep t in if c == sep then [] ∷ rest else grow c rest

abbrev pub is_empty : Text → Bool
is_empty [] = true
is_empty (c ∷ t) = false

abbrev pub is_bracket : ℕ → Bool
is_bracket c = c == b'[' || c == b']'

unfoldable pub lstrip_brackets : Text → Text
lstrip_brackets [] = []
lstrip_brackets (c ∷ t) = let rest = lstrip_brackets t in if is_bracket c then rest else c ∷ t

unfoldable pub strip_brackets : Text → Text
unfolding lstrip_brackets
strip_brackets t = reverse (lstrip_brackets (reverse (lstrip_brackets t)))

module _ (ip : Ip) where
  unfoldable pub add_network : Option ip.Net → List ip.Net → List ip.Net
  add_network none nets = nets
  add_network (some net) nets = net ∷ nets

  unfoldable pub networks_of : List Text → List ip.Net
  unfolding add_network
  networks_of [] = []
  networks_of (part ∷ parts) =
      let nets = networks_of parts in
      let item = strip part in if is_empty item then nets else add_network (ip.ip_network item) nets

  -- An entry that is no network is ignored: no trust.
  unfoldable pub parse_networks : Text → List ip.Net
  unfolding networks_of split_on
  parse_networks raw = networks_of (split_on b',' raw)

  abbrev pub or_mapped : ip.Addr → Option ip.Addr → ip.Addr
  or_mapped addr none = addr
  or_mapped addr (some mapped) = mapped

  abbrev pub in_any : List ip.Net → ip.Addr → Bool
  in_any [] addr = false
  in_any (net ∷ nets) addr = ip.has_addr net addr || in_any nets addr

  unfoldable pub is_trusted : List ip.Net → ip.Addr → Bool
  is_trusted nets addr =
      in_any nets (if ip.is_ipv4 addr then addr else or_mapped addr (ip.ipv4_mapped addr))

  abbrev pub shown : Option ip.Addr → Option Text
  shown none = none
  shown (some addr) = some (ip.str addr)

  unfoldable pub valid_ip : Text → Option Text
  valid_ip value = shown (ip.ip_address (strip_brackets (strip value)))
