-- ===== src/ClientIp/Tests.antt =====
-- Requests through a proxy, and the theorems at them.
use justup.Prelude.{
  ℕ, ◌≡◌, refl, Bool, true, false, ◌&&◌, Option, none, some, List, [], ◌∷◌, ◌++◌, ◌==◌, leb, arith,
  if◌then◌else◌,
}
use justup.Text.{codes, strip}
use justup.ClientIp.Addresses.{Text, Ip, is_trusted, valid_ip, split_on, strip_brackets}
use justup.ClientIp.Headers.{unquote, node_ip}
use justup.ClientIp.Requests.{
  Request, join, trusts, entries_of, real_ip_of, resolve_trusted_client_ip,
}
use justup.ClientIp.Suffix.{xff_left_ignored}
use justup.ClientIp.Quotes.{open_element, forwarded_spoofed}

-- Addresses are texts of digits and dots; a network is the address it holds.
abbrev is_part : ℕ → Bool
is_part c = leb b'.' c && leb c b'9'

abbrev all_part : Text → Bool
all_part [] = true
all_part (c ∷ t) = is_part c && all_part t

abbrev read : Text → Option Text
read [] = none
read (c ∷ t) = if all_part (c ∷ t) then some (c ∷ t) else none

abbrev same : Text → Text → Bool
same [] [] = true
same [] (d ∷ t) = false
same (c ∷ s) [] = false
same (c ∷ s) (d ∷ t) = c == d && same s t

abbrev dotted : Ip
dotted = record {
  Addr = Text;
  Net = Text;
  ip_address = read;
  ip_network = read;
  str = λ a. a;
  has_addr = same;
  ipv4_mapped = λ a. none;
  is_ipv4 = λ a. true;
  network_64 = λ a. a;
}

abbrev proxies : List Text
proxies = codes "10.0.0.1" ∷ codes "10.0.0.2" ∷ []

abbrev request : List Text → List Text → Request
request xff forwarded = record {
  host = some (codes "10.0.0.1");
  forwarded_for = xff;
  real_ip = none;
  forwarded = forwarded;
  forwarded_proto = [];
  scheme = codes "http";
}

xff_left_ignored_example :
    (resolve_trusted_client_ip dotted proxies
        (request (codes "6.6.6.6" ∷ codes "1.2.3.4, 10.0.0.2" ∷ []) [])
      ≡ resolve_trusted_client_ip dotted proxies (request (codes "1.2.3.4, 10.0.0.2" ∷ []) []))
    × (resolve_trusted_client_ip dotted proxies
          (request ((codes "6.6.6.6" ++ b',' ∷ codes "1.2.3.4, 10.0.0.2") ∷ []) [])
        ≡ resolve_trusted_client_ip dotted proxies (request (codes "1.2.3.4, 10.0.0.2" ∷ []) []))
unfolding entries_of split_on join strip valid_ip strip_brackets trusts is_trusted
xff_left_ignored_example =
    xff_left_ignored dotted proxies (request [] []) (codes "6.6.6.6") (codes "6.6.6.6")
      (codes "1.2.3.4, 10.0.0.2") [] [] refl

forwarded_spoofed_example :
    resolve_trusted_client_ip dotted proxies
      (request [] (open_element (codes "6.6.6.6") ∷ codes "for=1.2.3.4" ∷ []))
    ≡ codes "6.6.6.6"
unfolding real_ip_of node_ip unquote strip valid_ip strip_brackets trusts is_trusted
forwarded_spoofed_example =
    forwarded_spoofed dotted proxies
      (request [] (open_element (codes "6.6.6.6") ∷ codes "for=1.2.3.4" ∷ [])) (codes "6.6.6.6")
      (codes "for=1.2.3.4") (codes "0.0.0.1") b'1' b'6' (codes ".6.6.6") (codes "10.0.0.1") refl
      refl refl refl refl refl (ground arith) (ground arith) refl refl
