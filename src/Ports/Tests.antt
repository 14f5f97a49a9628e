-- ===== src/Ports/Tests.antt =====
-- Port lists, and the theorems at them.
use justup.Prelude.{◌≡◌, refl, none, some, [], ◌∷◌}
use justup.Text.{codes, strip}
use justup.Ports.{words, parse_port_list, join_ports, normalize_ports, stored_tcp_ports}
use justup.Ports.Stored.{stored_ports_checked}

out_of_range : parse_port_list (words (codes "80, 65536")) ≡ none
unfolding parse_port_list strip
out_of_range = refl

stored_ports_checked_example :
    (normalize_ports (words (codes "443, 80 80")) none ≡ some (some (join_ports (80 ∷ 443 ∷ []))))
    × (stored_tcp_ports (words (join_ports (80 ∷ 443 ∷ []))) ≡ 80 ∷ 443 ∷ [])
unfolding parse_port_list strip
stored_ports_checked_example =
    stored_ports_checked (words (codes "443, 80 80")) none 80 (443 ∷ []) refl
