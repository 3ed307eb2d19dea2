-- ===== src/Address/Tests.antt =====
-- src/address.c at concrete addresses and names.
use sniproxy.Prelude.{◌≡◌, ◌↔◌, refl, Bool, true, false, some, codes, pos, is_negative, is_positive}
use sniproxy.Address.{Address, hostname, valid_hostname}
use sniproxy.Address.Hostname.{IsHostname, valid_hostname-IsHostname}
use sniproxy.Address.Total.{compare, address_compare_order}

abbrev on_port_80 : Address
on_port_80 = record { kind = hostname; bytes = codes "a.example"; port = 80 }

abbrev on_port_81 : Address
on_port_81 = record { kind = hostname; bytes = codes "a.example"; port = 81 }

abbrev on_port_82 : Address
on_port_82 = record { kind = hostname; bytes = codes "a.example"; port = 82 }

address_compare_order_example :
    ((compare on_port_80 on_port_81 ≡ pos 0) ↔ (on_port_80 ≡ on_port_81))
    × (is_negative (compare on_port_81 on_port_80) ≡ is_positive (compare on_port_80 on_port_81))
    × (is_negative (compare on_port_80 on_port_81) ≡ true
        → is_negative (compare on_port_81 on_port_82) ≡ true
        → is_negative (compare on_port_80 on_port_82) ≡ true)
address_compare_order_example = address_compare_order on_port_80 on_port_81 on_port_82

valid_hostname-IsHostname_example :
    ((answer : Bool) × (valid_hostname (some (codes "a.example")) ≡ some answer))
    × ((valid_hostname (some (codes "a.example")) ≡ some true) ↔ IsHostname (codes "a.example"))
valid_hostname-IsHostname_example = valid_hostname-IsHostname (codes "a.example")

run_trailing_dot : valid_hostname (some (codes "a.example.")) ≡ some true
unfolding valid_hostname
run_trailing_dot = refl

run_empty_label : valid_hostname (some (codes "a..example")) ≡ some false
unfolding valid_hostname
run_empty_label = refl

run_hyphen : valid_hostname (some (codes "-a.example")) ≡ some false
unfolding valid_hostname
run_hyphen = refl
