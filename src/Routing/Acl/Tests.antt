-- ===== src/Routing/Acl/Tests.antt =====
-- Runs of the access list, and its theorems at concrete inputs. Networks are those below an address.
use my_websocket_net.Prelude.Text.{text, same_text}
use my_websocket_net.Prelude.{ℕ, ◌≡◌, ◌↔◌, refl, true, false, none, some, [], ◌∷◌, ltb}
use my_websocket_net.Prelude.Result.{ok}
use my_websocket_net.Routing.Destination.{tcp}
use my_websocket_net.Routing.Acl.{
  Networks, AclRule, AclQuery, AclTable, connect_address, new, check, check_rules, compile_all,
  matches, has_port, allowed, denied,
}
use my_websocket_net.Routing.Acl.FirstMatch.{FirstAllows, allowed_iff}

abbrev below : Networks
below = record {
  IpNet = ℕ;
  IpAddr = ℕ;
  parse_net = λ text. some 100;
  net_contains = λ net ip. ltb ip net;
}

abbrev not_port_22 : AclRule
not_port_22 = record {
  caller = (text "alice");
  action = connect_address;
  allow = false;
  node = none;
  service = none;
  host_cidr = none;
  ports = some (22 ∷ []);
  proto = none;
}

abbrev inside : AclRule
inside = record not_port_22 { allow = true; host_cidr = some (text "10.0.0.0/8"); ports = none }

abbrev table : AclTable below
table = record {
  rules = record { rule = not_port_22; net = none } ∷ record { rule = inside; net = some 100 } ∷ [];
}

abbrev asks : ℕ → ℕ → AclQuery below
asks ip port = record {
  caller = (text "alice");
  action = connect_address;
  node = none;
  service = none;
  ip = some ip;
  port = some port;
  proto = tcp;
}

compiles : new below (not_port_22 ∷ inside ∷ []) ≡ ok table
unfolding new compile_all
compiles = refl

allows_80 : check below table (asks 7 80) ≡ allowed
unfolding check check_rules matches has_port same_text
allows_80 = refl

denies_22 : check below table (asks 7 22) ≡ denied
unfolding check check_rules matches has_port same_text
denies_22 = refl

denies_outside : check below table (asks 700 80) ≡ denied
unfolding check check_rules matches has_port same_text
denies_outside = refl

allowed_iff_example :
    (check below table (asks 7 80) ≡ allowed)
    ↔ FirstAllows below (not_port_22 ∷ inside ∷ []) (asks 7 80)
allowed_iff_example = allowed_iff below (not_port_22 ∷ inside ∷ []) table (asks 7 80) compiles
