-- ===== src/Routing/Router/Tests.antt =====
-- Runs of the router, and its theorems at concrete inputs. A network is a list of addresses, written as
-- one byte each.
use my_websocket_net.Prelude.{
  ℕ, ◌≡◌, ◌≤◌, ◌↔◌, refl, Bool, true, false, ◌||◌, Option, none, some, [], ◌∷◌, ◌==◌, length, All,
}
use my_websocket_net.Prelude.Text.{Text, text, same_text}
use my_websocket_net.Prelude.Result.{ok, err}
use my_websocket_net.Limits.{max_chain_hops}
use my_websocket_net.Routing.Destination.{Destination, is_slug, named_node}
use my_websocket_net.Routing.Router.{
  Addresses, Router, RouteRule, RouterTable, direct, domain_suffix, service, cidr, parse, matches,
  new, compile_all, parse_all, any_matches, decide_from, decide, ends_with, to_ascii_lowercase,
  duplicate_hop, self_loop, destination_in_path, invalid_pattern, check_hops, contains,
  check_repeats, check_publisher, validate_chain,
}
use my_websocket_net.Routing.Router.Decision.{FirstMatch, decide-FirstMatch}
use my_websocket_net.Routing.Router.Chain.{Distinct, NotNamed, validate_chain_iff}

abbrev one_byte : Text → Option ℕ
one_byte (b ∷ []) = some b
one_byte _ = none

abbrev has_byte : Text → ℕ → Bool
has_byte [] ip = false
has_byte (b ∷ net) ip = b == ip || has_byte net ip

abbrev bytes : Addresses
bytes = record {
  IpNet = Text;
  IpAddr = ℕ;
  parse_net = λ value. some value;
  parse_ip = one_byte;
  net_contains = has_byte;
}

abbrev suffix_rule : RouteRule
suffix_rule = record { matchers = text "domain:*.Example.com" ∷ []; via = text "a" ∷ [] }

abbrev service_rule : RouteRule
service_rule = record {
  matchers = text "service:n/*" ∷ text "cidr:xyz" ∷ [];
  via = text "b" ∷ text "c" ∷ [];
}

abbrev router : Router
router = record { final_route = direct; rules = suffix_rule ∷ service_rule ∷ [] }

abbrev table : RouterTable bytes
table = record {
  final_route = direct;
  rules =
      (domain_suffix (text "example.com") ∷ [], suffix_rule)
      ∷ (service (text "n") (text "*") ∷ cidr (text "xyz") ∷ [], service_rule)
      ∷ [];
}

compiles : new bytes router ≡ ok table
unfolding new compile_all parse_all parse same_text is_slug
compiles = refl

rejects_a_bare_suffix : parse bytes (text "domain:*.") ≡ err (invalid_pattern (text "domain:*."))
unfolding parse same_text
rejects_a_bare_suffix = refl

-- The suffix matches on a label boundary only, in either case.
suffix_matches :
    (decide bytes table (Destination.address (text "WWW.example.COM") 80)).via ≡ text "a" ∷ []
unfolding decide decide_from any_matches matches same_text ends_with to_ascii_lowercase
suffix_matches = refl

suffix_boundary : (decide bytes table (Destination.address (text "notexample.com") 80)).via ≡ []
unfolding decide decide_from any_matches matches same_text ends_with to_ascii_lowercase
suffix_boundary = refl

decide-FirstMatch_example :
    FirstMatch bytes router.rules
      (Destination.address (text "y") 80)
      (decide bytes table (Destination.address (text "y") 80)).via
    × ((decide bytes table (Destination.address (text "y") 80)).exit ≡ direct)
decide-FirstMatch_example =
    decide-FirstMatch bytes router table (Destination.address (text "y") 80) compiles

loops_back :
    validate_chain (text "me") (text "a" ∷ text "me" ∷ []) (Destination.address (text "h") 1)
    ≡ err (self_loop (text "me"))
unfolding validate_chain check_hops same_text is_slug
loops_back = refl

repeats :
    validate_chain (text "me") (text "a" ∷ text "a" ∷ []) (Destination.address (text "h") 1)
    ≡ err (duplicate_hop (text "a"))
unfolding validate_chain check_hops check_repeats contains same_text is_slug
repeats = refl

names_the_publisher :
    validate_chain (text "me") (text "a" ∷ []) (Destination.service (text "a") (text "web") none)
    ≡ err (destination_in_path (text "a"))
unfolding validate_chain check_hops check_repeats check_publisher contains same_text is_slug
    named_node
names_the_publisher = refl

validate_chain_iff_example :
    (validate_chain (text "me") (text "a" ∷ []) (Destination.address (text "h") 1) ≡ ok tt) ↔ (
      (length (text "a" ∷ []) ≤ max_chain_hops)
      × All (λ hop. is_slug hop ≡ true) (text "a" ∷ [])
      × Distinct (text "me" ∷ text "a" ∷ [])
      × NotNamed (named_node (Destination.address (text "h") 1)) (text "a" ∷ []))
validate_chain_iff_example =
    validate_chain_iff (text "me") (text "a" ∷ []) (Destination.address (text "h") 1)
