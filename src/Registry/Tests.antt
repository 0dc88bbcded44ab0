-- ===== src/Registry/Tests.antt =====
-- Runs of the registry, and its theorems at concrete inputs.
use my_websocket_net.Prelude.Text.{Text, text, same_text, same_text_iff, text_eq, text_ltb}
use my_websocket_net.Prelude.Decimal.{parse_unsigned}
use my_websocket_net.Routing.Router.{strip_prefix, split_once}
use my_websocket_net.Prelude.{
  ℕ, ◌↔◌, ◌==◌, Option, none, ◌≡◌, ◌≢◌, refl, true, false, some, List, [], ◌∷◌, arith,
}
use my_websocket_net.Prelude.Map
use my_websocket_net.Prelude.Result.{ok}
use my_websocket_net.Routing.Destination.{tcp, is_slug}
use my_websocket_net.Prelude.Sorting.{Any, Sorted, sort_by, place}
use my_websocket_net.Routing.Acl.{
  Networks, AclTable, connect_service, check, check_rules, matches, is_allowed,
}
use my_websocket_net.Registry.Listing.{
  descriptor, comes_before, discoverable, visible_of, visible_on, list_visible, peer_list,
}
use my_websocket_net.Registry.Visible.{Shows, list_visible_iff}
use my_websocket_net.Registry.{
  ServiceLease, parse_target, split_target, rsplit_once, read_port, NodeLease, Registry, new, owns,
  register_ready, publish, publish_on, lookup,
}
use my_websocket_net.Registry.Ownership.{
  Call, registers, unregisters, publishes, withdraws, run, lease_survives,
}
use my_websocket_net.Registry.Revisions.{Revised, publish-lookup}

abbrev lease : NodeLease
lease = record { session_id = 2; epoch = 20; services = [] }

abbrev hub : Registry
hub = record { hub_id = (text "hub"); nodes = (text "alice", lease) ∷ []; revision = 2 }

abbrev late_calls : List Call
late_calls =
    unregisters (text "alice") 1 10
    ∷ publishes (text "alice") 1 10 (text "web") tcp (text "localhost:80")
    ∷ registers (text "bob") 3 30
    ∷ withdraws (text "alice") 2 10 (text "web")
    ∷ []

reconnects :
    register_ready (register_ready (new (text "hub")) (text "alice") 1 10).1 (text "alice") 2 20
    ≡ (true, hub)
unfolding register_ready Map.lookup Map.insert same_text
reconnects = refl

accepts : (publish hub (text "alice") 2 20 (text "web") tcp (text "localhost:80")).0 ≡ some (ok 1)
unfolding publish publish_on owns Map.lookup same_text is_slug parse_target split_target rsplit_once
    read_port parse_unsigned strip_prefix
accepts = refl

changes_the_revision :
    (publish
      (publish hub (text "alice") 2 20 (text "web") tcp (text "localhost:80")).1
      (text "alice")
      2
      20
      (text "web")
      tcp
      (text "localhost:81")).0
    ≡ some (ok 2)
unfolding publish publish_on owns Map.lookup Map.insert same_text is_slug parse_target split_target
    rsplit_once read_port parse_unsigned strip_prefix
changes_the_revision = refl

late_is_stale : owns hub (text "alice") 1 10 ≡ false
unfolding owns Map.lookup same_text
late_is_stale = refl

finds_alice : Map.lookup (text "alice") hub.nodes ≡ some lease
unfolding Map.lookup same_text
finds_alice = refl

bob_is_another : ◌≢◌ {A = Text} (text "bob") (text "alice")
bob_is_another same = absurd (ground (arith, (same_text_iff (text "bob") (text "alice")).1 same))

lease_survives_example : Map.lookup (text "alice") (run hub late_calls).nodes ≡ some lease
lease_survives_example =
    lease_survives hub (text "alice") 2 20 lease late_calls finds_alice refl refl (
      λ n s e. ground (arith, s),
      (λ n s e. ground (arith, s), (bob_is_another, (λ n s e. ground (arith, e), tt))),
    )

publish-lookup_example :
    let r' = (publish hub (text "alice") 2 20 (text "web") tcp (text "localhost:80")).1 in
    (lookup r' (text "alice") (text "web")
      ≡ some (record {
        hub_id = (text "hub");
        node_id = (text "alice");
        service_name = (text "web");
        proto = tcp;
        revision = 1;
        target = (text "localhost:80");
        session_id = 2;
        epoch = 20;
      }))
    × Revised (lookup hub (text "alice") (text "web")) (text "localhost:80") tcp 1
    × (owns r' (text "alice") 2 20 ≡ true)
    × (r'.revision ≡ 3)
publish-lookup_example =
    publish-lookup hub (text "alice") 2 20 (text "web") tcp (text "localhost:80") 1 accepts

targets :
    ◌≡◌ {A = List (Option (Text × ℕ))}
      (parse_target (text "localhost:80")
        ∷ parse_target (text "[::1]:443")
        ∷ parse_target (text "[::1]")
        ∷ parse_target (text ":80")
        ∷ parse_target (text "host:0")
        ∷ parse_target (text "host:65536")
        ∷ [])
      (some (text "localhost", 80) ∷ some (text "::1", 443) ∷ none ∷ none ∷ none ∷ none ∷ [])
unfolding parse_target split_target rsplit_once split_once read_port parse_unsigned strip_prefix
targets = refl

abbrev one_network : Networks
one_network = record {
  IpNet = ℕ;
  IpAddr = ℕ;
  parse_net = λ s. none;
  net_contains = λ net ip. net == ip;
}

abbrev bob_may_web : AclTable one_network
bob_may_web = record {
  rules =
      record {
        rule = record {
          caller = text "bob";
          action = connect_service;
          allow = true;
          node = some (text "alice");
          service = some (text "web");
          host_cidr = none;
          ports = none;
          proto = none;
        };
        net = none;
      }
      ∷ [];
}

abbrev service : Text → ServiceLease
service name = record {
  hub_id = text "hub";
  node_id = text "alice";
  service_name = name;
  proto = tcp;
  revision = 1;
  target = text "localhost:80";
  session_id = 2;
  epoch = 20;
}

abbrev two_services : Registry
two_services = record hub {
  nodes =
      (
        text "alice",
        record lease {
          services = (text "web", service (text "web")) ∷ (text "db", service (text "db")) ∷ [];
        },
      )
      ∷ [];
}

shows_the_web :
    list_visible one_network two_services (text "bob") bob_may_web
    ≡ descriptor (service (text "web")) ∷ []
unfolding list_visible visible_on visible_of discoverable is_allowed check check_rules matches
    same_text sort_by place text_ltb
shows_the_web = refl

list_visible_iff_example :
    (Any
        (λ shown. shown ≡ descriptor (service (text "web")))
        (list_visible one_network two_services (text "bob") bob_may_web)
      ↔ Any
          (λ entry.
            Shows one_network
              (text "bob")
              bob_may_web
              (λ shown. shown ≡ descriptor (service (text "web")))
              entry.1.services)
          two_services.nodes)
    × (Any
          (λ node. Any (λ shown. shown ≡ descriptor (service (text "web"))) node.services)
          (peer_list one_network two_services (text "bob") bob_may_web).nodes
        ↔ Any
            (λ entry.
              Shows one_network
                (text "bob")
                bob_may_web
                (λ shown. shown ≡ descriptor (service (text "web")))
                entry.1.services)
            two_services.nodes)
    × Sorted comes_before (list_visible one_network two_services (text "bob") bob_may_web)
list_visible_iff_example =
    list_visible_iff one_network two_services (text "bob") bob_may_web
      (descriptor (service (text "web")))
