-- ===== src/Registry/Listing.antt =====
-- crates/wsnet-registry/src/lib.rs: what a caller may discover. A map of the registry is listed in the
-- order of its keys.
use my_websocket_net.Prelude.{ℕ, Bool, ◌||◌, ◌&&◌, none, some, List, [], ◌∷◌, ◌++◌, if◌then◌else◌}
use my_websocket_net.Prelude.Text.{Text, text_ltb, same_text}
use my_websocket_net.Prelude.Map.{Map}
use my_websocket_net.Prelude.Sorting.{sort_by, in_key_order}
use my_websocket_net.Routing.Destination.{Proto}
use my_websocket_net.Routing.Acl.{Networks, AclTable, connect_service, check, is_allowed}
use my_websocket_net.Registry.{Registry, NodeLease, ServiceLease}

pub record ServiceDescriptor : Type 0 where
  pub hub_id : Text
  pub node_id : Text
  pub service_name : Text
  pub proto : Proto
  pub revision : ℕ

pub record PeerNode : Type 0 where
  pub node_id : Text
  pub services : List ServiceDescriptor

pub record PeerList : Type 0 where
  pub hub_id : Text
  pub revision : ℕ
  pub nodes : List PeerNode

abbrev pub descriptor : ServiceLease → ServiceDescriptor
descriptor lease = record {
  hub_id = lease.hub_id;
  node_id = lease.node_id;
  service_name = lease.service_name;
  proto = lease.proto;
  revision = lease.revision;
}

-- `(&a.node_id, &a.service_name) < (&b.node_id, &b.service_name)`
abbrev pub comes_before : ServiceDescriptor → ServiceDescriptor → Bool
comes_before a b =
    text_ltb a.node_id b.node_id
    || same_text a.node_id b.node_id && text_ltb a.service_name b.service_name

module _ (networks : Networks) where
  unfoldable pub discoverable : Text → AclTable networks → ServiceLease → Bool
  discoverable caller acl lease = is_allowed (
      check networks acl (record {
        caller = caller;
        action = connect_service;
        node = some lease.node_id;
        service = some lease.service_name;
        ip = none;
        port = none;
        proto = lease.proto;
      }))

  -- The services of one node, filtered.
  unfoldable pub visible_of :
      Text → AclTable networks → Map Text ServiceLease → List ServiceDescriptor
  visible_of caller acl [] = []
  visible_of caller acl ((name, service) ∷ services) =
      let rest = visible_of caller acl services in
      if discoverable caller acl service then descriptor service ∷ rest else rest

  unfoldable pub visible_on : Text → AclTable networks → Map Text NodeLease → List ServiceDescriptor
  visible_on caller acl [] = []
  visible_on caller acl ((node_id, lease) ∷ nodes) =
      visible_of caller acl (in_key_order lease.services) ++ visible_on caller acl nodes

  unfoldable pub list_visible : Registry → Text → AclTable networks → List ServiceDescriptor
  list_visible r caller acl = sort_by comes_before (visible_on caller acl (in_key_order r.nodes))

  unfoldable pub peer_nodes : Text → AclTable networks → Map Text NodeLease → List PeerNode
  peer_nodes caller acl [] = []
  peer_nodes caller acl ((node_id, lease) ∷ nodes) =
      record { node_id = node_id; services = visible_of caller acl (in_key_order lease.services) }
      ∷ peer_nodes caller acl nodes

  unfoldable pub peer_list : Registry → Text → AclTable networks → PeerList
  peer_list r caller acl = record {
    hub_id = r.hub_id;
    revision = r.revision;
    nodes = peer_nodes caller acl (in_key_order r.nodes);
  }
