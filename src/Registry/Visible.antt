-- ===== src/Registry/Visible.antt =====
-- What the two listings of the registry show a caller.
use my_websocket_net.Prelude.{◌≡◌, inl, inr, ◌↔◌, Bool-cases, true, false, List, [], ◌∷◌, arith}
use my_websocket_net.Prelude.Text.{
  Text, same_text_iff, text_ltb_irrefl, text_ltb-asym, text_ltb-total, text_ltb-le_trans,
}
use my_websocket_net.Prelude.Map.{Map}
use my_websocket_net.Prelude.Sorting.{
  Any, Any-append, Any-sort_by, in_key_order, Sorted, IsOrder, sort_by-Sorted,
}
use my_websocket_net.Routing.Acl.{Networks, AclTable}
use my_websocket_net.Registry.{Registry, NodeLease, ServiceLease}
use my_websocket_net.Registry.Listing.{
  ServiceDescriptor, descriptor, comes_before, discoverable, visible_of, visible_on, list_visible,
  peer_nodes, peer_list,
}

module _ (networks : Networks) (caller : Text) (acl : AclTable networks) where
  -- Some lease of the node is discoverable, and its description satisfies `P`.
  abbrev pub Shows : (ServiceDescriptor → Type 0) → Map Text ServiceLease → Type 0
  Shows P services =
      Any (λ entry. (discoverable networks caller acl entry.1 ≡ true) × P (descriptor entry.1))
        services

  visible_of_iff :
      (P : ServiceDescriptor → Type 0) (services : Map Text ServiceLease)
      → Any P (visible_of networks caller acl services) ↔ Shows P services
  unfolding visible_of
  visible_of_iff P [] = (λ h. h, λ h. h)
  visible_of_iff P ((name, service) ∷ services) =
      let rest = visible_of_iff P services in
      elim (Bool-cases (discoverable networks caller acl service)) [
        | inl may ↦ rw may (λ h. ground (arith, rest, may), λ h. ground (arith, rest, may))
        | inr hidden ↦ rw hidden (λ h. inr (rest.0 h), λ h. ground (arith, rest, hidden))
      ]

  visible_node_iff :
      (P : ServiceDescriptor → Type 0) (services : Map Text ServiceLease)
      → Any P (visible_of networks caller acl (in_key_order services)) ↔ Shows P services
  visible_node_iff P services =
      let sorted =
        Any-sort_by
          (λ entry. (discoverable networks caller acl entry.1 ≡ true) × P (descriptor entry.1)) _
          services in
      let here = visible_of_iff P (in_key_order services) in
      (λ h. sorted.0 (here.0 h), λ h. here.1 (sorted.1 h))

  visible_on_iff :
      (P : ServiceDescriptor → Type 0) (nodes : Map Text NodeLease)
      → Any P (visible_on networks caller acl nodes) ↔ Any (λ entry. Shows P entry.1.services) nodes
  unfolding visible_on
  visible_on_iff P [] = (λ h. h, λ h. h)
  visible_on_iff P ((node_id, lease) ∷ nodes) =
      let both =
        Any-append P (visible_of networks caller acl (in_key_order lease.services))
          (visible_on networks caller acl nodes) in
      let here = visible_node_iff P lease.services in
      let rest = visible_on_iff P nodes in
      (λ h. ground (arith, both.0 h, here, rest), λ h. both.1 (ground (arith, h, here, rest)))

  peer_nodes_iff :
      (P : ServiceDescriptor → Type 0) (nodes : Map Text NodeLease)
      → Any (λ node. Any P node.services) (peer_nodes networks caller acl nodes)
        ↔ Any (λ entry. Shows P entry.1.services) nodes
  unfolding peer_nodes
  peer_nodes_iff P [] = (λ h. h, λ h. h)
  peer_nodes_iff P ((node_id, lease) ∷ nodes) =
      let here = visible_node_iff P lease.services in
      let rest = peer_nodes_iff P nodes in
      (λ h. ground (arith, h, here, rest), λ h. ground (arith, h, here, rest))

asym : (x y : ServiceDescriptor) → comes_before x y ≡ true → comes_before y x ≡ false
asym x y h = ground (
  arith,
  h,
  text_ltb-asym x.node_id y.node_id,
  text_ltb-asym x.service_name y.service_name,
  same_text_iff x.node_id y.node_id,
  same_text_iff y.node_id x.node_id,
  text_ltb_irrefl x.node_id,
)

le_trans :
    (x y z : ServiceDescriptor)
    → comes_before y x ≡ false
    → comes_before z y ≡ false
    → comes_before z x ≡ false
le_trans x y z h k = ground (
  arith,
  h,
  k,
  text_ltb-le_trans x.node_id y.node_id z.node_id,
  text_ltb-le_trans x.service_name y.service_name z.service_name,
  text_ltb-total y.node_id x.node_id,
  same_text_iff z.node_id x.node_id,
  same_text_iff y.node_id x.node_id,
  same_text_iff z.node_id y.node_id,
)

comes_before-IsOrder : IsOrder comes_before
comes_before-IsOrder = record { asym = asym; trans = le_trans }

-- A description is listed exactly if it describes a lease of the registry that the access list lets the
-- caller connect to; the snapshot of the same caller shows the same descriptions, and the list is in
-- the order of the nodes and the names.
pub list_visible_iff :
    (networks : Networks) (r : Registry) (caller : Text) (acl : AclTable networks)
    (d : ServiceDescriptor)
    → (Any (λ shown. shown ≡ d) (list_visible networks r caller acl)
        ↔ Any (λ entry. Shows networks caller acl (λ shown. shown ≡ d) entry.1.services) r.nodes)
      × (Any
            (λ node. Any (λ shown. shown ≡ d) node.services)
            (peer_list networks r caller acl).nodes
          ↔ Any (λ entry. Shows networks caller acl (λ shown. shown ≡ d) entry.1.services) r.nodes)
      × Sorted comes_before (list_visible networks r caller acl)
unfolding list_visible peer_list
list_visible_iff networks r caller acl d =
    let all : List ServiceDescriptor = visible_on networks caller acl (in_key_order r.nodes) in
    let listed = Any-sort_by (λ shown. shown ≡ d) comes_before all in
    let sorted = visible_on_iff networks caller acl (λ shown. shown ≡ d) (in_key_order r.nodes) in
    let snapshot = peer_nodes_iff networks caller acl (λ shown. shown ≡ d) (in_key_order r.nodes) in
    let nodes =
      Any-sort_by (λ entry. Shows networks caller acl (λ shown. shown ≡ d) entry.1.services) _
        r.nodes in
    (
      (λ h. nodes.0 (sorted.0 (listed.0 h)), λ h. listed.1 (sorted.1 (nodes.1 h))),
      (λ h. nodes.0 (snapshot.0 h), λ h. snapshot.1 (nodes.1 h)),
      sort_by-Sorted comes_before comes_before-IsOrder all,
    )
