-- ===== src/Registry.antt =====
-- crates/wsnet-registry/src/lib.rs: the leases of the nodes on a Hub and the services that they publish.
-- A session id or an epoch is the number of its 16 bytes.
pub mod Ownership
pub mod Revisions
pub mod Listing
pub mod Visible
mod Tests
use my_websocket_net.Prelude.Text.{Text, text, same_text, text_eq}
use my_websocket_net.Prelude.{
  ℕ, ◌+◌, min, Bool, true, false, ◌&&◌, ◌||◌, not, Option, none, some, ◌==◌, if◌then◌else◌, List,
  [], ◌∷◌,
}
use my_websocket_net.Prelude.Map
use my_websocket_net.Prelude.Map.{Map}
use my_websocket_net.Prelude.Result.{Result, ok, err}
use my_websocket_net.Limits.{u64_max}
use my_websocket_net.Prelude.Decimal.{parse_unsigned}
use my_websocket_net.Routing.Destination.{Proto, is_slug, is_empty}
use my_websocket_net.Routing.Router.{split_once, strip_prefix}
use my_websocket_net.Routing.Acl.{same_proto}

pub record ServiceLease : Type 0 where
  pub hub_id : Text
  pub node_id : Text
  pub service_name : Text
  pub proto : Proto
  pub revision : ℕ
  pub target : Text
  pub session_id : ℕ
  pub epoch : ℕ

pub record NodeLease : Type 0 where
  pub session_id : ℕ
  pub epoch : ℕ
  pub services : Map Text ServiceLease

pub data RegistryError : Type 0 where
  node_not_registered : Text → RegistryError
  stale_session : RegistryError
  bad_target bad_service_name : Text → RegistryError

pub record Registry : Type 0 where
  pub hub_id : Text
  pub nodes : Map Text NodeLease
  pub revision : ℕ

abbrev pub new : Text → Registry
new hub_id = record { hub_id = hub_id; nodes = []; revision = 0 }

abbrev pub is_some {ℓ} : {A : Type ℓ} → Option A → Bool
is_some none = false
is_some (some a) = true

-- `str::rsplit_once`
unfoldable pub rsplit_once : ℕ → Text → Option (Text × Text)
rsplit_once separator [] = none
rsplit_once separator (b ∷ bytes) = elim (rsplit_once separator bytes) [
  | some (front, back) ↦ some (b ∷ front, back)
  | none ↦ if b == separator then some ([], bytes) else none
]

-- The host and the text of the port; an IPv6 address stands in brackets.
unfoldable pub split_target : Text → Option (Text × Text)
split_target target = elim (strip_prefix (text "[") target) [
  | none ↦ rsplit_once b':' target
  | some rest ↦ elim (split_once b']' rest) [
    | none ↦ none
    | some (host, behind) ↦ elim (strip_prefix (text ":") behind) [
      | none ↦ none
      | some port ↦ some (host, port)
    ]
  ]
]

unfoldable pub read_port : Text → Option ℕ → Option (Text × ℕ)
read_port host none = none
read_port host (some port) = if is_empty host || port == 0 then none else some (host, port)

unfoldable pub parse_target : Text → Option (Text × ℕ)
parse_target target = elim (split_target target) [
  | none ↦ none
  | some (host, port) ↦ read_port host (parse_unsigned 65535 port)
]

-- `saturating_add(1)` on u64.
abbrev pub one_more : ℕ → ℕ
one_more n = min (n + 1) u64_max

abbrev pub is_lease_of : ℕ → ℕ → Option NodeLease → Bool
is_lease_of session_id epoch none = false
is_lease_of session_id epoch (some lease) = lease.session_id == session_id && lease.epoch == epoch

pub owns : Registry → Text → ℕ → ℕ → Bool
owns r node_id session_id epoch = is_lease_of session_id epoch (Map.lookup node_id r.nodes)

-- The registry with another lease for a node, or none, and the next revision.
abbrev pub with_node : Registry → Text → NodeLease → Registry
with_node r node_id lease = record r {
  nodes = Map.insert node_id lease r.nodes;
  revision = one_more r.revision;
}

abbrev pub was_replaced : ℕ → ℕ → Option NodeLease → Bool
was_replaced session_id epoch none = false
was_replaced session_id epoch (some lease) =
    not (lease.session_id == session_id) || not (lease.epoch == epoch)

pub register_ready : Registry → Text → ℕ → ℕ → Bool × Registry
register_ready r node_id session_id epoch = (
  was_replaced session_id epoch (Map.lookup node_id r.nodes),
  with_node r node_id (record { session_id = session_id; epoch = epoch; services = [] }),
)

pub unregister : Registry → Text → ℕ → ℕ → Result Bool RegistryError × Registry
unfolding owns
unregister r node_id session_id epoch =
    if not (is_some (Map.lookup node_id r.nodes))
    then (err (node_not_registered node_id), r)
    else if not (owns r node_id session_id epoch)
    then (ok false, r)
    else (ok true, record r { nodes = Map.remove node_id r.nodes; revision = one_more r.revision })

-- The revision of a service that is published with a target and a protocol.
abbrev pub next_revision : Option ServiceLease → Text → Proto → ℕ
next_revision none target proto = 1
next_revision (some existing) target proto =
    if same_text existing.target target && same_proto existing.proto proto
    then existing.revision
    else one_more existing.revision

-- The steps of `publish` once everything is checked; `none` is where the code would panic.
unfoldable pub publish_on :
    Registry
    → Text
    → ℕ
    → ℕ
    → Text
    → Proto
    → Text
    → Option NodeLease
    → Option (Result ℕ RegistryError) × Registry
publish_on r node_id session_id epoch service_name proto target none = (none, r)
publish_on r node_id session_id epoch service_name proto target (some lease) =
    let revision = next_revision (Map.lookup service_name lease.services) target proto in
    let service : ServiceLease = record {
      hub_id = r.hub_id;
      node_id = node_id;
      service_name = service_name;
      proto = proto;
      revision = revision;
      target = target;
      session_id = session_id;
      epoch = epoch;
    } in
    (
      some (ok revision),
      with_node r node_id
          (record lease { services = Map.insert service_name service lease.services }),
    )

pub publish :
    Registry → Text → ℕ → ℕ → Text → Proto → Text → Option (Result ℕ RegistryError) × Registry
unfolding publish_on owns
publish r node_id session_id epoch service_name proto target =
    if not (owns r node_id session_id epoch)
    then (some (err stale_session), r)
    else if not (is_slug service_name)
    then (some (err (bad_service_name service_name)), r)
    else if not (is_some (parse_target target))
    then (some (err (bad_target target)), r)
    else publish_on r node_id session_id epoch service_name proto target
        (Map.lookup node_id r.nodes)

unfoldable pub withdraw_on : Registry → Text → Text → Option NodeLease → Bool × Registry
withdraw_on r node_id service_name none = (false, r)
withdraw_on r node_id service_name (some lease) =
    if is_some (Map.lookup service_name lease.services)
    then (
      true,
      with_node r node_id (record lease { services = Map.remove service_name lease.services }),
    )
    else (false, r)

pub withdraw : Registry → Text → ℕ → ℕ → Text → Bool × Registry
unfolding withdraw_on owns
withdraw r node_id session_id epoch service_name =
    if not (owns r node_id session_id epoch)
    then (false, r)
    else withdraw_on r node_id service_name (Map.lookup node_id r.nodes)

abbrev pub service_of : Text → Option NodeLease → Option ServiceLease
service_of service_name none = none
service_of service_name (some lease) = Map.lookup service_name lease.services

pub lookup : Registry → Text → Text → Option ServiceLease
lookup r node_id service_name = service_of service_name (Map.lookup node_id r.nodes)
