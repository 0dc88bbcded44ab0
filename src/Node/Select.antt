-- ===== src/Node/Select.antt =====
-- crates/wsnet-node/src/select.rs: what a node knows of the services on its Hubs, and which Hub it
-- picks. A snapshot is the canonical metadata of a `PeerList`.
pub mod Directory
pub mod Choice
mod Tests
use my_websocket_net.Prelude.{
  ℕ, Bool, true, false, not, ◌&&◌, ◌||◌, Option, none, some, List, [], ◌∷◌, leb, if◌then◌else◌,
  length,
}
use my_websocket_net.Prelude.Map
use my_websocket_net.Prelude.Map.{Map, pair_eq}
use my_websocket_net.Prelude.Text.{Text, text, same_text, text_eq}
use my_websocket_net.Prelude.Result.{Result, ok, err}
use my_websocket_net.Protocol.Canon.{
  CanonError, Canonical, Items, nil, cons, get_str, get_u64, get_array,
}
use my_websocket_net.Routing.Destination.{Proto, tcp, udp, Destination, to_option}

pub record Advertisement : Type 0 where
  pub proto : Option Proto
  pub revision : Option ℕ

pub record ServiceDirectory : Type 0 where
  pub known : Bool
  pub services : Map (Text × Text) Advertisement
  pub revision : Option ℕ

abbrev pub unknown : ServiceDirectory
unknown = record { known = false; services = []; revision = none }

abbrev pub known_empty : ServiceDirectory
known_empty = record { known = true; services = []; revision = none }

abbrev pub parse_proto : Result Text CanonError → Option Proto
parse_proto (err e) = none
parse_proto (ok proto) =
    if same_text proto (text "tcp")
    then some tcp
    else if same_text proto (text "udp")
    then some udp
    else none

-- An entry that has no node or no name is skipped.
abbrev pub add_service :
    Result Text CanonError
    → Result Text CanonError
    → Advertisement
    → Map (Text × Text) Advertisement
    → Map (Text × Text) Advertisement
add_service (ok node) (ok name) ad services = Map.insert (node, name) ad services
add_service _ _ ad services = services

abbrev pub advertised : Canonical → Advertisement
advertised entry = record {
  proto = parse_proto (get_str entry (text "proto"));
  revision = to_option (get_u64 entry (text "revision"));
}

pub read_entries : Items → Map (Text × Text) Advertisement → Map (Text × Text) Advertisement
read_entries nil services = services
read_entries (cons entry entries) services = read_entries entries (
    add_service (get_str entry (text "node")) (get_str entry (text "name")) (advertised entry)
      services)

-- `if let Ok(entries) = ...`
abbrev pub read_services : Result Items CanonError → Map (Text × Text) Advertisement
read_services (ok entries) = read_entries entries []
read_services (err e) = []

pub from_peer_list : Canonical → ServiceDirectory
from_peer_list value = record {
  known = true;
  services = read_services (get_array value (text "services"));
  revision = to_option (get_u64 value (text "version"));
}

abbrev pub is_none {ℓ} : {A : Type ℓ} → Option A → Bool
is_none none = true
is_none (some a) = false

-- The two tests of `apply_peer_list`: whether the incoming snapshot is dropped.
pub outdated : Bool → Option ℕ → Option ℕ → Bool
outdated known (some applied) (some incoming) = leb incoming applied
outdated known applied incoming = known && is_none incoming

pub apply_peer_list : ServiceDirectory → Canonical → Bool × ServiceDirectory
unfolding outdated
apply_peer_list d value =
    let incoming = from_peer_list value in
    if outdated d.known d.revision incoming.revision then (false, d) else (true, incoming)

pub contains : ServiceDirectory → Text → Text → Bool
contains d node name = not (is_none (Map.lookup (node, name) d.services))

-- `hub_id`, `ready`, `healthy` and the directory, `none` if no `PeerList` was ever received.
pub record Candidate : Type 0 where
  pub hub_id : Text
  pub ready : Bool
  pub healthy : Bool
  pub directory : Option ServiceDirectory

-- `candidates.iter().find(test)`.
pub find : (Candidate → Bool) → List Candidate → Option Candidate
find test [] = none
find test (c ∷ cs) = let rest = find test cs in if test c then some c else rest

abbrev pub viable : Candidate → Bool
viable c = c.ready && c.healthy

abbrev pub lists : Text → Text → Option ServiceDirectory → Bool
lists node name none = false
lists node name (some d) = contains d node name

abbrev pub advertises : Text → Text → Candidate → Bool
advertises node name c = c.ready && c.healthy && lists node name c.directory

abbrev pub uninformed : Candidate → Bool
uninformed c = c.ready && c.healthy && is_none c.directory

abbrev pub or_else {ℓ} : {A : Type ℓ} → Option A → Option A → Option A
or_else (some a) later = some a
or_else none later = later

pub select_hub : List Candidate → Destination → Option Candidate
unfolding find contains
select_hub candidates (Destination.service node name revision) =
    or_else (find (advertises node name) candidates) (find uninformed candidates)
select_hub candidates _ = find viable candidates
