-- ===== src/Routing/Destination.antt =====
-- crates/wsnet-routing/src/dest.rs: slugs and the destinations of an `Open`. A port is a u16, a revision a
-- u64.
pub mod Wire
mod Tests
use my_websocket_net.Prelude.{
  ℕ, zero, suc, ◌≡◌, ◌<◌, ◌≤◌, Bool, true, false, not, ◌&&◌, ◌||◌, Option, none, some, List, [],
  ◌∷◌, ltb, leb, ◌==◌, if◌then◌else◌, length,
}
use my_websocket_net.Prelude.Text.{Text, text, same_text}
use my_websocket_net.Prelude.Result.{Result, ok, err, ◌>>=◌, ◌>>◌, ensure, refuse}
use my_websocket_net.Protocol.Canon.{
  ℤ, pos, negsuc, CanonError, Canonical, int, str, object_of, u64_decimal, get_str, get_i64,
  get_u64, to_bytes,
}

pub data Proto : Type 0 where
  tcp udp : Proto

abbrev pub max_slug_len : ℕ
max_slug_len = 64

abbrev is_ascii_alphanumeric : ℕ → Bool
is_ascii_alphanumeric b =
    leb b'0' b && leb b b'9' || leb b'A' b && leb b b'Z' || leb b'a' b && leb b b'z'

abbrev pub is_slug_byte : ℕ → Bool
is_slug_byte b = is_ascii_alphanumeric b || b == b'.' || b == b'_' || b == b'-'

pub all_slug_bytes : Text → Bool
all_slug_bytes [] = true
all_slug_bytes (b ∷ bytes) = is_slug_byte b && all_slug_bytes bytes

unfoldable pub is_slug : Text → Bool
unfolding all_slug_bytes
is_slug [] = false
is_slug (b ∷ bytes) =
    leb (length (b ∷ bytes)) max_slug_len && is_ascii_alphanumeric b && all_slug_bytes (b ∷ bytes)

pub data DestinationError : Type 0 where
  not_a_slug : Text → DestinationError
  zero_port empty_host : DestinationError

pub data Destination : Type 0 where
  address : Text → ℕ → Destination
  service : Text → Text → Option ℕ → Destination
  node_address : Text → Text → ℕ → Destination

pub data DestinationKind : Type 0 where
  address service node_address : DestinationKind

pub kind : Destination → DestinationKind
kind (Destination.address host port) = DestinationKind.address
kind (Destination.service node name revision) = DestinationKind.service
kind (Destination.node_address node host port) = DestinationKind.node_address

unfoldable pub named_node : Destination → Option Text
named_node (Destination.address host port) = none
named_node (Destination.service node name revision) = some node
named_node (Destination.node_address node host port) = some node

unfoldable pub host_port : Destination → Option (Text × ℕ)
host_port (Destination.address host port) = some (host, port)
host_port (Destination.service node name revision) = none
host_port (Destination.node_address node host port) = some (host, port)

abbrev pub is_empty : Text → Bool
is_empty [] = true
is_empty (b ∷ bytes) = false

unfoldable pub validate : Destination → Result (Unit {0}) DestinationError
validate (Destination.address host port) = do
  refuse (is_empty host) empty_host
  refuse (port == 0) zero_port
validate (Destination.service node name revision) = do
  ensure (is_slug node) (not_a_slug node)
  ensure (is_slug name) (not_a_slug name)
validate (Destination.node_address node host port) = do
  ensure (is_slug node) (not_a_slug node)
  refuse (is_empty host) empty_host
  refuse (port == 0) zero_port

abbrev pub revision_entry : Option ℕ → List (Text × Canonical)
revision_entry none = []
revision_entry (some revision) = (text "revision", u64_decimal revision) ∷ []

unfoldable pub to_canonical : Destination → Canonical
to_canonical (Destination.address host port) = object_of (
    (text "host", str host)
    ∷ (text "port", int (pos port))
    ∷ (text "type", str (text "address"))
    ∷ [])
to_canonical (Destination.service node name revision) = object_of (
    (text "name", str name)
    ∷ (text "node", str node)
    ∷ (text "type", str (text "service"))
    ∷ revision_entry revision)
to_canonical (Destination.node_address node host port) = object_of (
    (text "host", str host)
    ∷ (text "node", str node)
    ∷ (text "port", int (pos port))
    ∷ (text "type", str (text "node_address"))
    ∷ [])

-- `map_err(|_| e)?`
abbrev pub or_err :
    {A : Type 0} → Result A CanonError → DestinationError → Result A DestinationError
or_err (ok a) e = ok a
or_err (err c) e = err e

-- `u16::try_from(value.get_i64("port").unwrap_or(0)).unwrap_or(0)`
abbrev pub port_of : Result ℤ CanonError → ℕ
port_of (ok (pos n)) = if ltb n 65536 then n else 0
port_of (ok (negsuc n)) = 0
port_of (err e) = 0

-- `.ok()`
abbrev pub to_option : Result ℕ CanonError → Option ℕ
to_option (ok n) = some n
to_option (err e) = none

abbrev host_field : Canonical → Result Text DestinationError
host_field v = or_err (get_str v (text "host")) empty_host

abbrev slug_field : Canonical → Text → Result Text DestinationError
slug_field v key = or_err (get_str v key) (not_a_slug [])

-- The destination before it is validated.
unfoldable pub read_destination : Text → Canonical → Result Destination DestinationError
read_destination type v =
    if same_text type (text "address")
    then (host_field v >>= λ host.
        ok (Destination.address host (port_of (get_i64 v (text "port")))))
    else if same_text type (text "service")
    then (slug_field v (text "node") >>= λ node. slug_field v (text "name") >>= λ name.
        ok (Destination.service node name (to_option (get_u64 v (text "revision")))))
    else if same_text type (text "node_address")
    then (slug_field v (text "node") >>= λ node. host_field v >>= λ host.
        ok (Destination.node_address node host (port_of (get_i64 v (text "port")))))
    else err empty_host

unfoldable pub from_canonical : Canonical → Result Destination DestinationError
from_canonical v = or_err (get_str v (text "type")) empty_host >>= λ type.
    read_destination type v >>= λ destination. validate destination >>= λ _. ok destination

pub canonical_bytes : Destination → Text
canonical_bytes d = to_bytes (to_canonical d)
