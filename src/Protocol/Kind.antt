-- ===== src/Protocol/Kind.antt =====
-- crates/wsnet-protocol/src/kind.rs: the message kinds and their wire numbers.
pub mod Numbers
mod Tests
use my_websocket_net.Prelude.{
  ℕ, ◌≡◌, refl, Bool, true, false, Option, none, some, List, [], ◌∷◌, arith, ◌==◌, if◌then◌else◌,
}
use my_websocket_net.Limits.{max_tcp_payload, max_udp_payload}

pub data MessageKind : Type 0 where
  auth auth_ok hello hello_ok open_stream open_result query_result ready progress : MessageKind
  resume cancel_candidate bye ping pong peer_list data_bytes datagram fin reset : MessageKind

unfoldable pub as_u8 : MessageKind → ℕ
as_u8 auth = 1
as_u8 auth_ok = 2
as_u8 hello = 3
as_u8 hello_ok = 4
as_u8 open_stream = 5
as_u8 open_result = 6
as_u8 query_result = 7
as_u8 ready = 8
as_u8 progress = 9
as_u8 resume = 10
as_u8 cancel_candidate = 11
as_u8 bye = 12
as_u8 ping = 13
as_u8 pong = 14
as_u8 peer_list = 15
as_u8 data_bytes = 16
as_u8 datagram = 17
as_u8 fin = 18
as_u8 reset = 19

unfoldable pub from_u8 : ℕ → Option MessageKind
from_u8 value =
    if value == 1
    then some auth
    else if value == 2
    then some auth_ok
    else if value == 3
    then some hello
    else if value == 4
    then some hello_ok
    else if value == 5
    then some open_stream
    else if value == 6
    then some open_result
    else if value == 7
    then some query_result
    else if value == 8
    then some ready
    else if value == 9
    then some progress
    else if value == 10
    then some resume
    else if value == 11
    then some cancel_candidate
    else if value == 12
    then some bye
    else if value == 13
    then some ping
    else if value == 14
    then some pong
    else if value == 15
    then some peer_list
    else if value == 16
    then some data_bytes
    else if value == 17
    then some datagram
    else if value == 18
    then some fin
    else if value == 19
    then some reset
    else none

unfoldable pub is_bootstrap : MessageKind → Bool
is_bootstrap auth = true
is_bootstrap auth_ok = true
is_bootstrap _ = false

unfoldable pub carries_payload : MessageKind → Bool
carries_payload data_bytes = true
carries_payload datagram = true
carries_payload _ = false

unfoldable pub max_payload : MessageKind → ℕ
max_payload data_bytes = max_tcp_payload
max_payload datagram = max_udp_payload
max_payload _ = 0
