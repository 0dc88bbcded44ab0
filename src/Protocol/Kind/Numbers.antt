-- ===== src/Protocol/Kind/Numbers.antt =====
-- The wire numbers of the kinds.
use my_websocket_net.Prelude.{ℕ, ◌≡◌, ◌↔◌, refl, sym, ap, ◌∙◌, some, arith, ◌≤◌}
use my_websocket_net.Protocol.Kind.{
  MessageKind, as_u8, from_u8, max_payload, auth, auth_ok, hello, hello_ok, open_stream,
  open_result, query_result, ready, progress, resume, cancel_candidate, bye, ping, pong, peer_list,
  data_bytes, datagram, fin, reset,
}

pub from_u8-as_u8 : (k : MessageKind) → from_u8 (as_u8 k) ≡ some k
unfolding from_u8 as_u8
from_u8-as_u8 auth = refl
from_u8-as_u8 auth_ok = refl
from_u8-as_u8 hello = refl
from_u8-as_u8 hello_ok = refl
from_u8-as_u8 open_stream = refl
from_u8-as_u8 open_result = refl
from_u8-as_u8 query_result = refl
from_u8-as_u8 ready = refl
from_u8-as_u8 progress = refl
from_u8-as_u8 resume = refl
from_u8-as_u8 cancel_candidate = refl
from_u8-as_u8 bye = refl
from_u8-as_u8 ping = refl
from_u8-as_u8 pong = refl
from_u8-as_u8 peer_list = refl
from_u8-as_u8 data_bytes = refl
from_u8-as_u8 datagram = refl
from_u8-as_u8 fin = refl
from_u8-as_u8 reset = refl

-- A byte is read as a kind exactly when it is the number that is written for the kind.
pub from_u8_iff : (b : ℕ) (k : MessageKind) → (from_u8 b ≡ some k) ↔ (as_u8 k ≡ b)
unfolding from_u8 as_u8
from_u8_iff b k = (λ h. ground (arith, h), λ e. ap from_u8 (sym e) ∙ from_u8-as_u8 k)

-- The largest payload of any kind.
pub max_payload_le : (k : MessageKind) → max_payload k ≤ 65507
unfolding max_payload
max_payload_le k = ground arith
