-- ===== src/Socks/Wire.antt =====
-- crates/wsnet-socks/src/wire.rs: the messages of RFC 1928 and RFC 1929. A socket is the bytes that it
-- still delivers before it ends; an IP address is its 4 or 16 octets.
pub mod Reading
pub mod Agreement
pub mod Datagram
mod Tests
use Prim.Native.String.{String}
use my_websocket_net.Prelude.{
  ℕ, zero, ◌+◌, ◌%◌, ◌≡◌, ◌≤◌, ◌<◌, Bool, true, false, ◌||◌, ◌&&◌, not, Option, none, some, List,
  [], ◌∷◌, ◌++◌, ltb, leb, ◌==◌, if◌then◌else◌, length, take, drop, get_or,
}
use my_websocket_net.Prelude.Text.{Text}
use my_websocket_net.Prelude.Utf8.{is_utf8}
use my_websocket_net.Prelude.Result.{Result, ok, err, ◌>>=◌, ◌>>◌, refuse, ensure}
use my_websocket_net.Bytes.{u16_to_be_bytes, from_be_bytes}

abbrev pub atyp_ipv4 : ℕ
atyp_ipv4 = 0x01

abbrev pub atyp_domain : ℕ
atyp_domain = 0x03

abbrev pub atyp_ipv6 : ℕ
atyp_ipv6 = 0x04

abbrev pub udp_header_max : ℕ
udp_header_max = 262

-- The errors that these messages cause; `io` is that the socket ended.
pub data SocksError : Type 0 where
  io port_zero : SocksError
  bad_version unsupported_atyp unsupported_command : ℕ → SocksError
  malformed : String → SocksError

pub data IpAddr : Type 0 where
  v4 v6 : List ℕ → IpAddr

pub data SocksTarget : Type 0 where
  domain : Text → SocksTarget
  ip : IpAddr → SocksTarget

pub data Command : Type 0 where
  connect bind udp_associate : Command

unfoldable pub command_from_u8 : ℕ → Result Command SocksError
command_from_u8 value =
    if value == 0x01
    then ok connect
    else if value == 0x02
    then ok bind
    else if value == 0x03
    then ok udp_associate
    else err (unsupported_command value)

pub data AuthMethod : Type 0 where
  no_auth user_pass : AuthMethod
  unknown : ℕ → AuthMethod

unfoldable pub method_from_u8 : ℕ → AuthMethod
method_from_u8 value =
    if value == 0x00 then no_auth else if value == 0x02 then user_pass else unknown value

abbrev pub same_method : AuthMethod → AuthMethod → Bool
same_method no_auth no_auth = true
same_method user_pass user_pass = true
same_method (unknown m) (unknown n) = m == n
same_method _ _ = false

-- `encode_target` appends what this returns.
unfoldable pub encode_target : SocksTarget → Result (List ℕ) SocksError
encode_target (ip (v4 octets)) = ok (atyp_ipv4 ∷ octets)
encode_target (ip (v6 octets)) = ok (atyp_ipv6 ∷ octets)
encode_target (domain host) =
    if length host == 0 || ltb 255 (length host)
    then err (malformed "domain name must be 1..=255 bytes to be encodable")
    else ok (atyp_domain ∷ (length host % 256 ∷ host))

pub data ReplyCode : Type 0 where
  succeeded general_failure connection_not_allowed network_unreachable host_unreachable : ReplyCode
  connection_refused ttl_expired command_not_supported address_type_not_supported : ReplyCode

abbrev pub reply_as_u8 : ReplyCode → ℕ
reply_as_u8 succeeded = 0x00
reply_as_u8 general_failure = 0x01
reply_as_u8 connection_not_allowed = 0x02
reply_as_u8 network_unreachable = 0x03
reply_as_u8 host_unreachable = 0x04
reply_as_u8 connection_refused = 0x05
reply_as_u8 ttl_expired = 0x06
reply_as_u8 command_not_supported = 0x07
reply_as_u8 address_type_not_supported = 0x08

-- What `Reply::write` sends for a bound address.
unfoldable pub write_reply : ReplyCode → IpAddr → ℕ → Result (List ℕ) SocksError
write_reply code address port = do
  target ← encode_target (ip address)
  ok (0x05 ∷ (reply_as_u8 code ∷ (0x00 ∷ (target ++ u16_to_be_bytes port))))

pub record UdpHeader : Type 0 where
  pub frag : ℕ
  pub target : SocksTarget
  pub port : ℕ

-- The target of a datagram whose header is `buf`, and where it ends.
unfoldable pub parse_target : ℕ → List ℕ → Result (SocksTarget × ℕ) SocksError
parse_target atyp buf =
    if atyp == atyp_ipv4
    then (if ltb (length buf) 10
        then err (malformed "truncated IPv4 UDP header")
        else ok (ip (v4 (take 4 (drop 4 buf))), 8))
    else if atyp == atyp_ipv6
    then (if ltb (length buf) 22
        then err (malformed "truncated IPv6 UDP header")
        else ok (ip (v6 (take 16 (drop 4 buf))), 20))
    else if atyp == atyp_domain
    then (do
      refuse (ltb (length buf) 5) (malformed "truncated domain UDP header")
      let len = get_or buf 4 0
      refuse (len == 0) (malformed "domain name is empty")
      refuse (ltb (length buf) (5 + len + 2)) (malformed "truncated domain UDP header")
      let host = take len (drop 5 buf)
      ensure (is_utf8 host) (malformed "domain name is not valid UTF-8")
      ok (domain host, 5 + len))
    else err (unsupported_atyp atyp)

-- The header of a datagram, and where its payload starts.
unfoldable pub parse : List ℕ → Result (UdpHeader × ℕ) SocksError
parse buf = do
  refuse (ltb (length buf) 4) (malformed "UDP datagram shorter than its header")
  ensure (get_or buf 0 0 == 0 && get_or buf 1 0 == 0) (malformed "UDP RSV must be zero")
  (target, offset) ← parse_target (get_or buf 3 0) buf
  let port = from_be_bytes 0 (get_or buf offset 0 ∷ (get_or buf (offset + 1) 0 ∷ []))
  refuse (port == 0) port_zero
  ok (record { frag = get_or buf 2 0; target = target; port = port }, offset + 2)

-- `UdpHeader::encode` appends what this returns.
unfoldable pub encode : UdpHeader → Result (List ℕ) SocksError
encode header = do
  target ← encode_target header.target
  ok (0x00 ∷ (0x00 ∷ (0x00 ∷ (target ++ u16_to_be_bytes header.port))))

unfoldable pub encode_udp_datagram : SocksTarget → ℕ → List ℕ → Result (List ℕ) SocksError
encode_udp_datagram target port payload = do
  address ← encode_target target
  ok (0x00 ∷ (0x00 ∷ (0x00 ∷ (address ++ (u16_to_be_bytes port ++ payload)))))
