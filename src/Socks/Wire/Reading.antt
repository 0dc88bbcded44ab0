-- ===== src/Socks/Wire/Reading.antt =====
-- crates/wsnet-socks/src/wire.rs: the messages that are read from a socket.
use my_websocket_net.Prelude.{
  ℕ, ◌≡◌, ap, Bool, true, false, ◌||◌, ◌&&◌, not, Option, none, some, List, [], ◌∷◌, leb, ◌==◌,
  if◌then◌else◌, length, take, drop,
}
use my_websocket_net.Prelude.Text.{Text}
use my_websocket_net.Prelude.Utf8.{is_utf8}
use my_websocket_net.Prelude.Result.{Result, ok, err}
use my_websocket_net.Bytes.{from_be_bytes}
use my_websocket_net.Socks.Wire.{
  SocksError, io, port_zero, bad_version, unsupported_atyp, malformed, v4, v6, SocksTarget, domain,
  ip, Command, udp_associate, command_from_u8, AuthMethod, no_auth, user_pass, method_from_u8,
  same_method, atyp_ipv4, atyp_ipv6, atyp_domain,
}

abbrev pub Read : Type 0 → Type 0
Read A = List ℕ → Result (A × List ℕ) SocksError

infixl 5 ◌>>=◌ ◌>>◌
abbrev pub ◌>>=◌ : {A B : Type 0} → Read A → (A → Read B) → Read B
(m >>= f) s = elim (m s) [ err e ↦ err e | ok (a, s') ↦ f a s' ]

abbrev pub ◌>>◌ : {B : Type 0} → Read (Unit {0}) → Read B → Read B
m >> k = m >>= λ _. k

abbrev pub pure : {A : Type 0} → A → Read A
pure a s = ok (a, s)

abbrev pub refuse : Bool → SocksError → Read (Unit {0})
refuse true e s = err e
refuse false e s = ok (tt, s)

pub >>=-ok :
    {A B : Type 0} (m : Read A) (f : A → Read B) {a : A} {before after : List ℕ}
    → m before ≡ ok (a, after)
    → (m >>= f) before ≡ f a after
>>=-ok {A} {B} m f h =
    ap {A = Result (A × List ℕ) SocksError} {B = Result (B × List ℕ) SocksError}
      (λ r. elim r [ err e ↦ err e | ok (x, t) ↦ f x t ]) h

unfoldable pub read_exact : ℕ → Read (List ℕ)
read_exact n s = if leb n (length s) then ok (take n s, drop n s) else err io

abbrev pub read_u8 : Read ℕ
read_u8 [] = err io
read_u8 (b ∷ s) = ok (b, s)

unfoldable pub read_domain : Read SocksTarget
read_domain = do
  len ← read_u8
  refuse (len == 0) (malformed "domain name is empty")
  host ← read_exact len
  refuse (not (is_utf8 host)) (malformed "domain name is not valid UTF-8")
  pure (domain host)

unfoldable pub read_address : ℕ → Read SocksTarget
read_address atyp s =
    if atyp == atyp_ipv4
    then (read_exact 4 >>= λ octets. pure (ip (v4 octets))) s
    else if atyp == atyp_ipv6
    then (read_exact 16 >>= λ octets. pure (ip (v6 octets))) s
    else if atyp == atyp_domain
    then read_domain s
    else err (unsupported_atyp atyp)

unfoldable pub read_port : Bool → Read ℕ
read_port allow_zero_port = do
  bytes ← read_exact 2
  refuse (from_be_bytes 0 bytes == 0 && not allow_zero_port) port_zero
  pure (from_be_bytes 0 bytes)

unfoldable pub read_target_with : ℕ → Bool → Read (SocksTarget × ℕ)
read_target_with atyp allow_zero_port = do
  target ← read_address atyp
  port ← read_port allow_zero_port
  pure (target, port)

unfoldable pub read_target : ℕ → Read (SocksTarget × ℕ)
read_target atyp = read_target_with atyp false

pub record Request : Type 0 where
  pub command : Command
  pub target : SocksTarget
  pub port : ℕ

abbrev pub command_of : ℕ → Read Command
command_of value s = elim (command_from_u8 value) [ err e ↦ err e | ok command ↦ ok (command, s) ]

abbrev pub is_udp_associate : Command → Bool
is_udp_associate udp_associate = true
is_udp_associate _ = false

-- The four bytes `VER, CMD, RSV, ATYP` are there before any is looked at.
unfoldable pub read_request : Read Request
read_request = do
  version ← read_u8
  cmd ← read_u8
  rsv ← read_u8
  atyp ← read_u8
  refuse (not (version == 0x05)) (bad_version version)
  command ← command_of cmd
  refuse (not (rsv == 0x00)) (malformed "request RSV must be zero")
  (target, port) ← read_target_with atyp (is_udp_associate command)
  pure (record { command = command; target = target; port = port })

abbrev pub methods_from : List ℕ → List AuthMethod
methods_from [] = []
methods_from (b ∷ bytes) = method_from_u8 b ∷ methods_from bytes

unfoldable pub read_greeting : Read (List AuthMethod)
read_greeting = do
  version ← read_u8
  count ← read_u8
  refuse (not (version == 0x05)) (bad_version version)
  refuse (count == 0) (malformed "greeting offered no authentication methods")
  methods ← read_exact count
  pure (methods_from methods)

unfoldable pub offers : List AuthMethod → AuthMethod → Bool
offers [] method = false
offers (m ∷ methods) method = same_method m method || offers methods method

-- Whether credentials are configured, and what is answered.
unfoldable pub choose : List AuthMethod → Bool → Option AuthMethod
choose methods has_credentials =
    let acceptable = if has_credentials then user_pass else no_auth in
    if offers methods acceptable then some acceptable else none

unfoldable pub read_length_prefixed : Read Text
read_length_prefixed = do
  len ← read_u8
  field ← read_exact len
  refuse (not (is_utf8 field)) (malformed "RFC 1929 field is not valid UTF-8")
  pure field

-- The user name and the password.
unfoldable pub read_credentials : Read (Text × Text)
read_credentials = do
  version ← read_u8
  refuse (not (version == 0x01)) (malformed "RFC 1929 sub-negotiation version must be 1")
  username ← read_length_prefixed
  password ← read_length_prefixed
  pure (username, password)
