-- ===== src/Socks/Wire/Datagram.antt =====
-- The header of a datagram: what is written is read back, and both parsers agree.
use my_websocket_net.Prelude.{
  ℕ, suc, ◌+◌, ◌-◌, ◌%◌, ◌≡◌, ◌≤◌, ◌<◌, refl, sym, ap, ◌∙◌, true, false, some, List, ◌∷◌, ◌++◌,
  arith, ltb, ◌==◌, length, drop, take-append_exact, drop-append_exact, drop-drop, length-append,
  le→leb,
}
use my_websocket_net.Prelude.Utf8.{is_utf8}
use my_websocket_net.Prelude.Result.{Result, ok, err}
use my_websocket_net.Bytes.{u16_to_be_bytes, from_be_bytes-u16}
use my_websocket_net.Socks.Wire.{
  SocksError, v4, v6, SocksTarget, domain, ip, parse, encode_target, encode_udp_datagram,
}
use my_websocket_net.Socks.Wire.Reading.{
  >>=-ok, read_exact, read_domain, read_address, read_port, read_target_with, read_target,
}
use my_websocket_net.Socks.Wire.Agreement.{header_of, parse-read_target}
use my_websocket_net.Socks.Wire.Agreement.Targets.{succeeds}

-- A target that can be written: octets of the right number, a name of 1 to 255 bytes of UTF-8.
abbrev pub IsTarget : SocksTarget → Type 0
IsTarget (ip (v4 octets)) = length octets ≡ 4
IsTarget (ip (v6 octets)) = length octets ≡ 16
IsTarget (domain host) = (1 ≤ length host) × (length host ≤ 255) × (is_utf8 host ≡ true)

read_exact-append :
    (front back : List ℕ) (n : ℕ)
    → length front ≡ n
    → read_exact n (front ++ back) ≡ ok (front, back)
unfolding read_exact
read_exact-append front back n h = subst_n n h
  where
    subst_n : (n : ℕ) → length front ≡ n → read_exact n (front ++ back) ≡ ok (front, back)
    subst_n n h = rw (sym h) (
        rw (
          le→leb (length front) (length (front ++ back)) (omega (arith, length-append front back)),
          take-append_exact front back,
          drop-append_exact front back,
        ))

read_port-append :
    (port : ℕ) (rest : List ℕ)
    → 1 ≤ port
    → port < 65536
    → read_port false (u16_to_be_bytes port ++ rest) ≡ ok (port, rest)
unfolding read_port
read_port-append port rest low high =
    let some_port : (port == 0) ≡ false = ground arith in
    >>=-ok (read_exact 2) _ (read_exact-append (u16_to_be_bytes port) rest 2 refl)
    ∙ rw (from_be_bytes-u16 port high, some_port) refl

read_address-append :
    (target : SocksTarget) (rest : List ℕ)
    → IsTarget target
    → (bytes : List ℕ) × (encode_target target ≡ ok bytes)
      × ((atyp : ℕ) × (tail : List ℕ) × (bytes ≡ atyp ∷ tail)
          × (read_address atyp (tail ++ rest) ≡ ok (target, rest)))
unfolding encode_target read_address read_domain
read_address-append (ip (v4 octets)) rest h =
    (_, refl, (_, octets, refl, >>=-ok (read_exact 4) _ (read_exact-append octets rest 4 h)))
read_address-append (ip (v6 octets)) rest h =
    (_, refl, (_, octets, refl, >>=-ok (read_exact 16) _ (read_exact-append octets rest 16 h)))
read_address-append (domain host) rest (low, high, utf8) =
    let short : (length host == 0) ≡ false = ground arith in
    let fits : ltb 255 (length host) ≡ false = ground arith in
    let same : length host % 256 ≡ length host = omega arith in
    (
      _,
      rw (short, fits) refl,
      (
        3,
        length host % 256 ∷ host,
        refl,
        rw (same, short)
            (>>=-ok (read_exact (length host)) _ (read_exact-append host rest (length host) refl)
              ∙ rw utf8 refl),
      ),
    )

read_target-append :
    (target : SocksTarget) (port : ℕ) (rest tail : List ℕ) (atyp : ℕ)
    → read_address atyp (tail ++ (u16_to_be_bytes port ++ rest))
      ≡ ok (target, u16_to_be_bytes port ++ rest)
    → 1 ≤ port
    → port < 65536
    → read_target atyp (tail ++ (u16_to_be_bytes port ++ rest)) ≡ ok ((target, port), rest)
unfolding read_target read_target_with
read_target-append target port rest tail atyp there low high =
    >>=-ok (read_address atyp) _ there
    ∙ >>=-ok (read_port false) _ (read_port-append port rest low high)

succeeds-some : {A : Type 0} (r : Result A SocksError) {a : A} → succeeds r ≡ some a → r ≡ ok a
succeeds-some (ok a) h = cc
succeeds-some (err e) h = cc

-- A datagram for a target that can be written, with a port other than 0, is written; parsing it gives
-- the target and the port back, unfragmented, and what lies behind the header is the payload.
pub parse-encode_udp_datagram :
    (target : SocksTarget) (port : ℕ) (payload : List ℕ)
    → IsTarget target
    → 1 ≤ port
    → port < 65536
    → (bytes : List ℕ) × (offset : ℕ) × (encode_udp_datagram target port payload ≡ ok bytes)
      × (parse bytes ≡ ok (record { frag = 0; target = target; port = port }, offset))
      × (drop offset bytes ≡ payload)
unfolding encode_udp_datagram
parse-encode_udp_datagram target port payload valid low high =
    let rest = u16_to_be_bytes port ++ payload in
    let (address, written, (atyp, tail, is, there)) = read_address-append target rest valid in
    let bytes = 0 ∷ (0 ∷ (0 ∷ (atyp ∷ (tail ++ rest)))) in
    let total : length (tail ++ rest) ≡ length tail + (2 + length payload) =
      omega (arith, length-append tail rest) in
    let ends : 4 + length (tail ++ rest) - length payload
        ≡ suc (suc (suc (suc (length tail + 2)))) =
      omega arith in
    (
      bytes,
      4 + length (tail ++ rest) - length payload,
      rw (written, is) refl,
      succeeds-some (parse bytes) (
          parse-read_target 0 atyp (tail ++ rest)
          ∙ ap (header_of 0 (4 + length (tail ++ rest)))
              (read_target-append target port payload tail atyp there low high)),
      ap (λ n. drop n bytes) ends
          ∙ sym (drop-drop 2 (length tail) (tail ++ rest))
          ∙ ap (drop 2) (drop-append_exact tail rest),
    )
