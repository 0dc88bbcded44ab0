-- ===== src/Socks/Wire/Agreement.antt =====
-- The header of a datagram is read as the target of a request is.
pub mod Targets
use my_websocket_net.Prelude.{
  ℕ, Bool, if◌then◌else◌, zero, suc, ◌+◌, ◌-◌, ◌≡◌, ◌≤◌, ◌<◌, refl, sym, ap, subst, ◌∙◌, ◌⊎◌,
  Bool-cases, inl, inr, true, false, not, Option, none, some, List, [], ◌∷◌, arith, ltb, leb, ◌==◌,
  ==→eq, length, take, drop, get_or, length-drop, drop-drop, le→leb, leb→le, ltb→le,
}
use my_websocket_net.Prelude.Utf8.{is_utf8}
use my_websocket_net.Prelude.Result.{Result, ok, err}
use my_websocket_net.Bytes.{from_be_bytes}
use my_websocket_net.Socks.Wire.{
  SocksError, io, port_zero, unsupported_atyp, malformed, v4, v6, SocksTarget, domain, ip,
  UdpHeader, parse, parse_target,
}
use my_websocket_net.Socks.Wire.Reading.{
  Read, ◌>>=◌, pure, >>=-ok, read_exact, read_domain, read_address, read_port, read_target_with,
  read_target,
}
use my_websocket_net.Socks.Wire.Agreement.Targets.{succeeds, Agree, agree, >>=-err, read_exact_long}

-- The header that a target and a port read from the socket make, and the number of bytes in front of
-- what is left.
abbrev pub header_of :
    ℕ → ℕ → Result ((SocksTarget × ℕ) × List ℕ) SocksError → Option (UdpHeader × ℕ)
header_of frag total (err e) = none
header_of frag total (ok ((target, port), left)) =
    some (record { frag = frag; target = target; port = port }, total - length left)

get_or-drop :
    (offset k : ℕ) (bytes : List ℕ) → get_or bytes (offset + k) 0 ≡ get_or (drop offset bytes) k 0
get_or-drop zero k bytes = let same : zero + k ≡ k = omega arith in ap (λ i. get_or bytes i 0) same
get_or-drop (suc offset) k [] = refl
get_or-drop (suc offset) k (b ∷ bytes) =
    let same : suc offset + k ≡ suc (offset + k) = omega arith in
    ap (λ i. get_or (b ∷ bytes) i 0) same ∙ get_or-drop offset k bytes

-- A datagram with a target, and the two bytes behind it.
parse_with :
    (frag atyp offset a b : ℕ) (rest : List ℕ) (target : SocksTarget)
    → let buf = 0 ∷ (0 ∷ (frag ∷ (atyp ∷ rest))) in
      parse_target atyp buf ≡ ok (target, offset)
      → get_or buf offset 0 ≡ a
      → get_or buf (offset + 1) 0 ≡ b
      → succeeds (parse buf) ≡ (
          if from_be_bytes 0 (a ∷ (b ∷ [])) == 0
          then none
          else some (
            record { frag = frag; target = target; port = from_be_bytes 0 (a ∷ (b ∷ [])) },
            offset + 2,
          ))
unfolding parse
parse_with frag atyp offset a b rest target parsed first second =
    ground (arith, parsed, first, second)

two_bytes : (a b : ℕ) (tail : List ℕ) → read_exact 2 (a ∷ (b ∷ tail)) ≡ ok (a ∷ (b ∷ []), tail)
two_bytes a b tail = read_exact_long 2 (a ∷ (b ∷ tail)) (omega arith)

port_is_zero :
    (a b : ℕ) (tail : List ℕ)
    → (from_be_bytes 0 (a ∷ (b ∷ [])) == 0) ≡ true
    → read_port false (a ∷ (b ∷ tail)) ≡ err port_zero
unfolding read_port
port_is_zero a b tail zero_port = >>=-ok (read_exact 2) _ (two_bytes a b tail) ∙ rw zero_port refl

port_is_some :
    (a b : ℕ) (tail : List ℕ)
    → (from_be_bytes 0 (a ∷ (b ∷ [])) == 0) ≡ false
    → read_port false (a ∷ (b ∷ tail)) ≡ ok (from_be_bytes 0 (a ∷ (b ∷ [])), tail)
unfolding read_port
port_is_some a b tail some_port = >>=-ok (read_exact 2) _ (two_bytes a b tail) ∙ rw some_port refl

read_with :
    (frag atyp total a b : ℕ) (rest tail : List ℕ) (target : SocksTarget)
    → read_address atyp rest ≡ ok (target, a ∷ (b ∷ tail))
    → header_of frag total (read_target atyp rest) ≡ (
        if from_be_bytes 0 (a ∷ (b ∷ [])) == 0
        then none
        else some (
          record { frag = frag; target = target; port = from_be_bytes 0 (a ∷ (b ∷ [])) },
          total - length tail,
        ))
unfolding read_target read_target_with
read_with frag atyp total a b rest tail target there =
    ap (header_of frag total) (>>=-ok (read_address atyp) _ there)
    ∙ elim (Bool-cases (from_be_bytes 0 (a ∷ (b ∷ [])) == 0)) [
      | inl zero_port ↦
          ap (header_of frag total) (>>=-err (read_port false) _ (port_is_zero a b tail zero_port))
          ∙ rw zero_port refl
      | inr some_port ↦
          ap (header_of frag total) (>>=-ok (read_port false) _ (port_is_some a b tail some_port))
          ∙ rw some_port refl
    ]

header_of-none :
    (frag total : ℕ) (r : Result ((SocksTarget × ℕ) × List ℕ) SocksError)
    → succeeds r ≡ none
    → header_of frag total r ≡ none
header_of-none frag total (ok r) h = cc
header_of-none frag total (err e) h = refl

parse_fails :
    (frag atyp : ℕ) (rest : List ℕ)
    → succeeds (parse_target atyp (0 ∷ (0 ∷ (frag ∷ (atyp ∷ rest))))) ≡ none
    → succeeds (parse (0 ∷ (0 ∷ (frag ∷ (atyp ∷ rest))))) ≡ none
unfolding parse
parse_fails frag atyp rest fails = ground (arith, fails)

both_succeed :
    (frag atyp offset : ℕ) (rest left : List ℕ) (target : SocksTarget)
    → let buf = 0 ∷ (0 ∷ (frag ∷ (atyp ∷ rest))) in
      parse_target atyp buf ≡ ok (target, offset)
      → read_address atyp rest ≡ ok (target, left)
      → drop offset buf ≡ left
      → 2 ≤ length left
      → offset + length left ≡ length buf
      → succeeds (parse buf) ≡ header_of frag (4 + length rest) (read_target atyp rest)
both_succeed frag atyp offset rest [] target parsed there here two all = absurd (omega arith)
both_succeed frag atyp offset rest (a ∷ []) target parsed there here two all = absurd (omega arith)
both_succeed frag atyp offset rest (a ∷ (b ∷ tail)) target parsed there here two all =
    let buf = 0 ∷ (0 ∷ (frag ∷ (atyp ∷ rest))) in
    let same : offset + 0 ≡ offset = omega arith in
    let ends : offset + 2 ≡ 4 + length rest - length tail = omega arith in
    parse_with frag atyp offset a b rest target parsed
      (ap (λ i. get_or buf i 0) (sym same)
        ∙ get_or-drop offset 0 buf
        ∙ ap (λ bytes. get_or bytes 0 0) here)
      (get_or-drop offset 1 buf ∙ ap (λ bytes. get_or bytes 1 0) here)
    ∙ ap
        (λ n.
          if from_be_bytes 0 (a ∷ (b ∷ [])) == 0
          then none
          else some
              (record { frag = frag; target = target; port = from_be_bytes 0 (a ∷ (b ∷ [])) }, n))
        ends
    ∙ sym (read_with frag atyp (4 + length rest) a b rest tail target there)

-- Parsing the header of an unfragmented datagram, or of a fragment, and reading the same bytes from a
-- socket as a target that may not have port 0 either both succeed, with the same target and port and
-- the same bytes left, or both fail.
pub parse-read_target :
    (frag atyp : ℕ) (rest : List ℕ)
    → succeeds (parse (0 ∷ (0 ∷ (frag ∷ (atyp ∷ rest)))))
      ≡ header_of frag (4 + length rest) (read_target atyp rest)
parse-read_target frag atyp rest = elim (agree 0 0 frag atyp rest) [
  | inr (fails, ends) ↦
      parse_fails frag atyp rest fails
      ∙ sym (header_of-none frag (4 + length rest) (read_target atyp rest) ends)
  | inl (target, offset, left, parsed, there, here, two, all) ↦
      both_succeed frag atyp offset rest left target parsed there here two all
]
