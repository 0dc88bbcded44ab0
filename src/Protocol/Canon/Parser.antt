-- ===== src/Protocol/Canon/Parser.antt =====
-- crates/wsnet-protocol/src/canon.rs: the parser. A `Parser` is the input from `pos` on, `pos`, and the
-- depth; the loops take fuel.
use my_websocket_net.Prelude.{
  ℕ, zero, suc, ◌+◌, ◌-◌, ◌*◌, ◌%◌, ◌^◌, Bool, true, false, not, ◌&&◌, ◌||◌, Option, none, some,
  List, [], ◌∷◌, ◌++◌, ◌≡◌, ap, ltb, leb, ◌==◌, if◌then◌else◌, length, take, drop,
}
use my_websocket_net.Prelude.Text.{Text, same_text}
use my_websocket_net.Prelude.Utf8.{is_utf8, encode_utf8}
use my_websocket_net.Prelude.Decimal.{is_digit, value_from}
use my_websocket_net.Prelude.Result.{Result, ok, err}
use my_websocket_net.Protocol.Canon.{
  max_canon_depth, pos, negsuc, CanonError, unexpected_end, unexpected_byte, float_not_allowed,
  integer_too_large, invalid_number, too_deep, invalid_utf8, invalid_escape, invalid_unicode_escape,
  out_of_fuel, Canonical, int,
}

pub data Parser : Type 0 where
  at : List ℕ → ℕ → ℕ → Parser

abbrev pub Parse : Type 0 → Type 0
Parse A = Parser → Result (A × Parser) CanonError

infixl 5 ◌>>=◌ ◌>>◌
abbrev pub ◌>>=◌ : {A B : Type 0} → Parse A → (A → Parse B) → Parse B
◌>>=◌ m k s = elim (m s) [ err e ↦ err e | ok (a, s') ↦ k a s' ]

abbrev pub ◌>>◌ : {B : Type 0} → Parse (Unit {0}) → Parse B → Parse B
m >> k = m >>= λ _. k

abbrev pub pure : {A : Type 0} → A → Parse A
pure a s = ok (a, s)

abbrev pub fail : {A : Type 0} → CanonError → Parse A
fail e s = err e

-- A step that succeeds hands on its answer and its state.
pub >>=-ok :
    {A B : Type 0} (m : Parse A) (k : A → Parse B) (s : Parser) {s' : Parser} {a : A}
    → m s ≡ ok (a, s')
    → (m >>= k) s ≡ k a s'
>>=-ok {A} {B} m k s reads =
    ap {A = Result (A × Parser) CanonError} {B = Result (B × Parser) CanonError}
      (λ r. elim r [ err e ↦ err e | ok (x, t) ↦ k x t ]) reads

-- The next byte, not taken.
abbrev pub peek : Parser → Option ℕ
peek (at [] p d) = none
peek (at (b ∷ rest) p d) = some b

abbrev pub sees : (ℕ → Bool) → Parser → Bool
sees test (at [] p d) = false
sees test (at (b ∷ rest) p d) = test b

abbrev pub position : Parser → ℕ
position (at rest p d) = p

unfoldable pub bump : Parse ℕ
bump (at [] p d) = err (unexpected_end p)
bump (at (b ∷ rest) p d) = ok (b, at rest (p + 1) d)

-- `self.pos += 1`, where a byte was seen.
abbrev pub skip_one : Parse (Unit {0})
skip_one (at [] p d) = ok (tt, at [] (p + 1) d)
skip_one (at (b ∷ rest) p d) = ok (tt, at rest (p + 1) d)

abbrev pub is_ws : ℕ → Bool
is_ws b = b == b' ' || b == 0x09 || b == 0x0a || b == 0x0d

unfoldable pub skip_ws_from : List ℕ → ℕ → ℕ → Parser
skip_ws_from [] p d = at [] p d
skip_ws_from (b ∷ rest) p d = if is_ws b then skip_ws_from rest (p + 1) d else at (b ∷ rest) p d

unfoldable pub skip_ws : Parse (Unit {0})
unfolding skip_ws_from
skip_ws (at rest p d) = ok (tt, skip_ws_from rest p d)

unfoldable pub expect_literal : Text → Canonical → Parse Canonical
expect_literal word value (at [] p d) = err (unexpected_end p)
expect_literal word value (at (b ∷ rest) p d) =
    if ltb (length (b ∷ rest)) (length word)
    then err (unexpected_end p)
    else if not (same_text (take (length word) (b ∷ rest)) word)
    then err (unexpected_byte b p)
    else ok (value, at (drop (length word) (b ∷ rest)) (p + length word) d)

unfoldable pub enter : Parse (Unit {0})
enter (at rest p d) = if leb max_canon_depth d then err too_deep else ok (tt, at rest p (d + 1))

abbrev pub leave : Parse (Unit {0})
leave (at rest p d) = ok (tt, at rest p (d - 1))

-- The digits that come next, and what follows them.
unfoldable pub take_digits : List ℕ → List ℕ × List ℕ
take_digits [] = ([], [])
take_digits (b ∷ rest) =
    let (front, back) = take_digits rest in if is_digit b then (b ∷ front, back) else ([], b ∷ rest)

-- An i128, then its sign, then an i64.
unfoldable pub to_int : Bool → Text → Result Canonical CanonError
to_int negative digits =
    let n = value_from 0 digits in
    if leb (2 ^ 127) n
    then err (integer_too_large digits)
    else if negative
    then (if n == 0
        then ok (int (pos 0))
        else if leb n (2 ^ 63)
        then ok (int (negsuc (n - 1)))
        else err (integer_too_large (b'-' ∷ digits)))
    else if ltb n (2 ^ 63)
    then ok (int (pos n))
    else err (integer_too_large digits)

abbrev pub is_float : ℕ → Bool
is_float b = b == b'.' || b == b'e' || b == b'E'

-- Behind the digits.
unfoldable pub finish_number : Bool → Text → Parse Canonical
finish_number negative digits s =
    if sees is_float s
    then err (float_not_allowed (position s))
    else elim (to_int negative digits) [ err e ↦ err e | ok v ↦ ok (v, s) ]

-- Behind the sign.
unfoldable pub parse_digits : ℕ → Bool → Parse Canonical
parse_digits start negative (at [] p d) = err (invalid_number start)
parse_digits start negative (at (b ∷ rest) p d) =
    let (front, back) = take_digits rest in
    if b == b'0'
    then (if sees is_digit (at rest (p + 1) d)
        then err (invalid_number (p + 1))
        else finish_number negative (b ∷ []) (at rest (p + 1) d))
    else if leb b'1' b && leb b b'9'
    then finish_number negative (b ∷ front) (at back (p + 1 + length front) d)
    else err (invalid_number start)

unfoldable pub parse_number : Parse Canonical
unfolding take_digits to_int finish_number parse_digits value_from
parse_number (at [] p d) = err (invalid_number p)
parse_number (at (b ∷ rest) p d) =
    if b == b'-'
    then parse_digits p true (at rest (p + 1) d)
    else parse_digits p false (at (b ∷ rest) p d)

unfoldable pub hex_value : ℕ → Option ℕ
hex_value b =
    if is_digit b
    then some (b - b'0')
    else if leb b'a' b && leb b b'f'
    then some (b - 87)
    else if leb b'A' b && leb b b'F'
    then some (b - 55)
    else none

-- `value << 4` in a u16 drops what four digits cannot reach.
unfoldable pub read_hex : ℕ → ℕ → ℕ → Parse ℕ
read_hex start zero value s = ok (value, s)
read_hex start (suc n) value s = elim (bump s) [
  | err e ↦ err e
  | ok (b, s') ↦ elim (hex_value b) [
    | none ↦ err (invalid_unicode_escape start)
    | some digit ↦ read_hex start n (value * 16 % 65536 + digit) s'
  ]
]

unfoldable pub read_hex4 : Parse ℕ
unfolding read_hex bump
read_hex4 s = read_hex (position s) 4 0 s

-- Behind a high surrogate.
unfoldable pub low_surrogate : ℕ → ℕ → Parse Text
low_surrogate esc_pos high = do
  slash ← bump
  letter ← (if slash == b'\\' then bump else fail (invalid_unicode_escape esc_pos))
  second ← (if letter == b'u' then read_hex4 else fail (invalid_unicode_escape esc_pos))
  if leb 0xdc00 second && leb second 0xdfff
      then pure (encode_utf8 (0x10000 + (high - 0xd800) * 0x400 + (second - 0xdc00)))
      else fail (invalid_unicode_escape esc_pos)

unfoldable pub unicode_escape : ℕ → ℕ → Parse Text
unicode_escape esc_pos first =
    if leb 0xd800 first && leb first 0xdbff
    then low_surrogate esc_pos first
    else if leb 0xdc00 first && leb first 0xdfff
    then fail (invalid_unicode_escape esc_pos)
    else pure (encode_utf8 first)

-- The byte that a one-letter escape stands for.
unfoldable pub simple_escape : ℕ → Option ℕ
simple_escape letter =
    if letter == b'"'
    then some b'"'
    else if letter == b'\\'
    then some b'\\'
    else if letter == b'/'
    then some b'/'
    else if letter == b'b'
    then some 0x08
    else if letter == b'f'
    then some 0x0c
    else if letter == b'n'
    then some 0x0a
    else if letter == b'r'
    then some 0x0d
    else if letter == b't'
    then some 0x09
    else none

-- The bytes that an escape stands for, from the letter on.
unfoldable pub escaped : ℕ → ℕ → Parse Text
unfolding simple_escape low_surrogate unicode_escape read_hex4 bump encode_utf8
escaped esc_pos letter s = elim (simple_escape letter) [
  | some b ↦ ok (b ∷ [], s)
  | none ↦
      (if letter == b'u'
          then (read_hex4 >>= unicode_escape esc_pos)
          else fail (invalid_escape esc_pos))
        s
]

unfoldable pub parse_escape : Parse Text
unfolding bump escaped
parse_escape s = (bump >>= escaped (position s)) s

-- What one byte of a string adds, if it does not end the string.
unfoldable pub string_piece : ℕ → Parse Text
string_piece b s =
    if b == b'\\'
    then parse_escape s
    else if ltb b 0x20
    then err (unexpected_byte b (position s - 1))
    else ok (b ∷ [], s)

unfoldable pub parse_chars : ℕ → Parse Text
parse_chars zero s = err out_of_fuel
parse_chars (suc f) s = elim (bump s) [
  | err e ↦ err e
  | ok (b, s') ↦
      if b == b'"'
      then ok ([], s')
      else (string_piece b >>= λ piece. parse_chars f >>= λ more. pure (piece ++ more)) s'
]

abbrev pub left : Parser → List ℕ
left (at rest p d) = rest

-- Each round takes a byte or more, so the fuel is what is left.
unfoldable pub parse_string : Parse Text
unfolding string_piece parse_chars bump parse_escape
parse_string s =
    (do
      skip_one
      bytes ← parse_chars (suc (length (left s)))
      if is_utf8 bytes then pure bytes else fail invalid_utf8)
      s

-- `byte => return Err(UnexpectedByte { byte, offset: self.pos - 1 })`
unfoldable pub bad_byte : {A : Type 0} → ℕ → Parse A
bad_byte b s = err (unexpected_byte b (position s - 1))

-- A key, or the byte that should have opened it.
unfoldable pub parse_key : Parse Text
parse_key s = if sees (◌==◌ b'"') s then parse_string s else elim (peek s) [
  | none ↦ err (unexpected_byte 0 (position s))
  | some b ↦ err (unexpected_byte b (position s))
]

unfoldable pub expect_colon : Parse (Unit {0})
expect_colon = do b ← bump; if b == b':' then pure tt else bad_byte b
