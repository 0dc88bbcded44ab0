-- ===== src/Protocol/Canon/Values.antt =====
-- crates/wsnet-protocol/src/canon.rs: parsing arrays, objects and whole inputs.
use my_websocket_net.Prelude.{
  ℕ, zero, suc, ◌+◌, ◌*◌, Bool, true, false, List, [], ◌∷◌, ◌||◌, ltb, ◌==◌, if◌then◌else◌, length,
}
use my_websocket_net.Prelude.Text.{Text, text, same_text}
use my_websocket_net.Prelude.Decimal.{is_digit}
use my_websocket_net.Prelude.Result.{Result, ok, err}
use my_websocket_net.Limits.{max_metadata}
use my_websocket_net.Protocol.Canon.{
  CanonError, too_large, trailing_data, unexpected_end, unexpected_byte, duplicate_key, out_of_fuel,
  Canonical, null, bool, str, array, object, Items, nil, cons, Fields, end, put, holds_key,
  to_bytes,
}
use my_websocket_net.Protocol.Canon.Parser.{
  Parser, at, Parse, ◌>>=◌, ◌>>◌, pure, fail, sees, bump, skip_one, skip_ws, expect_literal, enter,
  leave, parse_number, parse_string, bad_byte, parse_key, expect_colon,
}

-- The value that the next byte announces; arrays and objects are the caller's.
unfoldable pub scalar_or : Parse Canonical → Parse Canonical → Parse Canonical
scalar_or parse_array parse_object (at [] p d) = err (unexpected_end p)
scalar_or parse_array parse_object (at (b ∷ rest) p d) =
    let s = at (b ∷ rest) p d in
    if b == b'n'
    then expect_literal (text "null") null s
    else if b == b't'
    then expect_literal (text "true") (bool true) s
    else if b == b'f'
    then expect_literal (text "false") (bool false) s
    else if b == b'"'
    then (parse_string >>= λ bytes. pure (str bytes)) s
    else if b == b'['
    then parse_array s
    else if b == b'{'
    then parse_object s
    else if b == b'-' || is_digit b
    then parse_number s
    else err (unexpected_byte b p)

-- `self.peek() == Some(close)`
abbrev pub peeks : ℕ → Parse Bool
peeks close s = ok (sees (◌==◌ close) s, s)

-- `[` or `{`, and whether the closing byte follows at once.
unfoldable pub open_with : ℕ → Parse Bool
open_with close = do
  enter
  skip_one
  skip_ws
  closed ← peeks close
  if closed then (skip_one >>= λ _. leave >>= λ _. pure true) else pure false

-- `key`, `:` and the white space around them.
unfoldable pub parse_name : Parse Text
parse_name = do skip_ws; key ← parse_key; skip_ws; expect_colon; skip_ws; pure key

-- `map.insert(key.clone(), value)`, refused if there was one.
unfoldable pub add_entry : Text → Canonical → Fields → Parse Fields
add_entry key value fs =
    if holds_key key fs then fail (duplicate_key key) else pure (put key value fs)

-- Whether another item follows, behind a value.
unfoldable pub continues : ℕ → Parse Bool
continues close = do
  skip_ws
  b ← bump
  if b == b',' then pure true else if b == close then pure false else bad_byte b

unfoldable mutual
  pub parse_value : ℕ → Parse Canonical
  parse_value zero s = err out_of_fuel
  parse_value (suc f) s = scalar_or (parse_array f) (parse_object f) s

  pub parse_array : ℕ → Parse Canonical
  parse_array zero s = err out_of_fuel
  parse_array (suc f) s =
      (do
        empty ← open_with b']'
        if empty
            then pure (array nil)
            else (parse_items f >>= λ items. leave >>= λ _. pure (array items)))
        s

  pub parse_items : ℕ → Parse Items
  parse_items zero s = err out_of_fuel
  parse_items (suc f) s =
      (do
        skip_ws
        v ← parse_value f
        more ← continues b']'
        if more then (parse_items f >>= λ items. pure (cons v items)) else pure (cons v nil))
        s

  pub parse_object : ℕ → Parse Canonical
  parse_object zero s = err out_of_fuel
  parse_object (suc f) s =
      (do
        empty ← open_with b'}'
        if empty
            then pure (object end)
            else (parse_fields f end >>= λ fs. leave >>= λ _. pure (object fs)))
        s

  pub parse_fields : ℕ → Fields → Parse Fields
  parse_fields zero fs s = err out_of_fuel
  parse_fields (suc f) fs s =
      (do
        key ← parse_name
        v ← parse_value f
        fs' ← add_entry key v fs
        more ← continues b'}'
        if more then parse_fields f fs' else pure fs')
        s

-- `parser.pos != input.len()`
unfoldable pub finish : Canonical → Parser → Result Canonical CanonError
finish v (at [] p d) = ok v
finish v (at (b ∷ rest) p d) = err (trailing_data p)

-- The fuel of a whole input.
abbrev pub enough : List ℕ → ℕ
enough input = 4 * length input + 4

unfoldable pub parse_whole : List ℕ → Result Canonical CanonError
parse_whole input = elim ((skip_ws >>= λ _. parse_value (enough input)) (at input 0 0)) [
  | err e ↦ err e
  | ok (v, s) ↦ elim (skip_ws s) [ err e ↦ err e | ok (_, s') ↦ finish v s' ]
]

unfoldable pub from_bytes_bounded : List ℕ → ℕ → Result Canonical CanonError
unfolding parse_whole
from_bytes_bounded input limit =
    if ltb limit (length input) then err (too_large (length input) limit) else parse_whole input

unfoldable pub from_bytes : List ℕ → Result Canonical CanonError
from_bytes input = from_bytes_bounded input max_metadata

unfoldable pub is_canonical : List ℕ → Result Bool CanonError
is_canonical input = elim (from_bytes input) [
  | err e ↦ err e
  | ok v ↦ ok (same_text (to_bytes v) input)
]
