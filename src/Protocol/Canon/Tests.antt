-- ===== src/Protocol/Canon/Tests.antt =====
-- Runs of the canonical codec, and its theorems at concrete inputs.
use my_websocket_net.Prelude.{ℕ, zero, suc, ◌≡◌, ◌≢◌, ◌≤◌, ◌↔◌, refl, true, [], ◌∷◌, arith, length}
use my_websocket_net.Prelude.Text.{text, text_ltb, same_text}
use my_websocket_net.Prelude.Utf8.{is_utf8}
use my_websocket_net.Prelude.Decimal.{to_decimal, digits}
use my_websocket_net.Prelude.Result.{ok, err}
use my_websocket_net.Limits.{max_metadata}
use my_websocket_net.Protocol.Canon.{
  too_deep, out_of_fuel, duplicate_key, float_not_allowed, invalid_number, Canonical, null, int,
  str, array, object, nil, cons, end, field, negsuc, put, holds_key, IsValue, write, write_chars,
  write_char, write_json_string, print_int, to_bytes, depth,
}
use my_websocket_net.Protocol.Canon.Nesting.{nesting}
use my_websocket_net.Protocol.Canon.Parser.{
  enter, skip_ws, bump, expect_literal, bad_byte, parse_key, expect_colon, parse_string,
  parse_number, hex_value,
}
use my_websocket_net.Protocol.Canon.Values.{
  from_bytes_bounded, parse_value, scalar_or, open_with, parse_name, add_entry, continues, finish,
  is_canonical,
}
use my_websocket_net.Protocol.Canon.RoundTrip.{from_bytes_bounded-to_bytes}
use my_websocket_net.Protocol.Canon.Accepted.{accepted-IsValue, from_bytes_bounded-ends}
use my_websocket_net.Protocol.Canon.Unique.{to_bytes-injective, is_canonical_iff, IsCanonical}

-- {"a":[-5,"x\n"],"b":null}
abbrev sample : Canonical
sample = object (
    field (text "a") (array (cons (int (negsuc 4)) (cons (str (b'x' ∷ 10 ∷ [])) nil)))
      (field (text "b") null end))

prints : to_bytes sample ≡ text "{\"a\":[-5,\"x\\n\"],\"b\":null}"
unfolding write write_json_string write_chars write_char print_int to_decimal digits
prints = refl

parses : from_bytes_bounded (text " {\"b\": null,\"a\":[ -5,\"\\u0078\\n\"]} ") 100 ≡ ok sample
unfolding from_bytes_bounded parse_value scalar_or open_with parse_name parse_key expect_colon
    bad_byte parse_string skip_ws bump enter expect_literal parse_number add_entry continues put
    holds_key finish same_text text_ltb is_utf8 hex_value
parses = refl

twice : from_bytes_bounded (text "{\"a\":1,\"a\":2}") 100 ≡ err (duplicate_key (text "a"))
unfolding from_bytes_bounded parse_value scalar_or open_with parse_name parse_key expect_colon
    bad_byte parse_string skip_ws bump enter expect_literal parse_number add_entry continues put
    holds_key finish same_text text_ltb is_utf8
twice = refl

float : from_bytes_bounded (text "1.0") 100 ≡ err (float_not_allowed 1)
unfolding from_bytes_bounded parse_value scalar_or skip_ws parse_number
float = refl

leading_zero : from_bytes_bounded (text "01") 100 ≡ err (invalid_number 1)
unfolding from_bytes_bounded parse_value scalar_or skip_ws parse_number
leading_zero = refl

nested : ℕ → Canonical → Canonical
nested zero v = v
nested (suc n) v = array (cons (nested n v) nil)

-- Sixteen arrays around a scalar are a depth of 17 by `depth`, and are accepted.
accepts_depth_17 :
    (depth (nested 16 null) ≡ 17)
    × (from_bytes_bounded (to_bytes (nested 16 null)) 100 ≡ ok (nested 16 null))
unfolding nested depth write from_bytes_bounded parse_value scalar_or open_with skip_ws enter
    expect_literal same_text continues bump finish
accepts_depth_17 = (refl, refl)

-- Seventeen arrays are written by `to_bounded_bytes`, and are not read back.
writes_what_it_refuses : from_bytes_bounded (to_bytes (nested 17 null)) 100 ≡ err too_deep
unfolding nested write from_bytes_bounded parse_value scalar_or open_with skip_ws enter
writes_what_it_refuses = refl

sample-IsValue : IsValue sample
unfolding IsValue text_ltb is_utf8
sample-IsValue = ((refl, tt), (refl, ((omega arith), (refl, tt)), (refl, tt, tt)))

sample-nesting : nesting sample ≤ 16
unfolding nesting
sample-nesting = omega arith

sample-length : length (to_bytes sample) ≤ 100
sample-length = rw prints (omega arith)

from_bytes_bounded-to_bytes_example : from_bytes_bounded (to_bytes sample) 100 ≡ ok sample
from_bytes_bounded-to_bytes_example =
    from_bytes_bounded-to_bytes sample 100 sample-IsValue sample-nesting sample-length

accepted-IsValue_example : IsValue sample × (nesting sample ≤ 16)
accepted-IsValue_example =
    accepted-IsValue (text " {\"b\": null,\"a\":[ -5,\"\\u0078\\n\"]} ") 100 sample parses

from_bytes_bounded-ends_example : from_bytes_bounded (text "[[") 100 ≢ err out_of_fuel
from_bytes_bounded-ends_example = from_bytes_bounded-ends (text "[[") 100

to_bytes-injective_example : sample ≡ sample
to_bytes-injective_example =
    to_bytes-injective sample sample sample-IsValue sample-IsValue sample-nesting sample-nesting
      refl

is_canonical_iff_example :
    (is_canonical (text "[1]") ≡ ok true)
    ↔ (IsCanonical (text "[1]") × (length (text "[1]") ≤ max_metadata))
is_canonical_iff_example = is_canonical_iff (text "[1]")
