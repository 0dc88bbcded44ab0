-- ===== src/Routing/Destination/Wire.antt =====
-- Destinations as canonical values and bytes.
use my_websocket_net.Prelude.{◌≡◌, ◌<◌, ◌≤◌, refl, sym, ap, ◌∙◌, true, none, some, arith, lt→ltb}
use my_websocket_net.Prelude.Text.{text, same_text, text_ltb}
use my_websocket_net.Prelude.Utf8.{is_utf8}
use my_websocket_net.Prelude.Decimal.{parse_unsigned-to_decimal, to_decimal-IsUtf8}
use my_websocket_net.Prelude.Result.{Result, ok, ◌>>=◌, >>=-eq-ok}
use my_websocket_net.Limits.{u64_max}
use my_websocket_net.Protocol.Canon.{
  Canonical, IsValue, get_str, get_i64, get_u64, collect, put, u64_decimal, max_canon_depth,
}
use my_websocket_net.Protocol.Canon.Nesting.{nesting}
use my_websocket_net.Protocol.Canon.Unique.{to_bytes-injective}
use my_websocket_net.Routing.Destination.{
  Destination, DestinationError, validate, to_canonical, from_canonical, read_destination,
  canonical_bytes, or_err, empty_host,
}

-- The values that the Rust type holds.
abbrev pub IsDestination : Destination → Type 0
IsDestination (Destination.address host port) = (is_utf8 host ≡ true) × (port < 65536)
IsDestination (Destination.service node name none) = (is_utf8 node ≡ true) × (is_utf8 name ≡ true)
IsDestination (Destination.service node name (some revision)) =
    (is_utf8 node ≡ true) × (is_utf8 name ≡ true) × (revision ≤ u64_max)
IsDestination (Destination.node_address node host port) =
    (is_utf8 node ≡ true) × (is_utf8 host ≡ true) × (port < 65536)

-- A destination that passes validation is read back from its canonical value.
pub from_canonical-to_canonical :
    (d : Destination)
    → IsDestination d
    → validate d ≡ ok tt
    → from_canonical (to_canonical d) ≡ ok d
unfolding from_canonical to_canonical collect put text_ltb same_text get_str get_i64 get_u64
    read_destination u64_decimal
from_canonical-to_canonical (Destination.address host port) good valid =
    rw (lt→ltb port 65536 good.1, valid) refl
from_canonical-to_canonical (Destination.service node name none) good valid = rw valid refl
from_canonical-to_canonical (Destination.service node name (some revision)) good valid =
    let reads = parse_unsigned-to_decimal u64_max revision good.2 in rw (reads, valid) refl
from_canonical-to_canonical (Destination.node_address node host port) good valid =
    rw (lt→ltb port 65536 good.2, valid) refl

to_canonical-IsValue : (d : Destination) → IsDestination d → IsValue (to_canonical d)
unfolding to_canonical collect put text_ltb same_text is_utf8 IsValue u64_decimal
to_canonical-IsValue (Destination.address host port) good =
    ((refl, (refl, tt)), (refl, good.0, (refl, omega arith, (refl, refl, tt))))
to_canonical-IsValue (Destination.service node name none) good =
    ((refl, (refl, tt)), (refl, good.1, (refl, good.0, (refl, refl, tt))))
to_canonical-IsValue (Destination.service node name (some revision)) good = (
  (refl, (refl, (refl, tt))),
  (refl, good.1, (refl, good.0, (refl, to_decimal-IsUtf8 revision, (refl, refl, tt)))),
)
to_canonical-IsValue (Destination.node_address node host port) good = (
  (refl, (refl, (refl, tt))),
  (refl, good.1, (refl, good.0, (refl, omega arith, (refl, refl, tt)))),
)

to_canonical-nesting : (d : Destination) → nesting (to_canonical d) ≤ max_canon_depth
unfolding to_canonical collect put text_ltb same_text nesting u64_decimal
to_canonical-nesting (Destination.address host port) = omega arith
to_canonical-nesting (Destination.service node name none) = omega arith
to_canonical-nesting (Destination.service node name (some revision)) = omega arith
to_canonical-nesting (Destination.node_address node host port) = omega arith

ok_injective :
    {d e : Destination} → ◌≡◌ {A = Result Destination DestinationError} (ok d) (ok e) → d ≡ e
ok_injective h = cc

-- The canonical bytes of a destination, which go into the hash of an operation, determine it: two
-- destinations that pass validation and have the same bytes are the same.
pub canonical_bytes-injective :
    (d e : Destination)
    → IsDestination d
    → IsDestination e
    → validate d ≡ ok tt
    → validate e ≡ ok tt
    → canonical_bytes d ≡ canonical_bytes e
    → d ≡ e
unfolding canonical_bytes
canonical_bytes-injective d e good good' valid valid' same =
    let value =
      to_bytes-injective (to_canonical d) (to_canonical e) (to_canonical-IsValue d good)
        (to_canonical-IsValue e good') (to_canonical-nesting d) (to_canonical-nesting e) same in
    ok_injective (
      sym (from_canonical-to_canonical d good valid)
      ∙ ap from_canonical value
      ∙ from_canonical-to_canonical e good' valid')

-- Whatever `from_canonical` accepts has passed validation.
pub from_canonical-validate :
    (v : Canonical) (d : Destination) → from_canonical v ≡ ok d → validate d ≡ ok tt
unfolding from_canonical
from_canonical-validate v d accepted =
    let typed = or_err (get_str v (text "type")) empty_host in
    let (type, t, rest) =
      >>=-eq-ok typed (λ type. read_destination type v >>= λ e. validate e >>= λ _. ok e)
        accepted in
    let (e, r, rest') = >>=-eq-ok (read_destination type v) (λ e. validate e >>= λ _. ok e) rest in
    let (u, valid, same) = >>=-eq-ok (validate e) (λ _. ok e) rest' in
    ap validate (sym (ok_injective same)) ∙ valid
