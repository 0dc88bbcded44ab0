-- ===== src/Routing/Destination/Tests.antt =====
-- Runs of the destination codec, and its theorems at concrete inputs.
use my_websocket_net.Prelude.{◌≡◌, refl, Bool, true, false, none, some, List, [], ◌∷◌, arith}
use my_websocket_net.Prelude.Text.{text, same_text, text_ltb}
use my_websocket_net.Prelude.Utf8.{is_utf8}
use my_websocket_net.Prelude.Decimal.{parse_unsigned}
use my_websocket_net.Prelude.Result.{ok, err}
use my_websocket_net.Protocol.Canon.{
  int, str, pos, object_of, collect, put, get_str, get_i64, get_u64,
}
use my_websocket_net.Routing.Destination.{
  Destination, is_slug, validate, zero_port, from_canonical, to_canonical, read_destination,
}
use my_websocket_net.Routing.Destination.Wire.{
  from_canonical-to_canonical, canonical_bytes-injective,
}

slugs :
    ◌≡◌ {A = List Bool}
      (is_slug (text "node-1")
        ∷ is_slug (text "..")
        ∷ is_slug (text "a/b")
        ∷ is_slug (text "")
        ∷ [])
      (true ∷ false ∷ false ∷ false ∷ [])
unfolding is_slug
slugs = refl

abbrev pinned : Destination
pinned = Destination.service (text "node-1") (text "web") (some 7)

-- A stray host and port, of the wrong type at that, and a revision that is no number: all are ignored.
ignores_stray_fields :
    from_canonical (
      object_of (
        (text "type", str (text "service"))
        ∷ (text "node", str (text "node-1"))
        ∷ (text "name", str (text "web"))
        ∷ (text "host", int (pos 1))
        ∷ (text "port", str (text "x"))
        ∷ (text "revision", str (text "seven"))
        ∷ []))
    ≡ ok (Destination.service (text "node-1") (text "web") none)
unfolding from_canonical collect put text_ltb same_text get_str get_i64 get_u64 read_destination
    validate is_slug parse_unsigned
ignores_stray_fields = refl

wide_port :
    from_canonical (
      object_of (
        (text "type", str (text "address"))
        ∷ (text "host", str (text "h"))
        ∷ (text "port", int (pos 65536))
        ∷ []))
    ≡ err zero_port
unfolding from_canonical collect put text_ltb same_text get_str get_i64 get_u64 read_destination
    validate
wide_port = refl

pinned_is_valid : validate pinned ≡ ok tt
unfolding validate is_slug
pinned_is_valid = refl

reads_pinned : from_canonical (to_canonical pinned) ≡ ok pinned
reads_pinned =
    from_canonical-to_canonical pinned (unfold is_utf8 in refl, unfold is_utf8 in refl, omega arith)
      pinned_is_valid

from_canonical-to_canonical_example : from_canonical (to_canonical pinned) ≡ ok pinned
from_canonical-to_canonical_example =
    from_canonical-to_canonical pinned (unfold is_utf8 in refl, unfold is_utf8 in refl, omega arith)
      pinned_is_valid

canonical_bytes-injective_example : pinned ≡ pinned
canonical_bytes-injective_example =
    canonical_bytes-injective pinned pinned
      (unfold is_utf8 in refl, unfold is_utf8 in refl, omega arith)
      (unfold is_utf8 in refl, unfold is_utf8 in refl, omega arith) pinned_is_valid pinned_is_valid
      refl
