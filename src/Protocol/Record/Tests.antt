-- ===== src/Protocol/Record/Tests.antt =====
-- Runs of the record codec on canonical metadata, and its theorems at concrete inputs.
use my_websocket_net.Prelude.{ℕ, ◌≡◌, ◌≤◌, refl, arith, List, [], ◌∷◌, ◌++◌, length}
use my_websocket_net.Prelude.Result.{ok, err}
use my_websocket_net.Limits.{max_record_plaintext}
use my_websocket_net.Bytes.{slice}
use my_websocket_net.Protocol.Kind.{data_bytes, ping, as_u8, from_u8, max_payload}
use my_websocket_net.Protocol.Record.{
  Record, payload_too_large, encode, decode, encoded_len, decode_prefix, decode_fields,
  decode_payload, take_field, validate_against, total_len, encode_into,
}
use my_websocket_net.Protocol.Canon.{object, end, to_bounded_bytes, write, IsValue}
use my_websocket_net.Protocol.Canon.Nesting.{nesting}
use my_websocket_net.Protocol.Canon.Parser.{enter, skip_ws}
use my_websocket_net.Protocol.Canon.Values.{
  from_bytes_bounded, parse_value, scalar_or, open_with, finish,
}
use my_websocket_net.Protocol.Record.Metadata.{canonical_metadata, IsShallow}
use my_websocket_net.Protocol.Record.Framing.{decode-encode_record}

abbrev hello : Record canonical_metadata
hello = record { kind = data_bytes; metadata = object end; payload = 7 ∷ []; padding_len = 1 }

empty_object : IsShallow (object end)
unfolding IsValue nesting
empty_object = ((tt, tt), omega arith)

abbrev bytes : List ℕ
bytes = 16 ∷ 0 ∷ 0 ∷ 0 ∷ 2 ∷ 123 ∷ 125 ∷ 0 ∷ 0 ∷ 0 ∷ 1 ∷ 7 ∷ 0 ∷ 1 ∷ 0 ∷ []

encodes : encode canonical_metadata hello ≡ ok bytes
unfolding encode validate_against total_len encode_into as_u8 max_payload to_bounded_bytes write
encodes = refl

refuses_a_payload :
    decode canonical_metadata (13 ∷ 0 ∷ 0 ∷ 0 ∷ 2 ∷ 123 ∷ 125 ∷ 0 ∷ 0 ∷ 0 ∷ 1 ∷ 7 ∷ 0 ∷ 0 ∷ [])
    ≡ err (payload_too_large ping 1 0)
unfolding decode decode_prefix decode_fields decode_payload take_field slice from_u8 max_payload
    from_bytes_bounded parse_value scalar_or open_with enter skip_ws finish
refuses_a_payload = refl

decodes_a_prefix : decode_prefix canonical_metadata (bytes ++ 9 ∷ []) ≡ ok (hello, 15)
unfolding decode_prefix decode_fields decode_payload take_field slice from_u8 max_payload
    from_bytes_bounded parse_value scalar_or open_with enter skip_ws finish
decodes_a_prefix = refl

decode-encode_record_example :
    (decode canonical_metadata bytes ≡ ok hello)
    × (encoded_len canonical_metadata hello ≡ ok (length bytes))
    × (length bytes ≤ max_record_plaintext)
decode-encode_record_example =
    decode-encode_record canonical_metadata hello bytes empty_object encodes
