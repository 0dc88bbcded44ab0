-- ===== src/Transport/Post.antt =====
-- crates/wsnet-transport/src/post.rs: the body of a POST, a list of envelopes behind their lengths.
-- A byte is a number under 256, a `Vec<u8>` the list of its bytes.
pub mod Codec
pub mod Canonical
mod Tests
use my_websocket_net.Prelude.{
  ℕ, zero, suc, ◌+◌, ◌-◌, ◌*◌, ◌%◌, ◌≡◌, refl, Bool, true, false, Option, none, some, List, [], ◌∷◌,
  ◌++◌, arith, ltb, leb, if◌then◌else◌, length,
}
use my_websocket_net.Prelude.Result.{Result, ok, err, ◌>>=◌, ◌>>◌, refuse}
use my_websocket_net.Limits.{max_carrier_record, max_post_batch_bytes, max_post_batch_records}
use my_websocket_net.Transport.Error.{
  CarrierError, too_many_records, body_too_large, envelope_too_large, truncated,
}
use my_websocket_net.Bytes.{u32_to_be_bytes, from_be_bytes, slice, ok_or}

-- The loop that sums up the lengths.
pub add_up : ℕ → List (List ℕ) → Result ℕ CarrierError
add_up total [] = ok total
add_up total (envelope ∷ envelopes) = do
  refuse (ltb max_carrier_record (length envelope))
      (envelope_too_large (length envelope) max_carrier_record)
  add_up (total + (4 + length envelope)) envelopes

-- The loop that writes them; `as u32` drops the high bits of a length.
pub write_all : List (List ℕ) → List ℕ
write_all [] = []
write_all (envelope ∷ envelopes) =
    u32_to_be_bytes (length envelope % 4294967296) ++ (envelope ++ write_all envelopes)

pub encode : List (List ℕ) → Result (List ℕ) CarrierError
encode envelopes = do
  refuse (ltb max_post_batch_records (length envelopes))
      (too_many_records (length envelopes) max_post_batch_records)
  total ← add_up 0 envelopes
  refuse (ltb max_post_batch_bytes total) (body_too_large total max_post_batch_bytes)
  ok (write_all envelopes)

-- The loop of `decode`. `left` is how many envelopes may still come, the limit less those that are
-- there.
pub decode_from : ℕ → ℕ → List ℕ → Result (List (List ℕ)) CarrierError
decode_from zero cursor body =
    if leb (length body) cursor
    then ok []
    else err (too_many_records (max_post_batch_records + 1) max_post_batch_records)
decode_from (suc left) cursor body = elim (leb (length body) cursor) [
  | true ↦ ok []
  | false ↦ do
    header ← ok_or (slice body cursor 4) (truncated "envelope_len")
    let len = from_be_bytes 0 header
    refuse (ltb max_carrier_record len) (envelope_too_large len max_carrier_record)
    envelope ← ok_or (slice body (cursor + 4) len) (truncated "envelope")
    envelopes ← decode_from left (cursor + 4 + len) body
    ok (envelope ∷ envelopes)
]

pub decode : List ℕ → Result (List (List ℕ)) CarrierError
decode body = do
  refuse (ltb max_post_batch_bytes (length body))
      (body_too_large (length body) max_post_batch_bytes)
  decode_from max_post_batch_records 0 body
