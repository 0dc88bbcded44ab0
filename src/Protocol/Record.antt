-- ===== src/Protocol/Record.antt =====
-- crates/wsnet-protocol/src/record.rs: the framing of a record. The canonical metadata comes in through
-- an interface, which Record/Metadata fills with the parser of canon.rs. A byte is a number under 256; the sum of a cursor and a 32-bit length does
-- not pass the largest usize.
pub mod Payload
pub mod Framing
pub mod Bounds
pub mod Metadata
mod Tests
use Prim.Native.String.{String}
use my_websocket_net.Prelude.{
  ℕ, zero, suc, ◌+◌, ◌-◌, ◌%◌, ◌≡◌, ◌≤◌, refl, Bool, not, Option, none, some, List, [], ◌∷◌, ◌++◌,
  arith, ltb, ◌==◌, if◌then◌else◌, length, replicate, get_elem?,
}
use my_websocket_net.Prelude.Result.{Result, ok, err, ◌>>=◌, ◌>>◌, refuse}
use my_websocket_net.Limits.{max_metadata, max_padding, max_record_plaintext}
use my_websocket_net.Bytes.{u16_to_be_bytes, u32_to_be_bytes, from_be_bytes, slice, ok_or}
use my_websocket_net.Protocol.Kind.{MessageKind, as_u8, from_u8, max_payload}

-- What records need of `Canonical`: `to_bounded_bytes`, `from_bytes_bounded` at `MAX_METADATA`, and
-- which values are read back once they were written.
pub record MetadataFormat : Type 1 where
  pub Canonical : Type 0
  pub CanonError : Type 0
  pub to_bounded_bytes : Canonical → Result (List ℕ) CanonError
  pub from_bytes_bounded : List ℕ → Result Canonical CanonError
  pub IsReadable : Canonical → Type 0
  pub reads_back :
      (m : Canonical) (bytes : List ℕ)
      → IsReadable m
      → to_bounded_bytes m ≡ ok bytes
      → from_bytes_bounded bytes ≡ ok m

abbrev pub record_overhead : ℕ
record_overhead = 1 + 4 + 4 + 2

module _ (format : MetadataFormat) where
  pub data RecordError : Type 0 where
    too_large : ℕ → ℕ → RecordError
    metadata_too_large : ℕ → RecordError
    payload_too_large : MessageKind → ℕ → ℕ → RecordError
    padding_too_large : ℕ → RecordError
    truncated : String → RecordError
    unknown_kind : ℕ → RecordError
    metadata_invalid : format.CanonError → RecordError
    trailing_data : ℕ → RecordError

  pub record Record : Type 0 where
    pub kind : MessageKind
    pub metadata : format.Canonical
    pub payload : List ℕ
    pub padding_len : ℕ

  abbrev pub new : MessageKind → format.Canonical → Record
  new kind metadata = record { kind = kind; metadata = metadata; payload = []; padding_len = 0 }

  abbrev pub with_payload : MessageKind → format.Canonical → List ℕ → Record
  with_payload kind metadata payload = record {
    kind = kind;
    metadata = metadata;
    payload = payload;
    padding_len = 0;
  }

  -- `?` on an error of `Canonical`.
  abbrev pub lift : {A : Type 0} → Result A format.CanonError → Result A RecordError
  lift (ok a) = ok a
  lift (err e) = err (metadata_invalid e)

  pub total_len : Record → List ℕ → ℕ
  total_len r metadata = record_overhead + length metadata + length r.payload + r.padding_len

  pub validate_against : Record → List ℕ → Result (Unit {0}) RecordError
  validate_against r metadata = do
    refuse (ltb max_metadata (length metadata)) (metadata_too_large (length metadata))
    refuse (ltb (max_payload r.kind) (length r.payload))
        (payload_too_large r.kind (length r.payload) (max_payload r.kind))
    refuse (ltb max_padding r.padding_len) (padding_too_large r.padding_len)
    refuse (ltb max_record_plaintext (total_len r metadata))
        (too_large (total_len r metadata) max_record_plaintext)

  pub encoded_len : Record → Result ℕ RecordError
  encoded_len r = do
    metadata ← lift (format.to_bounded_bytes r.metadata)
    validate_against r metadata
    ok (total_len r metadata)

  -- What is appended to the buffer; `as u32` drops the high bits of a length.
  pub encode_into : Record → List ℕ → List ℕ
  encode_into r metadata =
      (as_u8 r.kind ∷ [])
      ++ (u32_to_be_bytes (length metadata % 4294967296)
          ++ (metadata
              ++ (u32_to_be_bytes (length r.payload % 4294967296)
                  ++ (r.payload ++ (u16_to_be_bytes r.padding_len ++ replicate r.padding_len 0)))))

  pub encode : Record → Result (List ℕ) RecordError
  encode r = do
    metadata ← lift (format.to_bounded_bytes r.metadata)
    validate_against r metadata
    ok (encode_into r metadata)

  unfoldable pub encode_to : Record → List ℕ → Result (List ℕ) RecordError
  encode_to r out = do
    metadata ← lift (format.to_bounded_bytes r.metadata)
    validate_against r metadata
    ok (out ++ encode_into r metadata)

  -- `take`, without the new cursor, which lies `len` further.
  pub take_field : List ℕ → ℕ → ℕ → String → Result (List ℕ) RecordError
  take_field input cursor len field = ok_or (slice input cursor len) (truncated field)

  -- The payload and the padding, from `cursor` on.
  pub decode_payload : List ℕ → ℕ → MessageKind → format.Canonical → Result (Record × ℕ) RecordError
  decode_payload input cursor kind metadata = do
    payload_bytes ← take_field input cursor 4 "payload_len"
    let payload_len = from_be_bytes 0 payload_bytes
    refuse (ltb (max_payload kind) payload_len)
        (payload_too_large kind payload_len (max_payload kind))
    payload ← take_field input (cursor + 4) payload_len "payload"
    padding_bytes ← take_field input (cursor + 4 + payload_len) 2 "padding_len"
    let padding_len = from_be_bytes 0 padding_bytes
    refuse (ltb max_padding padding_len) (padding_too_large padding_len)
    _ ← take_field input (cursor + 4 + payload_len + 2) padding_len "padding"
    ok (
      record { kind = kind; metadata = metadata; payload = payload; padding_len = padding_len },
      cursor + 4 + payload_len + 2 + padding_len,
    )

  -- What follows the kind.
  pub decode_fields : List ℕ → MessageKind → Result (Record × ℕ) RecordError
  decode_fields input kind = do
    metadata_bytes ← take_field input 1 4 "metadata_len"
    let metadata_len = from_be_bytes 0 metadata_bytes
    refuse (ltb max_metadata metadata_len) (metadata_too_large metadata_len)
    text ← take_field input (1 + 4) metadata_len "metadata"
    metadata ← lift (format.from_bytes_bounded text)
    decode_payload input (1 + 4 + metadata_len) kind metadata

  pub decode_prefix : List ℕ → Result (Record × ℕ) RecordError
  decode_prefix input = do
    refuse (ltb max_record_plaintext (length input)) (too_large (length input) max_record_plaintext)
    kind_byte ← ok_or (get_elem? input 0) (truncated "kind")
    kind ← ok_or (from_u8 kind_byte) (unknown_kind kind_byte)
    decode_fields input kind

  pub decode : List ℕ → Result Record RecordError
  decode input = do
    (r, consumed) ← decode_prefix input
    refuse (not (consumed == length input)) (trailing_data (length input - consumed))
    ok r
