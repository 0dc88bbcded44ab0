-- ===== src/Protocol/Record/Payload.antt =====
-- Decoding the payload and the padding that were written.
use my_websocket_net.Prelude.{
  ℕ, ◌+◌, ◌%◌, ◌≡◌, ◌≤◌, subst, ◌∙◌, some, List, ◌++◌, arith, length, replicate, drop,
  length-replicate, le→ltb,
}
use my_websocket_net.Prelude.Result.{ok}
use my_websocket_net.Limits.{max_padding}
use my_websocket_net.Bytes.{
  u16_to_be_bytes, u32_to_be_bytes, from_be_bytes, slice, slice-drop, from_be_bytes-u32,
  from_be_bytes-u16,
}
use my_websocket_net.Protocol.Kind.{MessageKind, max_payload}
use my_websocket_net.Protocol.Kind.Numbers.{max_payload_le}
use my_websocket_net.Protocol.Record.{MetadataFormat, Record, take_field, decode_payload}

module _ (format : MetadataFormat) where
  -- The payload and the padding, when each field is there.
  decode_payload_there :
      (input : List ℕ) (cursor : ℕ) (kind : MessageKind) (metadata : format.Canonical)
      (payload_bytes payload padding_bytes padding : List ℕ) (padding_len : ℕ)
      → slice input cursor 4 ≡ some payload_bytes
      → from_be_bytes 0 payload_bytes ≡ length payload
      → length payload ≤ max_payload kind
      → slice input (cursor + 4) (length payload) ≡ some payload
      → slice input (cursor + 4 + length payload) 2 ≡ some padding_bytes
      → from_be_bytes 0 padding_bytes ≡ padding_len
      → padding_len ≤ max_padding
      → slice input (cursor + 4 + length payload + 2) padding_len ≡ some padding
      → decode_payload format input cursor kind metadata
        ≡ ok (
          record { kind = kind; metadata = metadata; payload = payload; padding_len = padding_len },
          cursor + 4 + length payload + 2 + padding_len,
        )
  unfolding decode_payload take_field
  decode_payload_there input cursor kind metadata payload_bytes payload padding_bytes padding
        padding_len a len small b c pad low d =
      rw (
        a,
        len,
        le→ltb (max_payload kind) (length payload) small,
        b,
        c,
        pad,
        le→ltb max_padding padding_len low,
        d,
      )

  pub decode_payload-written :
      (input : List ℕ) (cursor : ℕ) (r : Record format) (more : List ℕ)
      → cursor ≤ length input
      → length r.payload ≤ max_payload r.kind
      → r.padding_len ≤ max_padding
      → drop cursor input
        ≡ u32_to_be_bytes (length r.payload % 4294967296)
          ++ (r.payload ++ (u16_to_be_bytes r.padding_len ++ (replicate r.padding_len 0 ++ more)))
      → decode_payload format input cursor r.kind r.metadata
        ≡ ok (r, cursor + 4 + length r.payload + 2 + r.padding_len)
  decode_payload-written input cursor r more inside small low here =
      let n = length r.payload % 4294967296 in
      let same : n ≡ length r.payload = omega (arith, small, max_payload_le r.kind) in
      let zeros : List ℕ = replicate r.padding_len 0 in
      let (a, after_len, in_len) = slice-drop input (u32_to_be_bytes n) _ cursor inside here in
      let (b, after_payload, in_payload) =
        slice-drop input r.payload _ (cursor + 4) in_len after_len in
      let (c, after_padding, in_padding) =
        slice-drop input (u16_to_be_bytes r.padding_len) _ (cursor + 4 + length r.payload)
          in_payload after_payload in
      let (d, _, _) =
        slice-drop input zeros more (cursor + 4 + length r.payload + 2) in_padding after_padding in
      decode_payload_there input cursor r.kind r.metadata (u32_to_be_bytes n) r.payload
        (u16_to_be_bytes r.padding_len) zeros r.padding_len a
        (from_be_bytes-u32 n (omega (arith, same, small, max_payload_le r.kind)) ∙ same) small b c
        (from_be_bytes-u16 r.padding_len (omega arith)) low
        (subst (λ k. slice input (cursor + 4 + length r.payload + 2) k ≡ some zeros)
          (length-replicate r.padding_len 0) d)
