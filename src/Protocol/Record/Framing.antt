-- ===== src/Protocol/Record/Framing.antt =====
-- Decoding what `encode` writes.
use my_websocket_net.Prelude.{
  ℕ, ◌+◌, ◌%◌, ◌≡◌, ◌≤◌, refl, sym, ap, subst, ◌∙◌, true, inl, inr, some, List, [], ◌∷◌, ◌++◌,
  append_assoc, append-nil, arith, ◌==◌, length, replicate, get_elem?, length-append,
  length-replicate, le→ltb,
}
use my_websocket_net.Prelude.Result.{ok, Result-cases}
use my_websocket_net.Limits.{max_metadata, max_padding, max_record_plaintext}
use my_websocket_net.Bytes.{
  u16_to_be_bytes, u32_to_be_bytes, from_be_bytes, slice, slice-drop, from_be_bytes-u32,
}
use my_websocket_net.Protocol.Kind.{MessageKind, as_u8, max_payload}
use my_websocket_net.Protocol.Kind.Numbers.{from_u8-as_u8}
use my_websocket_net.Protocol.Record.{
  MetadataFormat, Record, total_len, validate_against, encode_into, encode, encoded_len, take_field,
  decode_payload, decode_fields, decode_prefix, decode,
}
use my_websocket_net.Protocol.Record.Payload.{decode_payload-written}

module _ (format : MetadataFormat) where
  pub record IsValid (r : Record format) (metadata : List ℕ) : Type 0 where
    pub short_metadata : length metadata ≤ max_metadata
    pub short_payload : length r.payload ≤ max_payload r.kind
    pub short_padding : r.padding_len ≤ max_padding
    pub short_total : total_len format r metadata ≤ max_record_plaintext

  validate_against-IsValid :
      (r : Record format) (metadata : List ℕ)
      → validate_against format r metadata ≡ ok tt
      → IsValid r metadata
  unfolding validate_against
  validate_against-IsValid r metadata h = record {
    short_metadata = ground (arith, h);
    short_payload = ground (arith, h);
    short_padding = ground (arith, h);
    short_total = ground (arith, h);
  }

  abbrev flat : Record format → List ℕ → List ℕ → List ℕ
  flat r text more =
      as_u8 r.kind
      ∷ (u32_to_be_bytes (length text % 4294967296)
          ++ (text
              ++ (u32_to_be_bytes (length r.payload % 4294967296)
                  ++ (r.payload
                      ++ (u16_to_be_bytes r.padding_len ++ (replicate r.padding_len 0 ++ more))))))

  encode_into-append :
      (r : Record format) (text more : List ℕ)
      → encode_into format r text ++ more ≡ flat r text more
  unfolding encode_into
  encode_into-append r text more =
      let zeros : List ℕ = replicate r.padding_len 0 in
      let len = u32_to_be_bytes (length r.payload % 4294967296) in
      let pad = u16_to_be_bytes r.padding_len in
      ap (λ t. as_u8 r.kind ∷ (u32_to_be_bytes (length text % 4294967296) ++ t))
        (append_assoc text (len ++ (r.payload ++ (pad ++ zeros))) more
          ∙ ap (λ t. text ++ (len ++ t)) (append_assoc r.payload (pad ++ zeros) more))

  length-encode_into :
      (r : Record format) (text : List ℕ)
      → length (encode_into format r text) ≡ total_len format r text
  unfolding encode_into total_len
  length-encode_into r text = omega (
    arith,
    length-append text (
        u32_to_be_bytes (length r.payload % 4294967296)
        ++ (r.payload ++ (u16_to_be_bytes r.padding_len ++ replicate r.padding_len 0))),
    length-append r.payload (u16_to_be_bytes r.padding_len ++ replicate r.padding_len 0),
    length-replicate {A = ℕ} r.padding_len 0,
  )

  decode_prefix_there :
      (input : List ℕ) (kind : MessageKind) (metadata : format.Canonical)
      (metadata_bytes text : List ℕ) (result : Record format × ℕ)
      → length input ≤ max_record_plaintext
      → get_elem? input 0 ≡ some (as_u8 kind)
      → slice input 1 4 ≡ some metadata_bytes
      → from_be_bytes 0 metadata_bytes ≡ length text
      → length text ≤ max_metadata
      → slice input 5 (length text) ≡ some text
      → format.from_bytes_bounded text ≡ ok metadata
      → decode_payload format input (5 + length text) kind metadata ≡ ok result
      → decode_prefix format input ≡ ok result
  unfolding decode_prefix decode_fields take_field
  decode_prefix_there input kind metadata metadata_bytes text result small a b len low c read d =
      rw (
        le→ltb max_record_plaintext (length input) small,
        a,
        from_u8-as_u8 kind,
        b,
        len,
        le→ltb max_metadata (length text) low,
        c,
        read,
        d,
      )

  decode_prefix-flat :
      (r : Record format) (text more : List ℕ)
      → IsValid r text
      → format.from_bytes_bounded text ≡ ok r.metadata
      → length (flat r text more) ≤ max_record_plaintext
      → decode_prefix format (flat r text more) ≡ ok (r, total_len format r text)
  unfolding total_len
  decode_prefix-flat r text more v read small =
      let input = flat r text more in
      let n = length text % 4294967296 in
      let same : n ≡ length text = omega (arith, v.short_metadata) in
      let (a, after_len, in_len) = slice-drop input (u32_to_be_bytes n) _ 1 (omega arith) refl in
      let (b, after_text, in_text) = slice-drop input text _ 5 in_len after_len in
      decode_prefix_there input r.kind r.metadata (u32_to_be_bytes n) text _ small refl a
        (from_be_bytes-u32 n (omega (arith, same, v.short_metadata)) ∙ same) v.short_metadata b read
        (decode_payload-written format input (5 + length text) r more in_text v.short_payload
            v.short_padding after_text
          ∙ ap (λ k. ok (r, k)) (omega arith))

  -- What `encode` returns was validated.
  encode-IsValid :
      (r : Record format) (bytes : List ℕ)
      → encode format r ≡ ok bytes
      → (text : List ℕ) × (format.to_bounded_bytes r.metadata ≡ ok text)
        × IsValid r text
        × (validate_against format r text ≡ ok tt)
        × (bytes ≡ encode_into format r text)
  unfolding encode
  encode-IsValid r bytes h = elim (Result-cases (format.to_bounded_bytes r.metadata)) [
    | inr (e, refused) ↦ absurd (ground (arith, refused, h))
    | inl (text, written) ↦ elim (Result-cases (validate_against format r text)) [
      | inr (e, refused) ↦ absurd (ground (arith, written, refused, h))
      | inl (u, valid) ↦ (
        text,
        written,
        validate_against-IsValid r text valid,
        valid,
        ground (arith, written, valid, h),
      )
    ]
  ]

  -- A record that was encoded, with any bytes behind it that still fit, is read back from the front,
  -- with the number of its bytes: provided that its metadata is readable.
  pub decode_prefix-encode :
      (r : Record format) (bytes more : List ℕ)
      → format.IsReadable r.metadata
      → encode format r ≡ ok bytes
      → length (bytes ++ more) ≤ max_record_plaintext
      → decode_prefix format (bytes ++ more) ≡ ok (r, length bytes)
  decode_prefix-encode r bytes more shallow h small =
      let (text, written, v, valid, is) = encode-IsValid r bytes h in
      let whole : bytes ++ more ≡ flat r text more =
        ap (λ b. b ++ more) is ∙ encode_into-append r text more in
      ap (decode_prefix format) whole
      ∙ decode_prefix-flat r text more v (format.reads_back r.metadata text shallow written)
          (omega (arith, small, ap length whole))
      ∙ ap (λ k. ok (r, k)) (sym (ap length is ∙ length-encode_into r text))

  same_as_self : (n : ℕ) → (n == n) ≡ true
  same_as_self n = ground arith

  -- A record that was encoded is decoded to the same record, and its bytes are as many as
  -- `encoded_len` says, within the bound of a record: provided that its metadata is readable.
  pub decode-encode_record :
      (r : Record format) (bytes : List ℕ)
      → format.IsReadable r.metadata
      → encode format r ≡ ok bytes
      → (decode format bytes ≡ ok r)
        × (encoded_len format r ≡ ok (length bytes))
        × (length bytes ≤ max_record_plaintext)
  unfolding decode encoded_len encode
  decode-encode_record r bytes shallow h =
      let (text, written, v, valid, is) = encode-IsValid r bytes h in
      let len : length bytes ≡ total_len format r text = ap length is ∙ length-encode_into r text in
      let small : length bytes ≤ max_record_plaintext = omega (arith, len, v.short_total) in
      let front : decode_prefix format bytes ≡ ok (r, length bytes) =
        subst (λ b. decode_prefix format b ≡ ok (r, length bytes)) (append-nil bytes)
          (decode_prefix-encode r bytes [] shallow h
            (omega (arith, small, ap length (append-nil bytes)))) in
      (rw (front, same_as_self (length bytes)) refl, rw (written, valid) (ap ok (sym len)), small)
