-- ===== src/Protocol/Record/Bounds.antt =====
-- Decoding any input.
use my_websocket_net.Prelude.{
  ℕ, ◌+◌, ◌≡◌, ◌≤◌, refl, sym, ap, subst, ◌∙◌, Bool-cases, inl, inr, Option-cases, some, List,
  arith, ltb, length, get_elem?, ltb→le,
}
use my_websocket_net.Prelude.Result.{Result, ok, err, Result-cases}
use my_websocket_net.Limits.{max_metadata, max_padding, max_record_plaintext}
use my_websocket_net.Bytes.{from_be_bytes, slice, slice-split}
use my_websocket_net.Protocol.Kind.{MessageKind, as_u8, from_u8, max_payload}
use my_websocket_net.Protocol.Kind.Numbers.{from_u8_iff}
use my_websocket_net.Protocol.Record.{
  MetadataFormat, RecordError, Record, take_field, decode_payload, decode_fields, decode_prefix,
}

module _ (format : MetadataFormat) where
  -- The payload is what the kind allows, the padding short, and the end not behind the input's.
  pub record IsBounded (input : List ℕ) (kind : MessageKind) (r : Record format) (consumed : ℕ)
      : Type 0 where
    pub of_kind : r.kind ≡ kind
    pub short_payload : length r.payload ≤ max_payload kind
    pub short_padding : r.padding_len ≤ max_padding
    pub inside : consumed ≤ length input

  abbrev Holds : List ℕ → MessageKind → Result (Record format × ℕ) (RecordError format) → Type 0
  Holds input kind (ok (r, consumed)) = IsBounded input kind r consumed
  Holds input kind (err e) = Unit {0}

  decode_payload-IsBounded :
      (input : List ℕ) (cursor : ℕ) (kind : MessageKind) (metadata : format.Canonical)
      (r : Record format) (consumed : ℕ)
      → decode_payload format input cursor kind metadata ≡ ok (r, consumed)
      → IsBounded input kind r consumed
  unfolding decode_payload take_field
  decode_payload-IsBounded input cursor kind metadata r consumed h =
      elim (Option-cases (slice input cursor 4)) [
        | inl gone ↦ absurd (ground (arith, gone, h))
        | inr (a, is_a) ↦
            let len = from_be_bytes 0 a in
            elim (Bool-cases (ltb (max_payload kind) len)) [
              | inl long ↦ absurd (ground (arith, is_a, long, h))
              | inr small ↦ elim (Option-cases (slice input (cursor + 4) len)) [
                | inl gone ↦ absurd (ground (arith, is_a, small, gone, h))
                | inr (p, is_p) ↦ elim (Option-cases (slice input (cursor + 4 + len) 2)) [
                  | inl gone ↦ absurd (ground (arith, is_a, small, is_p, gone, h))
                  | inr (b, is_b) ↦
                      let pad = from_be_bytes 0 b in
                      elim (Bool-cases (ltb max_padding pad)) [
                        | inl long ↦ absurd (ground (arith, is_a, small, is_p, is_b, long, h))
                        | inr low ↦ elim (Option-cases (slice input (cursor + 4 + len + 2) pad)) [
                          | inl gone ↦
                              absurd (ground (arith, is_a, small, is_p, is_b, low, gone, h))
                          | inr (z, is_z) ↦
                              let r' : Record format = record {
                                kind = kind;
                                metadata = metadata;
                                payload = p;
                                padding_len = pad;
                              } in
                              let read : decode_payload format input cursor kind metadata
                                  ≡ ok (r', cursor + 4 + len + 2 + pad) =
                                rw (is_a, small, is_p, is_b, low, is_z) refl in
                              subst (Holds input kind) (sym read ∙ h) (record {
                                of_kind = refl;
                                short_payload = omega (
                                  arith,
                                  ltb→le _ _ small,
                                  slice-split input p (cursor + 4) len is_p,
                                );
                                short_padding = ltb→le _ _ low;
                                inside =
                                    omega
                                      (arith, slice-split input z (cursor + 4 + len + 2) pad is_z);
                              })
                        ]
                      ]
                ]
              ]
            ]
      ]

  decode_fields-IsBounded :
      (input : List ℕ) (kind : MessageKind) (r : Record format) (consumed : ℕ)
      → decode_fields format input kind ≡ ok (r, consumed)
      → IsBounded input kind r consumed
  unfolding decode_fields take_field
  decode_fields-IsBounded input kind r consumed h = elim (Option-cases (slice input 1 4)) [
    | inl gone ↦ absurd (ground (arith, gone, h))
    | inr (a, is_a) ↦ elim (Bool-cases (ltb max_metadata (from_be_bytes 0 a))) [
      | inl long ↦ absurd (ground (arith, is_a, long, h))
      | inr small ↦ elim (Option-cases (slice input 5 (from_be_bytes 0 a))) [
        | inl gone ↦ absurd (ground (arith, is_a, small, gone, h))
        | inr (text, is_text) ↦ elim (Result-cases (format.from_bytes_bounded text)) [
          | inr (e, refused) ↦ absurd (ground (arith, is_a, small, is_text, refused, h))
          | inl (metadata, read) ↦
              decode_payload-IsBounded input (5 + from_be_bytes 0 a) kind metadata r consumed
                (ground (arith, is_a, small, is_text, read, h))
        ]
      ]
    ]
  ]

  -- Whatever bytes are decoded: a record that comes out has the kind of the first byte, no more
  -- payload than its kind allows and no more padding than the bound, and what it took is part of the
  -- input, which is itself within the bound of a record.
  pub decode_prefix-IsBounded :
      (input : List ℕ) (r : Record format) (consumed : ℕ)
      → decode_prefix format input ≡ ok (r, consumed)
      → (get_elem? input 0 ≡ some (as_u8 r.kind))
        × IsBounded input r.kind r consumed
        × (length input ≤ max_record_plaintext)
  unfolding decode_prefix
  decode_prefix-IsBounded input r consumed h =
      elim (Bool-cases (ltb max_record_plaintext (length input))) [
        | inl long ↦ absurd (ground (arith, long, h))
        | inr small ↦ elim (Option-cases (get_elem? input 0)) [
          | inl gone ↦ absurd (ground (arith, small, gone, h))
          | inr (byte, is_byte) ↦ elim (Option-cases (from_u8 byte)) [
            | inl unknown ↦ absurd (ground (arith, small, is_byte, unknown, h))
            | inr (kind, is_kind) ↦
                let v =
                  decode_fields-IsBounded input kind r consumed
                    (ground (arith, small, is_byte, is_kind, h)) in
                let same = v.of_kind in
                (
                  is_byte ∙ ap some (sym (ap as_u8 same ∙ (from_u8_iff byte kind).0 is_kind)),
                  subst (λ k. IsBounded input k r consumed) (sym same) v,
                  ltb→le _ _ small,
                )
          ]
        ]
      ]
