-- ===== src/Transport/Post/Codec.antt =====
-- Decoding what was encoded.
use my_websocket_net.Prelude.{
  ℕ, zero, suc, ◌+◌, ◌%◌, ◌≡◌, ◌≤◌, ◌<◌, sym, ap, ◌∙◌, Bool-cases, inl, inr, false, Option-cases,
  some, List, [], ◌∷◌, ◌++◌, arith, ltb, leb, length, drop, All, length-append, length-drop, ltb→le,
  le→ltb, le→leb,
}
use my_websocket_net.Prelude.Result.{ok, Result-cases}
use my_websocket_net.Limits.{max_carrier_record, max_post_batch_bytes, max_post_batch_records}
use my_websocket_net.Bytes.{u32_to_be_bytes, from_be_bytes, slice, slice-drop, from_be_bytes-u32}
use my_websocket_net.Transport.Post.{add_up, write_all, encode, decode, decode_from}

abbrev pub IsSmall : List ℕ → Type 0
IsSmall envelope = length envelope ≤ max_carrier_record

add_up-IsSmall :
    (total sum : ℕ) (es : List (List ℕ))
    → add_up total es ≡ ok sum
    → All IsSmall es × (sum ≡ total + length (write_all es))
unfolding add_up write_all
add_up-IsSmall total sum [] h = (tt, ground (arith, h))
add_up-IsSmall total sum (e ∷ es) h = elim (Bool-cases (ltb max_carrier_record (length e))) [
  | inl long ↦ absurd (ground (arith, long, h))
  | inr fits ↦
      let (small, is) = add_up-IsSmall (total + (4 + length e)) sum es (ground (arith, fits, h)) in
      ((ltb→le _ _ fits, small), omega (arith, is, length-append e (write_all es)))
]

-- Small envelopes are added up to the length of what is written.
pub add_up-write_all :
    (total : ℕ) (es : List (List ℕ))
    → All IsSmall es
    → add_up total es ≡ ok (total + length (write_all es))
unfolding add_up write_all
add_up-write_all total [] small = ap ok (omega arith)
add_up-write_all total (e ∷ es) small = rw (le→ltb max_carrier_record (length e) small.0) (
    add_up-write_all (total + (4 + length e)) es small.1
    ∙ ap ok (omega (arith, length-append e (write_all es))))

decode_from_end :
    (left cursor : ℕ) (body : List ℕ) → length body ≤ cursor → decode_from left cursor body ≡ ok []
unfolding decode_from
decode_from_end zero cursor body h = rw (le→leb (length body) cursor h)
decode_from_end (suc left) cursor body h = rw (le→leb (length body) cursor h, decode_from)

-- One envelope, if nothing is wrong with it.
decode_from_more :
    (left cursor : ℕ) (body header envelope : List ℕ) (envelopes : List (List ℕ))
    → cursor < length body
    → slice body cursor 4 ≡ some header
    → from_be_bytes 0 header ≡ length envelope
    → IsSmall envelope
    → slice body (cursor + 4) (length envelope) ≡ some envelope
    → decode_from left (cursor + 4 + length envelope) body ≡ ok envelopes
    → decode_from (suc left) cursor body ≡ ok (envelope ∷ envelopes)
unfolding decode_from
decode_from_more left cursor body header envelope envelopes inside h len small e rest =
    let more : leb (length body) cursor ≡ false = ground (arith, inside) in
    rw (more, decode_from, h, len, le→ltb max_carrier_record (length envelope) small, e, rest)

decode_from-write_all :
    (es : List (List ℕ)) (left cursor : ℕ) (body : List ℕ)
    → All IsSmall es
    → length es ≤ left
    → cursor ≤ length body
    → drop cursor body ≡ write_all es
    → decode_from left cursor body ≡ ok es
unfolding decode_from write_all
decode_from-write_all [] left cursor body small few inside here =
    decode_from_end left cursor body (omega (arith, ap length here, length-drop cursor body))
decode_from-write_all (e ∷ es) zero cursor body small few inside here = absurd (omega arith)
decode_from-write_all (e ∷ es) (suc left) cursor body small few inside here =
    let n = length e % 4294967296 in
    let same : n ≡ length e = omega (arith, small.0) in
    let (header, there, inside') =
      slice-drop body (u32_to_be_bytes n) (e ++ write_all es) cursor inside here in
    let (envelope, behind, inside'') =
      slice-drop body e (write_all es) (cursor + 4) inside' there in
    decode_from_more left cursor body (u32_to_be_bytes n) e es (omega (arith, inside')) header
      (from_be_bytes-u32 n (omega arith) ∙ same) small.0 envelope
      (decode_from-write_all es left (cursor + 4 + length e) body small.1 (omega arith) inside''
        behind)

-- What was encoded is decoded to the same envelopes, in the same order.
pub decode-encode : (es : List (List ℕ)) (body : List ℕ) → encode es ≡ ok body → decode body ≡ ok es
unfolding encode decode
decode-encode es body h = elim (Bool-cases (ltb max_post_batch_records (length es))) [
  | inl many ↦ absurd (ground (arith, many, h))
  | inr few ↦ elim (Result-cases (add_up 0 es)) [
    | inr (e, refused) ↦ absurd (ground (arith, few, refused, h))
    | inl (total, summed) ↦ elim (Bool-cases (ltb max_post_batch_bytes total)) [
      | inl large ↦ absurd (ground (arith, few, summed, large, h))
      | inr fits ↦
          let (small, is) = add_up-IsSmall 0 total es summed in
          let written : write_all es ≡ body = ground (arith, few, summed, fits, h) in
          let bounded : ltb max_post_batch_bytes (length body) ≡ false =
            le→ltb _ _ (omega (arith, ltb→le _ _ fits, is, ap length written)) in
          rw bounded (
            decode_from-write_all es max_post_batch_records 0 body small (ltb→le _ _ few)
              (omega arith) (sym written))
    ]
  ]
]

pub All-front : (P : ℕ → Type 0) (front back : List ℕ) → All P (front ++ back) → All P front
All-front P [] back all = tt
All-front P (x ∷ front) back all = (all.0, All-front P front back all.1)

pub All-drop : (P : ℕ → Type 0) (n : ℕ) (xs : List ℕ) → All P xs → All P (drop n xs)
All-drop P zero xs all = all
All-drop P (suc n) [] all = tt
All-drop P (suc n) (x ∷ xs) all = All-drop P n xs all.1

-- What a round of the loop has read when it does not fail.
pub record Round (left cursor : ℕ) (body : List ℕ) (es : List (List ℕ)) : Type 0 where
  pub header : List ℕ
  pub envelope : List ℕ
  pub envelopes : List (List ℕ)
  pub has_header : slice body cursor 4 ≡ some header
  pub small : from_be_bytes 0 header ≤ max_carrier_record
  pub has_envelope : slice body (cursor + 4) (from_be_bytes 0 header) ≡ some envelope
  pub rest : decode_from left (cursor + 4 + from_be_bytes 0 header) body ≡ ok envelopes
  pub all : es ≡ envelope ∷ envelopes

pub decode_from-Round :
    (left cursor : ℕ) (body : List ℕ) (es : List (List ℕ))
    → leb (length body) cursor ≡ false
    → decode_from (suc left) cursor body ≡ ok es
    → Round left cursor body es
unfolding decode_from
decode_from-Round left cursor body es more h = elim (Option-cases (slice body cursor 4)) [
  | inl none_there ↦ absurd (ground (arith, more, none_there, h))
  | inr (header, there) ↦ elim (Bool-cases (ltb max_carrier_record (from_be_bytes 0 header))) [
    | inl large ↦ absurd (ground (arith, more, there, large, h))
    | inr fits ↦ elim (Option-cases (slice body (cursor + 4) (from_be_bytes 0 header))) [
      | inl missing ↦ absurd (ground (arith, more, there, fits, missing, h))
      | inr (envelope, found) ↦
          elim (Result-cases (decode_from left (cursor + 4 + from_be_bytes 0 header) body)) [
            | inr (e, failed) ↦ absurd (ground (arith, more, there, fits, found, failed, h))
            | inl (envelopes, rest) ↦ record {
              header = header;
              envelope = envelope;
              envelopes = envelopes;
              has_header = there;
              small = ltb→le _ _ fits;
              has_envelope = found;
              rest = rest;
              all = ground (arith, more, there, fits, found, rest, h);
            }
          ]
    ]
  ]
]
