-- ===== src/Transport/Post/Canonical.antt =====
-- Encoding what was decoded.
use my_websocket_net.Prelude.{
  ℕ, zero, suc, ◌+◌, ◌%◌, ◌≡◌, ◌≤◌, refl, sym, ap, subst, ◌∙◌, Bool-cases, inl, inr, false, List,
  [], ◌∷◌, ◌++◌, arith, ltb, leb, length, drop, All, leb→le, le→ltb, le→leb,
}
use my_websocket_net.Prelude.Result.{ok}
use my_websocket_net.Limits.{max_post_batch_bytes, max_post_batch_records}
use my_websocket_net.Bytes.{u32_to_be_bytes, from_be_bytes, slice-split, u32-from_be_bytes, IsByte}
use my_websocket_net.Transport.Post.{write_all, encode, decode, decode_from}
use my_websocket_net.Transport.Post.Codec.{
  Round, decode_from-Round, IsSmall, All-front, All-drop, add_up-write_all,
}

drop_all : (n : ℕ) (xs : List ℕ) → length xs ≤ n → drop n xs ≡ []
drop_all zero [] h = refl
drop_all zero (x ∷ xs) h = absurd (omega arith)
drop_all (suc n) [] h = refl
drop_all (suc n) (x ∷ xs) h = drop_all n xs (omega arith)

-- What the loop accepted, written out again.
record Rewritten (left cursor : ℕ) (body : List ℕ) (es : List (List ℕ)) : Type 0 where
  same : write_all es ≡ drop cursor body
  few : length es ≤ left
  small : All IsSmall es

decode_from-Rewritten_end :
    (left cursor : ℕ) (body : List ℕ) (es : List (List ℕ))
    → length body ≤ cursor
    → decode_from left cursor body ≡ ok es
    → Rewritten left cursor body es
unfolding decode_from write_all
decode_from-Rewritten_end left cursor body [] end h = record {
  same = sym (drop_all cursor body end);
  few = omega arith;
  small = tt;
}
decode_from-Rewritten_end zero cursor body (e ∷ es) end h =
    absurd (ground (arith, le→leb (length body) cursor end, h))
decode_from-Rewritten_end (suc left) cursor body (e ∷ es) end h =
    absurd (ground (arith, le→leb (length body) cursor end, h))

-- One round, and what comes after it.
Round-Rewritten :
    (left cursor : ℕ) (body : List ℕ) (es : List (List ℕ)) (r : Round left cursor body es)
    → All IsByte body
    → Rewritten left (cursor + 4 + from_be_bytes 0 r.header) body r.envelopes
    → Rewritten (suc left) cursor body es
unfolding write_all
Round-Rewritten left cursor body es r bytes after =
    let n = from_be_bytes 0 r.header in
    let (four, front, _) = slice-split body r.header cursor 4 r.has_header in
    let (long, back, _) = slice-split body r.envelope (cursor + 4) n r.has_envelope in
    let header_bytes =
      All-front IsByte r.header (drop (cursor + 4) body)
        (subst (All IsByte) front (All-drop IsByte cursor body bytes)) in
    let (again, bounded) = u32-from_be_bytes r.header four header_bytes in
    let len : length r.envelope % 4294967296 ≡ n = omega (arith, long, bounded) in
    record {
      same =
          ap write_all r.all
          ∙ ap (λ k. u32_to_be_bytes k ++ (r.envelope ++ write_all r.envelopes)) len
          ∙ ap (λ front. front ++ (r.envelope ++ write_all r.envelopes)) again
          ∙ ap (λ rest. r.header ++ (r.envelope ++ rest)) after.same
          ∙ ap (λ rest. r.header ++ rest) (sym back)
          ∙ sym front;
      few = omega (arith, after.few, ap length r.all);
      small = subst (All IsSmall) (sym r.all) (omega (arith, long, r.small), after.small);
    }

decode_from-Rewritten :
    (left cursor : ℕ) (body : List ℕ) (es : List (List ℕ))
    → All IsByte body
    → decode_from left cursor body ≡ ok es
    → Rewritten left cursor body es
unfolding decode_from
decode_from-Rewritten zero cursor body es bytes h = elim (Bool-cases (leb (length body) cursor)) [
  | inl end ↦ decode_from-Rewritten_end zero cursor body es (leb→le _ _ end) h
  | inr more ↦ absurd (ground (arith, more, h))
]
decode_from-Rewritten (suc left) cursor body es bytes h =
    elim (Bool-cases (leb (length body) cursor)) [
      | inl end ↦ decode_from-Rewritten_end (suc left) cursor body es (leb→le _ _ end) h
      | inr more ↦
          let r = decode_from-Round left cursor body es more h in
          Round-Rewritten left cursor body es r bytes (
            decode_from-Rewritten left (cursor + 4 + from_be_bytes 0 r.header) body r.envelopes
              bytes r.rest)
    ]

-- A body that is accepted is the only one: encoding the envelopes that were read gives it back.
pub encode-decode :
    (es : List (List ℕ)) (body : List ℕ)
    → All IsByte body
    → decode body ≡ ok es
    → encode es ≡ ok body
unfolding encode decode
encode-decode es body bytes h = elim (Bool-cases (ltb max_post_batch_bytes (length body))) [
  | inl large ↦ absurd (ground (arith, large, h))
  | inr fits ↦
      let r =
        decode_from-Rewritten max_post_batch_records 0 body es bytes (ground (arith, fits, h)) in
      let bounded : ltb max_post_batch_bytes (length (write_all es)) ≡ false = rw r.same fits in
      rw
        (
          le→ltb max_post_batch_records (length es) r.few,
          add_up-write_all 0 es r.small ∙ ap ok {y = length (write_all es)} (omega arith),
          bounded,
        )
        (ap ok r.same)
]
