-- ===== src/Protocol/Canon/Accepted/Maps.antt =====
-- An object stays in order when an entry is put into it.
use my_websocket_net.Prelude.{ℕ, ◌+◌, ◌≡◌, ◌≤◌, ap, subst, true, false, arith, Bool-cases, inl, inr}
use my_websocket_net.Prelude.Text.{
  Text, same_text, text_ltb, text_ltb-total, same_text_sound, same_text_refl,
}
use my_websocket_net.Prelude.Utf8.{is_utf8}
use my_websocket_net.Protocol.Canon.{
  Canonical, Fields, end, field, put, IsValue, AreFields, Ascending, Above,
}
use my_websocket_net.Protocol.Canon.Nesting.{nesting, nesting_fields}

-- A value that fits below the depth where the parser stands.
abbrev pub Shallow : ℕ → Canonical → Type 0
Shallow d v = nesting v + d ≤ 16

same_text-false : (s t : Text) → same_text s t ≡ false → same_text t s ≡ false
same_text-false s t h = elim (Bool-cases (same_text t s)) [
  | inr e ↦ e
  | inl e ↦
      absurd (ground (arith, same_text_refl t, ap (λ x. same_text x t) (same_text_sound t s e)))
]

-- `put` keeps an ordered map ordered.
Above-put :
    (low key : Text) (v : Canonical) (fs : Fields)
    → text_ltb low key ≡ true
    → Above low fs
    → Above low (put key v fs)
unfolding put
Above-put low key v end less above = (less, tt)
Above-put low key v (field k w fs) less above = elim (Bool-cases (text_ltb key k)) [
  | inl first ↦ rw first (less, (first, above.1))
  | inr later ↦ elim (Bool-cases (same_text k key)) [
    | inl same ↦
        let k≡key = same_text_sound k key same in
        rw (later, same) (less, subst (λ x. Above x fs) k≡key above.1)
    | inr other ↦
        rw (later, other)
          (
            above.0,
            Above-put k key v fs (text_ltb-total key k later (same_text-false k key other)) above.1,
          )
  ]
]

pub Ascending-put :
    (key : Text) (v : Canonical) (fs : Fields) → Ascending fs → Ascending (put key v fs)
unfolding put
Ascending-put key v end up = tt
Ascending-put key v (field k w fs) up = elim (Bool-cases (text_ltb key k)) [
  | inl first ↦ rw first (first, up)
  | inr later ↦ elim (Bool-cases (same_text k key)) [
    | inl same ↦ rw (later, same) (subst (λ x. Above x fs) (same_text_sound k key same) up)
    | inr other ↦
        rw (later, other)
          (Above-put k key v fs (text_ltb-total key k later (same_text-false k key other)) up)
  ]
]

pub put-values :
    (key : Text) (v : Canonical) (fs : Fields) (d : ℕ)
    → is_utf8 key ≡ true
    → IsValue v
    → Shallow d v
    → AreFields fs
    → nesting_fields fs + d ≤ 16
    → AreFields (put key v fs) × (nesting_fields (put key v fs) + d ≤ 16)
unfolding put IsValue nesting
put-values key v end d valid value shallow others room = ((valid, value, tt), omega arith)
put-values key v (field k w fs) d valid value shallow others room =
    elim (Bool-cases (text_ltb key k)) [
      | inl first ↦ rw first ((valid, value, others), omega arith)
      | inr later ↦ elim (Bool-cases (same_text k key)) [
        | inl same ↦ rw (later, same) ((valid, value, others.2), omega arith)
        | inr other ↦
            let ih = put-values key v fs d valid value shallow others.2 (omega arith) in
            rw (later, other) ((others.0, others.1, ih.0), omega (arith, ih.1))
      ]
    ]
