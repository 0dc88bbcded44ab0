-- ===== src/Protocol/Canon/Unique.antt =====
-- Which bytes are the canonical form of a value.
use my_websocket_net.Prelude.{
  ℕ, ◌≡◌, ◌≤◌, ◌↔◌, refl, sym, ap, ◌∙◌, subst, Bool, true, List, arith, ltb, length, Bool-cases,
  inl, inr, ltb→le,
}
use my_websocket_net.Prelude.Text.{same_text, same_text_sound, same_text_refl}
use my_websocket_net.Prelude.Result.{Result, ok, err, Result-cases}
use my_websocket_net.Limits.{max_metadata}
use my_websocket_net.Protocol.Canon.{CanonError, Canonical, IsValue, to_bytes, max_canon_depth}
use my_websocket_net.Protocol.Canon.Nesting.{nesting}
use my_websocket_net.Protocol.Canon.Values.{from_bytes, from_bytes_bounded, is_canonical}
use my_websocket_net.Protocol.Canon.RoundTrip.{from_bytes_bounded-to_bytes}
use my_websocket_net.Protocol.Canon.Accepted.{accepted-IsValue}

ok_injective : {v w : Canonical} → ◌≡◌ {A = Result Canonical CanonError} (ok v) (ok w) → v ≡ w
ok_injective h = cc

-- Two values of the Rust type, nested at most 16 deep, with the same canonical bytes are the same value.
pub to_bytes-injective :
    (v w : Canonical)
    → IsValue v
    → IsValue w
    → nesting v ≤ max_canon_depth
    → nesting w ≤ max_canon_depth
    → to_bytes v ≡ to_bytes w
    → v ≡ w
to_bytes-injective v w valid valid' shallow shallow' same =
    let limit = length (to_bytes v) in
    ok_injective (
      sym (from_bytes_bounded-to_bytes v limit valid shallow (omega arith))
      ∙ ap (λ t. from_bytes_bounded t limit) same
      ∙ from_bytes_bounded-to_bytes w limit valid' shallow' (omega (arith, ap length same)))

-- What `is_canonical` is to find out: the bytes are those of some value.
abbrev pub IsCanonical : List ℕ → Type 0
IsCanonical input =
    (v : Canonical) × IsValue v × (nesting v ≤ max_canon_depth) × (to_bytes v ≡ input)

parsed_canonical :
    (input : List ℕ) (v : Canonical)
    → from_bytes input ≡ ok v
    → is_canonical input ≡ ok (same_text (to_bytes v) input)
unfolding is_canonical
parsed_canonical input v parsed =
    ap {A = Result Canonical CanonError} {B = Result Bool CanonError}
      (λ r. elim r [ err e ↦ err e | ok w ↦ ok (same_text (to_bytes w) input) ]) parsed

not_parsed :
    (input : List ℕ) (e : CanonError) → from_bytes input ≡ err e → is_canonical input ≡ err e
unfolding is_canonical
not_parsed input e parsed =
    ap {A = Result Canonical CanonError} {B = Result Bool CanonError}
      (λ r. elim r [ err e' ↦ err e' | ok w ↦ ok (same_text (to_bytes w) input) ]) parsed

from_bytes_lem : (input : List ℕ) → from_bytes input ≡ from_bytes_bounded input max_metadata
unfolding from_bytes
from_bytes_lem input = refl

fits_limit :
    (input : List ℕ) (v : Canonical) → from_bytes input ≡ ok v → length input ≤ max_metadata
unfolding from_bytes from_bytes_bounded
fits_limit input v parsed = elim (Bool-cases (ltb max_metadata (length input))) [
  | inl long ↦ absurd (ground (arith, parsed, long))
  | inr fits ↦ ltb→le max_metadata (length input) fits
]

-- `is_canonical` says yes exactly to the canonical bytes of the values of the Rust type that are nested
-- at most 16 deep, up to the largest size of metadata.
pub is_canonical_iff :
    (input : List ℕ)
    → (is_canonical input ≡ ok true) ↔ (IsCanonical input × (length input ≤ max_metadata))
is_canonical_iff input = (left, right)
  where
    left : is_canonical input ≡ ok true → IsCanonical input × (length input ≤ max_metadata)
    left h = elim (Result-cases (from_bytes input)) [
      | inr (e, refused) ↦ absurd (cc (not_parsed input e refused))
      | inl (v, parsed) ↦
          let same : same_text (to_bytes v) input ≡ true = cc (parsed_canonical input v parsed) in
          let good = accepted-IsValue input max_metadata v (sym (from_bytes_lem input) ∙ parsed) in
          ((v, good.0, good.1, same_text_sound (to_bytes v) input same), fits_limit input v parsed)
    ]

    right : IsCanonical input × (length input ≤ max_metadata) → is_canonical input ≡ ok true
    right ((v, valid, shallow, written), fits) =
        let parsed : from_bytes (to_bytes v) ≡ ok v =
          from_bytes_lem (to_bytes v)
          ∙ from_bytes_bounded-to_bytes v max_metadata valid shallow
              (subst (λ t. length t ≤ max_metadata) (sym written) fits) in
        subst (λ t. is_canonical t ≡ ok true) written
          (parsed_canonical (to_bytes v) v parsed ∙ ap ok (same_text_refl (to_bytes v)))
