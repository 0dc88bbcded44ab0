-- ===== src/Bytes.antt =====
-- Big-endian numbers and slices of byte strings, as `to_be_bytes`, `from_be_bytes` and `get` of Rust's
-- standard library have them. A byte is a number under 256.
use my_websocket_net.Prelude.{
  ℕ, ◌+◌, ◌*◌, ◌/◌, ◌%◌, ◌≤◌, ◌<◌, ◌≡◌, ap, ◌∙◌, Option, none, some, List, [], ◌∷◌, ◌++◌, arith,
  leb, if◌then◌else◌, length, take, drop, All, take-append_exact, drop-append_exact, length-drop,
  length-append, drop-drop, take-append-drop, le→leb, leb→le, Bool-cases, inl, inr,
  length-take_exact, sym,
}
use my_websocket_net.Prelude.Result.{Result, ok, err}

abbrev pub u16_to_be_bytes : ℕ → List ℕ
u16_to_be_bytes n = n / 256 % 256 ∷ n % 256 ∷ []

abbrev pub u32_to_be_bytes : ℕ → List ℕ
u32_to_be_bytes n = n / 16777216 % 256 ∷ n / 65536 % 256 ∷ n / 256 % 256 ∷ n % 256 ∷ []

abbrev pub from_be_bytes : ℕ → List ℕ → ℕ
from_be_bytes high [] = high
from_be_bytes high (b ∷ bs) = from_be_bytes (high * 256 + b) bs

abbrev pub IsByte : ℕ → Type 0
IsByte b = b < 256

-- `input.get(cursor..cursor + len)`.
unfoldable pub slice : List ℕ → ℕ → ℕ → Option (List ℕ)
slice input cursor len =
    if leb (cursor + len) (length input) then some (take len (drop cursor input)) else none

-- `ok_or`, and `?` behind it.
abbrev pub ok_or : {A E : Type 0} → Option A → E → Result A E
ok_or none e = err e
ok_or (some a) e = ok a

pub from_be_bytes-u32 : (n : ℕ) → n < 4294967296 → from_be_bytes 0 (u32_to_be_bytes n) ≡ n
from_be_bytes-u32 n h = omega arith

pub from_be_bytes-u16 : (n : ℕ) → n < 65536 → from_be_bytes 0 (u16_to_be_bytes n) ≡ n
from_be_bytes-u16 n h = omega arith

pub u32-from_be_bytes :
    (bytes : List ℕ)
    → length bytes ≡ 4
    → All IsByte bytes
    → (u32_to_be_bytes (from_be_bytes 0 bytes) ≡ bytes) × (from_be_bytes 0 bytes < 4294967296)
u32-from_be_bytes (a ∷ b ∷ c ∷ d ∷ []) h (ha, (hb, (hc, (hd, _)))) = (ground arith, omega arith)
u32-from_be_bytes (a ∷ b ∷ c ∷ d ∷ e ∷ more) h all = absurd (omega arith)
u32-from_be_bytes _ h all = absurd (omega arith)

-- What a slice is, seen from where it starts.
pub slice-drop :
    (input front back : List ℕ) (cursor : ℕ)
    → cursor ≤ length input
    → drop cursor input ≡ front ++ back
    → (slice input cursor (length front) ≡ some front)
      × (drop (cursor + length front) input ≡ back)
      × (cursor + length front ≤ length input)
unfolding slice
slice-drop input front back cursor inside here =
    let fits : cursor + length front ≤ length input =
      omega (arith, inside, length-drop cursor input, ap length here, length-append front back) in
    (
      rw (le→leb (cursor + length front) (length input) fits) (
          ap (λ rest. some (take (length front) rest)) here
          ∙ ap some (take-append_exact front back)),
      sym (drop-drop (length front) cursor input)
          ∙ ap (drop (length front)) here
          ∙ drop-append_exact front back,
      fits,
    )

-- What a slice that is there says of the input.
pub slice-split :
    (input out : List ℕ) (cursor len : ℕ)
    → slice input cursor len ≡ some out
    → (length out ≡ len)
      × (drop cursor input ≡ out ++ drop (cursor + len) input)
      × (cursor + len ≤ length input)
unfolding slice
slice-split input out cursor len there = elim (Bool-cases (leb (cursor + len) (length input))) [
  | inr beyond ↦ absurd (ground (arith, there, beyond))
  | inl fits ↦
      let rest = drop cursor input in
      let taken : take len rest ≡ out = ground (arith, there, fits) in
      let inside = leb→le (cursor + len) (length input) fits in
      (
        ap length (sym taken)
            ∙ length-take_exact len rest (omega (arith, inside, length-drop cursor input)),
        sym (take-append-drop len rest)
            ∙ ap (λ front. front ++ drop len rest) taken
            ∙ ap (λ back. out ++ back) (drop-drop len cursor input),
        inside,
      )
]
