-- ===== src/Prelude/Utf8.antt =====
-- `String::from_utf8` and `char::encode_utf8` of Rust's standard library.
use my_websocket_net.Prelude.Tests.{ltb, leb, ◌==◌, if◌then◌else◌, Bool-cases}
use Prim.Native.Nat.{ℕ, zero, suc, ◌+◌, ◌/◌, ◌%◌}
use mathlib.Core.Path.{◌≡◌, refl, ap, ◌∙◌}
use mathlib.Core.Bool.{Bool, true, false, ◌&&◌}
use mathlib.Core.Option.{Option, none, some}
use mathlib.Core.List.{List, [], ◌∷◌}
use mathlib.Core.Logic.{inl, inr}
use native.Mathlib.Omega.{arith}

-- After a first byte: how many bytes follow, and the range of the next one.
lead : ℕ → Option (ℕ × ℕ × ℕ)
lead b =
    if ltb b 0x80
    then some (0, 0, 0)
    else if ltb b 0xc2
    then none
    else if ltb b 0xe0
    then some (1, 0x80, 0xbf)
    else if b == 0xe0
    then some (2, 0xa0, 0xbf)
    else if b == 0xed
    then some (2, 0x80, 0x9f)
    else if ltb b 0xf0
    then some (2, 0x80, 0xbf)
    else if b == 0xf0
    then some (3, 0x90, 0xbf)
    else if ltb b 0xf4
    then some (3, 0x80, 0xbf)
    else if b == 0xf4
    then some (3, 0x80, 0x8f)
    else none

-- So many bytes follow, the next one in the range.
utf8_from : ℕ → ℕ → ℕ → List ℕ → Bool
utf8_from zero low high [] = true
utf8_from (suc n) low high [] = false
utf8_from (suc n) low high (b ∷ bs) = leb low b && leb b high && utf8_from n 0x80 0xbf bs
utf8_from zero low high (b ∷ bs) = elim (lead b) [
  | none ↦ false
  | some (n, low', high') ↦ utf8_from n low' high' bs
]

unfoldable pub is_utf8 : List ℕ → Bool
unfolding lead utf8_from
is_utf8 bytes = utf8_from 0 0 0 bytes

unfoldable pub encode_utf8 : ℕ → List ℕ
encode_utf8 c =
    if ltb c 0x80
    then c ∷ []
    else if ltb c 0x800
    then (0xc0 + c / 0x40) ∷ (0x80 + c % 0x40) ∷ []
    else if ltb c 0x10000
    then (0xe0 + c / 0x1000) ∷ (0x80 + c / 0x40 % 0x40) ∷ (0x80 + c % 0x40) ∷ []
    else (0xf0 + c / 0x40000)
      ∷ (0x80 + c / 0x1000 % 0x40)
      ∷ (0x80 + c / 0x40 % 0x40)
      ∷ (0x80 + c % 0x40)
      ∷ []

abbrev pub all_ascii : List ℕ → Bool
all_ascii [] = true
all_ascii (b ∷ bytes) = ltb b 0x80 && all_ascii bytes

lead-ascii : (b : ℕ) → ltb b 0x80 ≡ true → lead b ≡ some (0, 0, 0)
unfolding lead
lead-ascii b low = rw low refl

ascii-utf8 : (bytes : List ℕ) → all_ascii bytes ≡ true → utf8_from 0 0 0 bytes ≡ true
unfolding utf8_from
ascii-utf8 [] h = refl
ascii-utf8 (b ∷ bytes) h = elim (Bool-cases (ltb b 0x80)) [
  | inl low ↦
      ap
        (λ found. elim found [
          | none ↦ false
          | some (n, low', high') ↦ utf8_from n low' high' bytes
        ])
        (lead-ascii b low)
      ∙ ascii-utf8 bytes (ground arith)
  | inr high ↦ absurd (ground arith)
]

-- ASCII is UTF-8.
pub is_utf8-ascii : (bytes : List ℕ) → all_ascii bytes ≡ true → is_utf8 bytes ≡ true
unfolding is_utf8
is_utf8-ascii bytes h = ascii-utf8 bytes h
