-- ===== src/Protocol/Canon/Ensures.antt =====
-- What a step of the parser promises: a property of its answer and its state, and no lack of fuel.
pub mod Texts
pub mod Figures
use my_websocket_net.Prelude.{
  ℕ, zero, suc, ◌+◌, ◌-◌, ◌*◌, ◌%◌, ◌^◌, ◌≡◌, ◌≤◌, ◌<◌, refl, Bool, true, false, ◌&&◌, Option, none,
  some, List, [], ◌∷◌, ◌++◌, arith, ltb, leb, ◌==◌, if◌then◌else◌, length, take, length-drop,
  Bool-cases, inl, inr, ltb→lt,
}
use my_websocket_net.Prelude.Text.{Text, same_text}
use my_websocket_net.Prelude.Utf8.{is_utf8, encode_utf8}
use my_websocket_net.Prelude.Decimal.{is_digit, value_from}
use my_websocket_net.Prelude.Result.{Result, ok, err}
use my_websocket_net.Protocol.Canon.{
  CanonError, out_of_fuel, unexpected_byte, invalid_utf8, invalid_unicode_escape, invalid_escape,
  invalid_number, float_not_allowed, integer_too_large, Canonical, int, pos, negsuc, IsValue,
}
use my_websocket_net.Protocol.Canon.Nesting.{nesting}
use my_websocket_net.Protocol.Canon.Parser.{
  Parser, at, Parse, pure, fail, ◌>>=◌, left, position, bump, is_ws, skip_ws, skip_ws_from,
  skip_one, expect_literal, sees, is_float, take_digits, to_int, finish_number, parse_digits,
  parse_number, hex_value, read_hex, read_hex4, low_surrogate, unicode_escape, simple_escape,
  escaped, parse_escape, string_piece, parse_chars, parse_string,
}

-- The error is one of the code.
abbrev pub IsReal : CanonError → Type 0
IsReal out_of_fuel = ⊥
IsReal _ = Unit {0}

abbrev pub Ensures : {A : Type 0} → (A → Parser → Type 0) → Result (A × Parser) CanonError → Type 0
Ensures P (ok (a, s)) = P a s
Ensures P (err e) = IsReal e

module _ {A B : Type 0} (P : B → Parser → Type 0) where
  pub Ensures->>= :
      (Q : A → Parser → Type 0) (m : Parse A) (k : A → Parse B) (s : Parser)
      → Ensures Q (m s)
      → ((a : A) (s' : Parser) → Q a s' → Ensures P (k a s'))
      → Ensures P ((m >>= k) s)
  Ensures->>= Q m k s first later = go (m s) first
    where
      go :
          (r : Result (A × Parser) CanonError)
          → Ensures Q r
          → Ensures P (elim r [ err e ↦ err e | ok (a, s') ↦ k a s' ])
      go (ok (a, s')) q = later a s' q
      go (err e) real = real

module _ {A : Type 0} (P : A → Parser → Type 0) where
  pub Ensures-if :
      (test : Bool) (m k : Parse A) (s : Parser)
      → Ensures P (m s)
      → Ensures P (k s)
      → Ensures P ((if test then m else k) s)
  Ensures-if true m k s yes_holds no_holds = yes_holds
  Ensures-if false m k s yes_holds no_holds = no_holds

  pub Ensures-choice :
      (test : Bool) (r r' : Result (A × Parser) CanonError)
      → Ensures P r
      → Ensures P r'
      → Ensures P (if test then r else r')
  Ensures-choice true r r' yes_holds no_holds = yes_holds
  Ensures-choice false r r' yes_holds no_holds = no_holds

  pub Ensures-weaken :
      (Q : A → Parser → Type 0) (r : Result (A × Parser) CanonError)
      → ((a : A) (s : Parser) → Q a s → P a s)
      → Ensures Q r
      → Ensures P r
  Ensures-weaken Q (ok (a, s)) step q = step a s q
  Ensures-weaken Q (err e) step real = real

abbrev pub depth_of : Parser → ℕ
depth_of (at rest p d) = d

abbrev pub size_of : Parser → ℕ
size_of s = length (left s)

-- The depth is kept, and so many bytes at least were taken.
abbrev pub Takes : ℕ → Parser → Parser → Type 0
Takes n s s' = (depth_of s' ≡ depth_of s) × (size_of s' + n ≤ size_of s)

pub bump-Takes : (s : Parser) → Ensures (λ _. Takes 1 s) (bump s)
unfolding bump
bump-Takes (at [] p d) = tt
bump-Takes (at (b ∷ rest) p d) = omega arith

pub skip_one-Takes : (s : Parser) → Ensures (λ _. Takes 0 s) (skip_one s)
skip_one-Takes (at [] p d) = omega arith
skip_one-Takes (at (b ∷ rest) p d) = omega arith

skip_ws_from-Takes :
    (rest : List ℕ) (p d : ℕ)
    → (depth_of (skip_ws_from rest p d) ≡ d) × (size_of (skip_ws_from rest p d) ≤ length rest)
unfolding skip_ws_from
skip_ws_from-Takes [] p d = omega arith
skip_ws_from-Takes (b ∷ rest) p d = elim (Bool-cases (is_ws b)) [
  | inl white ↦ rw white (omega (arith, skip_ws_from-Takes rest (p + 1) d))
  | inr black ↦ rw black (omega arith)
]

pub skip_ws-Takes : (s : Parser) → Ensures (λ _. Takes 0 s) (skip_ws s)
unfolding skip_ws
skip_ws-Takes (at rest p d) = omega (arith, skip_ws_from-Takes rest p d)

pub expect_literal-Takes :
    (c : ℕ) (word : Text) (v : Canonical) (s : Parser)
    → Ensures (λ a s'. (a ≡ v) × Takes 1 s s') (expect_literal (c ∷ word) v s)
unfolding expect_literal
expect_literal-Takes c word v (at [] p d) = tt
expect_literal-Takes c word v (at (b ∷ rest) p d) =
    elim (Bool-cases (ltb (length (b ∷ rest)) (length (c ∷ word)))) [
      | inl short ↦ rw short tt
      | inr fits ↦ elim (Bool-cases (same_text (take (length (c ∷ word)) (b ∷ rest)) (c ∷ word))) [
        | inr other ↦ rw (fits, other) tt
        | inl same ↦ rw (fits, same) (refl, (refl, omega (arith, length-drop (length word) rest)))
      ]
    ]
