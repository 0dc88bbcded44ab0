-- ===== src/Prelude/Decimal.antt =====
-- `to_string` and `parse` of Rust's unsigned integers.
use my_websocket_net.Prelude.Utf8.{is_utf8, all_ascii, is_utf8-ascii}
use my_websocket_net.Prelude.Tests.{ltb, leb, ◌==◌, if◌then◌else◌, Bool-cases, le→leb}
use Prim.Native.Nat.{ℕ, zero, suc, ◌+◌, ◌-◌, ◌*◌, ◌/◌, ◌%◌, ◌≤◌, ◌<◌}
use mathlib.Core.Path.{◌≡◌, refl, sym, ap, ◌∙◌}
use mathlib.Core.Logic.{◌≢◌, inl, inr}
use mathlib.Core.Bool.{Bool, true, false, ◌&&◌}
use mathlib.Core.Option.{Option, none, some}
use mathlib.Core.List.{List, [], ◌∷◌, cons-ne-nil}
use native.Mathlib.Omega.{arith}

abbrev pub is_digit : ℕ → Bool
is_digit b = leb b'0' b && leb b b'9'

-- The digits of `n` before `out`, with fuel.
unfoldable pub digits : ℕ → ℕ → List ℕ → List ℕ
digits zero n out = out
digits (suc f) n out =
    let more = digits f (n / 10) ((b'0' + n % 10) ∷ out) in
    if ltb n 10 then (b'0' + n) ∷ out else more

-- Each round makes the number smaller, so `n` rounds and one are enough.
unfoldable pub to_decimal : ℕ → List ℕ
to_decimal n = digits (suc n) n []

-- The number that digits spell behind `n`.
unfoldable pub value_from : ℕ → List ℕ → ℕ
value_from n [] = n
value_from n (c ∷ s) = value_from (n * 10 + (c - b'0')) s

abbrev pub all_digits : List ℕ → Bool
all_digits [] = true
all_digits (c ∷ s) = is_digit c && all_digits s

pub value_from-digits :
    (f n : ℕ) (out : List ℕ) → n < f → value_from 0 (digits f n out) ≡ value_from n out
unfolding value_from digits
value_from-digits zero n out h = absurd (omega arith)
value_from-digits (suc f) n out h = elim (Bool-cases (ltb n 10)) [
  | inl small ↦ rw small (ap (λ k. value_from k out) (omega arith))
  | inr large ↦ rw large (
      value_from-digits f (n / 10) ((b'0' + n % 10) ∷ out) (ground arith)
      ∙ ap (λ k. value_from k out) (omega arith))
]

pub value_from-to_decimal : (n : ℕ) → value_from 0 (to_decimal n) ≡ n
unfolding to_decimal value_from
value_from-to_decimal n = value_from-digits (suc n) n [] (omega arith)

all_digits-digits :
    (f n : ℕ) (out : List ℕ) → all_digits out ≡ true → all_digits (digits f n out) ≡ true
unfolding digits
all_digits-digits zero n out h = h
all_digits-digits (suc f) n out h = elim (Bool-cases (ltb n 10)) [
  | inl small ↦ rw small (ground arith)
  | inr large ↦ rw large (all_digits-digits f (n / 10) ((b'0' + n % 10) ∷ out) (ground arith))
]

-- A positive number starts with a digit that is not 0.
pub digits-first :
    (f n : ℕ) (out : List ℕ)
    → n < f
    → 0 < n
    → all_digits out ≡ true
    → (c : ℕ) × (s : List ℕ) × (digits f n out ≡ c ∷ s)
      × (leb b'1' c && leb c b'9' ≡ true)
      × (all_digits s ≡ true)
unfolding digits
digits-first zero n out h pos all = absurd (omega arith)
digits-first (suc f) n out h pos all = elim (Bool-cases (ltb n 10)) [
  | inl small ↦ (b'0' + n, out, rw small, ground arith, all)
  | inr large ↦
      rw large (
        digits-first f (n / 10) ((b'0' + n % 10) ∷ out) (ground arith) (ground arith)
          (ground arith))
]

-- `text.parse()` at an unsigned type with this largest value: a `+` may lead, and there is a digit.
parse_digits : ℕ → List ℕ → Option ℕ
parse_digits largest [] = none
parse_digits largest (c ∷ s) =
    if all_digits (c ∷ s)
    then (if leb (value_from 0 (c ∷ s)) largest then some (value_from 0 (c ∷ s)) else none)
    else none

unfoldable pub parse_unsigned : ℕ → List ℕ → Option ℕ
unfolding parse_digits value_from
parse_unsigned largest [] = none
parse_unsigned largest (c ∷ s) =
    if c == b'+' then parse_digits largest s else parse_digits largest (c ∷ s)

parse_digits_lem :
    (largest c : ℕ) (s : List ℕ)
    → all_digits (c ∷ s) ≡ true
    → value_from 0 (c ∷ s) ≤ largest
    → parse_digits largest (c ∷ s) ≡ some (value_from 0 (c ∷ s))
unfolding parse_digits
parse_digits_lem largest c s all fits = rw (all, le→leb (value_from 0 (c ∷ s)) largest fits)

parse_unsigned_lem :
    (largest : ℕ) (s : List ℕ) (n : ℕ)
    → s ≢ []
    → all_digits s ≡ true
    → value_from 0 s ≡ n
    → n ≤ largest
    → parse_unsigned largest s ≡ some n
unfolding parse_unsigned
parse_unsigned_lem largest [] n some_digit all val fits = absurd (some_digit refl)
parse_unsigned_lem largest (c ∷ s) n some_digit all val fits =
    let not_plus : (c == b'+') ≡ false = ground arith in
    rw not_plus (parse_digits_lem largest c s all (omega arith) ∙ ap some val)

to_decimal-ne-nil : (n : ℕ) → to_decimal n ≢ []
unfolding to_decimal digits
to_decimal-ne-nil n = elim (Bool-cases (ltb n 10)) [
  | inl small ↦ rw small (cons-ne-nil _ _)
  | inr large ↦ rw large (λ empty.
      let (c, s, starts, _, _) =
        digits-first n (n / 10) ((b'0' + n % 10) ∷ []) (ground arith) (ground arith)
          (ground arith) in
      cons-ne-nil c s (sym starts ∙ empty))
]

-- What was written is read back.
pub parse_unsigned-to_decimal :
    (largest n : ℕ) → n ≤ largest → parse_unsigned largest (to_decimal n) ≡ some n
parse_unsigned-to_decimal largest n fits =
    parse_unsigned_lem largest (to_decimal n) n (to_decimal-ne-nil n)
      (unfold to_decimal in all_digits-digits (suc n) n [] refl) (value_from-to_decimal n) fits

all_ascii-digits : (s : List ℕ) → all_digits s ≡ true → all_ascii s ≡ true
all_ascii-digits [] h = refl
all_ascii-digits (c ∷ s) h = ground (arith, all_ascii-digits s)

pub to_decimal-IsUtf8 : (n : ℕ) → is_utf8 (to_decimal n) ≡ true
unfolding to_decimal
to_decimal-IsUtf8 n =
    is_utf8-ascii (digits (suc n) n [])
      (all_ascii-digits (digits (suc n) n []) (all_digits-digits (suc n) n [] refl))
