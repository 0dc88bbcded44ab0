-- ===== src/Protocol/Canon/Numbers.antt =====
-- Reading an integer that `write` wrote.
use my_websocket_net.Prelude.{
  ℕ, zero, suc, ◌+◌, ◌^◌, ◌≡◌, ◌<◌, refl, sym, ap, ◌∙◌, Bool, true, false, not, ◌||◌, [], ◌∷◌, ◌++◌,
  arith, ◌==◌, length,
}
use my_websocket_net.Prelude.Text.{Text}
use my_websocket_net.Prelude.Decimal.{
  is_digit, all_digits, digits, to_decimal, value_from, digits-first, value_from-to_decimal,
}
use my_websocket_net.Prelude.Result.{ok}
use my_websocket_net.Protocol.Canon.{ℤ, pos, negsuc, Canonical, int, IsI64, print_int}
use my_websocket_net.Protocol.Canon.Parser.{
  at, sees, take_digits, to_int, is_float, finish_number, parse_digits, parse_number,
}

-- What follows a number in a printed value: neither a digit nor the rest of a float.
abbrev pub ends_number : Text → Bool
ends_number [] = true
ends_number (b ∷ rest) = not (is_digit b || is_float b)

take_digits-append :
    (front rest : Text)
    → all_digits front ≡ true
    → ends_number rest ≡ true
    → take_digits (front ++ rest) ≡ (front, rest)
unfolding take_digits
take_digits-append [] [] all ends = refl
take_digits-append [] (b ∷ rest) all ends = ground arith
take_digits-append (c ∷ front) rest all ends = ground (arith, take_digits-append front rest)

finish_number_lem :
    (negative : Bool) (digits rest : Text) (p d : ℕ) (v : Canonical)
    → ends_number rest ≡ true
    → to_int negative digits ≡ ok v
    → finish_number negative digits (at rest p d) ≡ ok (v, at rest p d)
unfolding finish_number
finish_number_lem negative digits [] p d v ends reads = rw reads refl
finish_number_lem negative digits (b ∷ rest) p d v ends reads =
    let no_float : is_float b ≡ false = ground arith in rw (no_float, reads) refl

to_int-pos :
    (digits : Text) (n : ℕ)
    → value_from 0 digits ≡ n
    → n < 2 ^ 63
    → to_int false digits ≡ ok (int (pos n))
unfolding to_int
to_int-pos digits n e h = ground arith

to_int-negsuc :
    (digits : Text) (n : ℕ)
    → value_from 0 digits ≡ suc n
    → n < 2 ^ 63
    → to_int true digits ≡ ok (int (negsuc n))
unfolding to_int
to_int-negsuc digits n e h = ground arith

-- A positive number.
parse_digits-to_decimal_pos :
    (negative : Bool) (n start : ℕ) (rest : Text) (p d : ℕ) (v : Canonical)
    → 0 < n
    → ends_number rest ≡ true
    → to_int negative (to_decimal n) ≡ ok v
    → (q : ℕ) × (parse_digits start negative (at (to_decimal n ++ rest) p d) ≡ ok (v, at rest q d))
unfolding parse_digits to_decimal
parse_digits-to_decimal_pos negative n start rest p d v positive ends reads =
    let (c, s, starts, nonzero, all) = digits-first (suc n) n [] (omega arith) positive refl in
    (
      p + 1 + length s,
      rw starts (
          rw (take_digits-append s rest all ends) (
            ground (
              arith,
              finish_number_lem negative (c ∷ s) rest (p + 1 + length s) d v ends
                  (sym (ap (to_int negative) starts) ∙ reads),
            ))),
    )

no_digit : (rest : Text) (p d : ℕ) → ends_number rest ≡ true → sees is_digit (at rest p d) ≡ false
no_digit [] p d ends = refl
no_digit (b ∷ rest) p d ends = ground arith

parse_digits-zero :
    (start : ℕ) (rest : Text) (p d : ℕ)
    → ends_number rest ≡ true
    → parse_digits start false (at (b'0' ∷ rest) p d) ≡ ok (int (pos 0), at rest (p + 1) d)
unfolding parse_digits
parse_digits-zero start rest p d ends = rw (no_digit rest (p + 1) d ends) (
    finish_number_lem false (b'0' ∷ []) rest (p + 1) d (int (pos 0)) ends
      (to_int-pos (b'0' ∷ []) 0 (unfold value_from in refl) (omega arith)))

parse_digits-to_decimal :
    (n start : ℕ) (rest : Text) (p d : ℕ)
    → n < 2 ^ 63
    → ends_number rest ≡ true
    → (q : ℕ) × (parse_digits start false (at (to_decimal n ++ rest) p d)
        ≡ ok (int (pos n), at rest q d))
parse_digits-to_decimal zero start rest p d fits ends =
    (p + 1, unfold to_decimal in unfold digits in parse_digits-zero start rest p d ends)
parse_digits-to_decimal (suc n) start rest p d fits ends =
    parse_digits-to_decimal_pos false (suc n) start rest p d (int (pos (suc n))) (omega arith) ends
      (to_int-pos (to_decimal (suc n)) (suc n) (value_from-to_decimal (suc n)) fits)

abbrev pub first_is : (ℕ → Bool) → Text → Bool
first_is test [] = false
first_is test (c ∷ s) = test c

first_digit : (n : ℕ) → first_is is_digit (to_decimal n) ≡ true
unfolding to_decimal
first_digit zero = unfold digits in refl
first_digit (suc n) =
    let (c, s, starts, nonzero, _) =
      digits-first (suc (suc n)) (suc n) [] (omega arith) (omega arith) refl in
    rw starts (ground arith)

-- A printed number starts with a digit or its sign.
pub print_int-first : (n : ℤ) → first_is (λ c. c == b'-' || is_digit c) (print_int n) ≡ true
unfolding print_int
print_int-first (pos n) = either (to_decimal n) (first_digit n)
  where
    either :
        (t : Text) → first_is is_digit t ≡ true → first_is (λ c. c == b'-' || is_digit c) t ≡ true
    either [] h = cc
    either (c ∷ t) h = ground arith
print_int-first (negsuc n) = refl

no_sign :
    (t rest : Text) (p d : ℕ)
    → first_is is_digit t ≡ true
    → parse_number (at (t ++ rest) p d) ≡ parse_digits p false (at (t ++ rest) p d)
unfolding parse_number
no_sign [] rest p d h = cc
no_sign (c ∷ t) rest p d h = let digit : (c == b'-') ≡ false = ground arith in rw digit refl

-- A number is read back, if what follows ends it.
pub parse_number-print_int :
    (n : ℤ) (rest : Text) (p d : ℕ)
    → IsI64 n
    → ends_number rest ≡ true
    → (q : ℕ) × (parse_number (at (print_int n ++ rest) p d) ≡ ok (int n, at rest q d))
unfolding print_int
parse_number-print_int (negsuc n) rest p d fits ends =
    unfold parse_number in
    parse_digits-to_decimal_pos true (suc n) p rest (p + 1) d (int (negsuc n)) (omega arith) ends
      (to_int-negsuc (to_decimal (suc n)) n (value_from-to_decimal (suc n)) fits)
parse_number-print_int (pos n) rest p d fits ends =
    let (q, reads) = parse_digits-to_decimal n p rest p d fits ends in
    (q, no_sign (to_decimal n) rest p d (first_digit n) ∙ reads)
