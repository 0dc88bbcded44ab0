-- ===== src/Protocol/Canon/Ensures/Figures.antt =====
-- What reading a number promises.
use my_websocket_net.Prelude.{
  ℕ, ◌+◌, ◌-◌, ◌^◌, ◌≡◌, ◌≤◌, refl, Bool, true, false, ◌&&◌, List, [], ◌∷◌, arith, ltb, leb, ◌==◌,
  if◌then◌else◌, length, ltb→lt,
}
use my_websocket_net.Prelude.Text.{Text}
use my_websocket_net.Prelude.Decimal.{is_digit, value_from}
use my_websocket_net.Prelude.Result.{Result, ok, err}
use my_websocket_net.Protocol.Canon.{
  CanonError, invalid_number, float_not_allowed, integer_too_large, Canonical, int, pos, negsuc,
  IsValue,
}
use my_websocket_net.Protocol.Canon.Nesting.{nesting}
use my_websocket_net.Protocol.Canon.Parser.{
  Parser, at, position, sees, is_float, take_digits, to_int, finish_number, parse_digits,
  parse_number,
}
use my_websocket_net.Protocol.Canon.Ensures.{IsReal, Ensures, Ensures-choice, Ensures-weaken, Takes}

take_digits-length : (rest : List ℕ) → length (take_digits rest).1 ≤ length rest
unfolding take_digits
take_digits-length [] = omega arith
take_digits-length (b ∷ rest) = ground (arith, take_digits-length rest)

-- An i64 on its own.
abbrev pub Scalar : Canonical → Type 0
Scalar v = IsValue v × (nesting v ≡ 0)

abbrev IsAnswer : Result Canonical CanonError → Type 0
IsAnswer (ok v) = Scalar v
IsAnswer (err e) = IsReal e

IsAnswer-choice :
    (test : Bool) (r r' : Result Canonical CanonError)
    → (test ≡ true → IsAnswer r)
    → (test ≡ false → IsAnswer r')
    → IsAnswer (if test then r else r')
IsAnswer-choice true r r' yes_holds no_holds = yes_holds refl
IsAnswer-choice false r r' yes_holds no_holds = no_holds refl

to_int-IsAnswer : (negative : Bool) (digits : Text) → IsAnswer (to_int negative digits)
unfolding to_int IsValue nesting
to_int-IsAnswer negative digits =
    let n = value_from 0 digits in
    let below : Result Canonical CanonError =
      if leb n (2 ^ 63)
      then ok (int (negsuc (n - 1)))
      else err (integer_too_large (b'-' ∷ digits)) in
    let minus : Result Canonical CanonError = if n == 0 then ok (int (pos 0)) else below in
    let plus : Result Canonical CanonError =
      if ltb n (2 ^ 63) then ok (int (pos n)) else err (integer_too_large digits) in
    IsAnswer-choice (leb (2 ^ 127) n) (err (integer_too_large digits))
      (if negative then minus else plus) (λ _. tt)
      λ _.
        IsAnswer-choice negative minus plus
          (λ _.
            IsAnswer-choice (n == 0) (ok (int (pos 0))) below (λ _. omega arith)
              λ some_n.
                IsAnswer-choice (leb n (2 ^ 63)) (ok (int (negsuc (n - 1))))
                  (err (integer_too_large (b'-' ∷ digits))) (λ h. (ground arith, refl)) (λ _. tt))
          λ _.
            IsAnswer-choice (ltb n (2 ^ 63)) (ok (int (pos n))) (err (integer_too_large digits))
              (λ h. (ltb→lt n (2 ^ 63) h, refl)) (λ _. tt)

answer_back :
    (r : Result Canonical CanonError) (s : Parser)
    → IsAnswer r
    → Ensures (λ v s'. Scalar v × Takes 0 s s') (elim r [ err e ↦ err e | ok v ↦ ok (v, s) ])
answer_back (ok v) s h = (h, (refl, omega arith))
answer_back (err e) s h = h

finish_number-Takes :
    (negative : Bool) (digits : Text) (s : Parser)
    → Ensures (λ v s'. Scalar v × Takes 0 s s') (finish_number negative digits s)
unfolding finish_number
finish_number-Takes negative digits s =
    Ensures-choice (λ v s'. Scalar v × Takes 0 s s') (sees is_float s)
      (err (float_not_allowed (position s)))
      (elim (to_int negative digits) [ err e ↦ err e | ok v ↦ ok (v, s) ]) tt
      (answer_back (to_int negative digits) s (to_int-IsAnswer negative digits))

parse_digits-Takes :
    (start : ℕ) (negative : Bool) (s : Parser)
    → Ensures (λ v s'. Scalar v × Takes 1 s s') (parse_digits start negative s)
unfolding parse_digits
parse_digits-Takes start negative (at [] p d) = tt
parse_digits-Takes start negative (at (b ∷ rest) p d) =
    let s = at (b ∷ rest) p d in
    let P : Canonical → Parser → Type 0 = λ v s'. Scalar v × Takes 1 s s' in
    let behind = at (take_digits rest).1 (p + 1 + length (take_digits rest).0) d in
    let next = at rest (p + 1) d in
    let one = finish_number negative (b ∷ []) next in
    let many = finish_number negative (b ∷ (take_digits rest).0) behind in
    Ensures-choice P (b == b'0') (if sees is_digit next then err (invalid_number (p + 1)) else one)
      (if leb b'1' b && leb b b'9' then many else err (invalid_number start))
      (Ensures-choice P (sees is_digit next) (err (invalid_number (p + 1))) one tt (
        Ensures-weaken P (λ v s'. Scalar v × Takes 0 next s') one (λ v s' h. (h.0, omega arith))
          (finish_number-Takes negative (b ∷ []) next)))
      (Ensures-choice P (leb b'1' b && leb b b'9') many (err (invalid_number start))
        (Ensures-weaken P (λ v s'. Scalar v × Takes 0 behind s') many
          (λ v s' h. (h.0, omega (arith, take_digits-length rest)))
          (finish_number-Takes negative (b ∷ (take_digits rest).0) behind))
        tt)

-- A number that is accepted is an i64.
pub parse_number-Takes : (s : Parser) → Ensures (λ v s'. Scalar v × Takes 1 s s') (parse_number s)
unfolding parse_number
parse_number-Takes (at [] p d) = tt
parse_number-Takes (at (b ∷ rest) p d) =
    let s = at (b ∷ rest) p d in
    let next = at rest (p + 1) d in
    let P : Canonical → Parser → Type 0 = λ v s'. Scalar v × Takes 1 s s' in
    Ensures-choice P (b == b'-') (parse_digits p true next) (parse_digits p false s)
      (Ensures-weaken P (λ v s'. Scalar v × Takes 1 next s') (parse_digits p true next)
        (λ v s' h. (h.0, omega arith)) (parse_digits-Takes p true next))
      (parse_digits-Takes p false s)
