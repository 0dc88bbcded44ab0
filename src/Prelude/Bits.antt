-- ===== src/Prelude/Bits.antt =====
-- The binary digits of a number, and what `&`, `|` and `!` do to them.
use Prim.Native.Nat.{
  ℕ, zero, suc, ◌+◌, ◌-◌, ◌*◌, ◌/◌, ◌%◌, ◌^◌, ◌≤◌, ◌<◌, min, max, bit_and, bit_or, digits, bitwise,
  bit_and-bitwise, bit_or-bitwise,
}
use mathlib.Core.Path.{◌≡◌, refl, ap, ◌∙◌}
use mathlib.Core.Logic.{◌≢◌}
use native.Mathlib.Nat.{pow-suc}
use native.Mathlib.Omega.{arith}

-- Digit `i` of `x`.
unfoldable pub bit : ℕ → ℕ → ℕ
bit x zero = x % 2
bit x (suc i) = bit (x / 2) i

-- An operation on numbers that works digit by digit: `op` on two digits, `rest` on what remains of
-- the second number once the first has run out.
module _ (rest : ℕ → ℕ) (op : ℕ → ℕ → ℕ) where
  same_result : (n a m b : ℕ) → a ≤ n → a ≤ m → digits rest op n a b ≡ digits rest op m a b
  same_result zero (suc a) m b below under = absurd (omega arith)
  same_result n (suc a) zero b below under = absurd (omega arith)
  same_result zero zero zero b below under = refl
  same_result zero zero (suc m) b below under = refl
  same_result (suc n) zero zero b below under = refl
  same_result (suc n) zero (suc m) b below under = refl
  same_result (suc n) (suc a) (suc m) b below under =
      ap (λ t. t * 2 + op (suc a % 2) (b % 2))
        (same_result n (suc a / 2) m (b / 2) (omega arith) (omega arith))

  -- The lowest digit apart from the others.
  split_lowest :
      ((b : ℕ) → rest b ≡ rest (b / 2) * 2 + op 0 (b % 2))
      → (a b : ℕ) → bitwise rest op a b ≡ bitwise rest op (a / 2) (b / 2) * 2 + op (a % 2) (b % 2)
  split_lowest done zero b = done b
  split_lowest done (suc a) b =
      ap (λ t. t * 2 + op (suc a % 2) (b % 2))
        (same_result a (suc a / 2) (suc a / 2) (b / 2) (omega arith) (omega arith))

bit_and_step : (x y : ℕ) → bit_and x y ≡ bit_and (x / 2) (y / 2) * 2 + min (x % 2) (y % 2)
bit_and_step x y = omega (
  split_lowest (λ _. zero) min (λ _. omega arith) x y,
  bit_and-bitwise x y,
  bit_and-bitwise (x / 2) (y / 2),
  arith,
)

bit_or_step : (x y : ℕ) → bit_or x y ≡ bit_or (x / 2) (y / 2) * 2 + max (x % 2) (y % 2)
bit_or_step x y = omega (
  split_lowest (λ t. t) max (λ _. omega arith) x y,
  bit_or-bitwise x y,
  bit_or-bitwise (x / 2) (y / 2),
  arith,
)

-- `&` and `|` act digit by digit.
pub bit-bit_and : (i a b : ℕ) → bit (bit_and a b) i ≡ min (bit a i) (bit b i)
unfolding bit
bit-bit_and zero a b = omega (arith, bit_and_step a b)
bit-bit_and (suc i) a b =
    ap (λ x. bit x i) (omega (arith, bit_and_step a b)) ∙ bit-bit_and i (a / 2) (b / 2)

pub bit-bit_or : (i a b : ℕ) → bit (bit_or a b) i ≡ max (bit a i) (bit b i)
unfolding bit
bit-bit_or zero a b = omega (arith, bit_or_step a b)
bit-bit_or (suc i) a b =
    ap (λ x. bit x i) (omega (arith, bit_or_step a b)) ∙ bit-bit_or i (a / 2) (b / 2)

pub bit_le : (i x : ℕ) → bit x i ≤ 1
unfolding bit
bit_le zero x = omega arith
bit_le (suc i) x = bit_le i (x / 2)

pub zero_bit : (i : ℕ) → bit 0 i ≡ 0
unfolding bit
zero_bit zero = refl
zero_bit (suc i) = zero_bit i

-- `1 << j` has the one digit `j`.
pub bit-pow_self : (j : ℕ) → bit (2 ^ j) j ≡ 1
unfolding bit
bit-pow_self zero = refl
bit-pow_self (suc j) =
    ap (λ x. bit x j) {x = 2 ^ suc j / 2} (omega (arith, pow-suc 2 j)) ∙ bit-pow_self j

pub bit-pow_ne : (i j : ℕ) → i ≢ j → bit (2 ^ j) i ≡ 0
unfolding bit
bit-pow_ne zero zero h = absurd (h refl)
bit-pow_ne zero (suc j) h = omega (arith, pow-suc 2 j)
bit-pow_ne (suc i) zero h = zero_bit i
bit-pow_ne (suc i) (suc j) h =
    ap (λ x. bit x i) {x = 2 ^ suc j / 2} (omega (arith, pow-suc 2 j))
    ∙ bit-pow_ne i j (λ e. h (ap suc e))

-- `!x` on `k` bits flips each of them.
pub bit-complement : (k i x : ℕ) → x < 2 ^ k → i < k → bit (2 ^ k - 1 - x) i ≡ 1 - bit x i
unfolding bit
bit-complement zero i x h hi = absurd (omega arith)
bit-complement (suc k) zero x h hi = omega (arith, pow-suc 2 k)
bit-complement (suc k) (suc i) x h hi =
    ap (λ y. bit y i) {x = (2 ^ suc k - 1 - x) / 2} (omega (arith, pow-suc 2 k))
    ∙ bit-complement k i (x / 2) (omega (arith, pow-suc 2 k)) (omega arith)

-- Nothing is masked in by 0.
masked_by_zero : (w n : ℕ) → w ≤ n → bit_and w 0 ≡ 0
masked_by_zero zero n h = omega (arith, bit_and_step 0 0)
masked_by_zero (suc w) zero h = absurd (omega arith)
masked_by_zero (suc w) (suc n) h =
    omega (arith, masked_by_zero (suc w / 2) n (omega arith), bit_and_step (suc w) 0)

bit_and-zero : (w : ℕ) → bit_and w 0 ≡ 0
bit_and-zero w = masked_by_zero w w (omega arith)

-- Masking with `1 << j` leaves digit `j` in its place.
pub bit_and-pow : (j w : ℕ) → bit_and w (2 ^ j) ≡ bit w j * 2 ^ j
unfolding bit
bit_and-pow zero w = omega (arith, bit_and_step w 1, bit_and-zero (w / 2))
bit_and-pow (suc j) w = omega (
  arith,
  pow-suc 2 j,
  bit_and_step w (2 ^ suc j),
  bit_and-pow j (w / 2),
  ap (bit_and (w / 2)) {x = 2 ^ suc j / 2} {y = 2 ^ j} (omega (arith, pow-suc 2 j)),
  ap (λ (t : ℕ). bit (w / 2) j * t) (pow-suc 2 j),
)

pub pow_pos : (k : ℕ) → 0 < 2 ^ k
pow_pos zero = omega arith
pow_pos (suc k) = omega (arith, pow-suc 2 k, pow_pos k)

pub lt-pow : (j k : ℕ) → j < k → 2 ^ j < 2 ^ k
lt-pow zero zero h = absurd (omega arith)
lt-pow zero (suc k) h = omega (arith, pow-suc 2 k, pow_pos k)
lt-pow (suc j) zero h = absurd (omega arith)
lt-pow (suc j) (suc k) h = omega (arith, pow-suc 2 j, pow-suc 2 k, lt-pow j k (omega arith))
