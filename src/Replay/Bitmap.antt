-- ===== src/Replay/Bitmap.antt =====
-- crates/wsnet-auth-store/src/replay.rs: the bitmap, a slot for each number modulo the window.
use Prim.Native.Nat.{bit_and, bit_or}
use my_websocket_net.Prelude.{
  ℕ, zero, suc, ◌+◌, ◌-◌, ◌/◌, ◌%◌, ◌^◌, ◌≤◌, ◌<◌, ◌≡◌, refl, sym, ap, ◌∙◌, inl, inr, Bool, true,
  false, not, ◌&&◌, ◌||◌, List, arith, length, get_or, set, replicate, ◌==◌, if◌then◌else◌,
  Bool-cases, ==→eq, ==→ne, ne→==, length-set, get_or-set_self, get_or-set_ne, get_or-replicate,
}
use my_websocket_net.Prelude.Bits.{
  bit, bit-bit_and, bit-bit_or, bit_le, bit-pow_self, bit-pow_ne, bit-complement, bit_and-pow,
  pow_pos, lt-pow, zero_bit,
}
use my_websocket_net.Limits.{replay_window, u64_max}

-- `WORDS`.
abbrev pub words : ℕ
words = replay_window / 64

-- `locate`: the word of a packet number, and its one-bit mask.
abbrev pub locate : ℕ → ℕ × ℕ
locate packet_no = let slot = packet_no % replay_window in (slot / 64, 2 ^ (slot % 64))

unfoldable pub is_marked : List ℕ → ℕ → Bool
is_marked seen packet_no =
    let (word, mask) = locate packet_no in not (bit_and (get_or seen word 0) mask == 0)

-- `set`.
unfoldable pub mark : List ℕ → ℕ → List ℕ
mark seen packet_no =
    let (word, mask) = locate packet_no in set seen word (bit_or (get_or seen word 0) mask)

unfoldable pub clear : List ℕ → ℕ → List ℕ
clear seen packet_no =
    let (word, mask) = locate packet_no in
    set seen word (bit_and (get_or seen word 0) (u64_max - mask))

-- The loop that clears `count` numbers from `n` on.
unfoldable pub clear_range : ℕ → ℕ → List ℕ → List ℕ
clear_range n zero seen = seen
clear_range n (suc count) seen = clear_range (n + 1) count (clear seen n)

abbrev digit : List ℕ → ℕ → ℕ → ℕ
digit seen i b = bit (get_or seen i 0) b

is_marked-digit :
    (seen : List ℕ) (p : ℕ)
    → is_marked seen p ≡ (digit seen (p % replay_window / 64) (p % replay_window % 64) == 1)
unfolding is_marked
is_marked-digit seen p = go (get_or seen (p % replay_window / 64) 0) (p % replay_window % 64)
  where
    go : (w b : ℕ) → not (bit_and w (2 ^ b) == 0) ≡ (bit w b == 1)
    go w b = rw (bit_and-pow b w) (elim (Bool-cases (bit w b == 1)) [
      | inl e ↦ ground (arith, pow_pos b)
      | inr e ↦ ground (arith, bit_le b w)
    ])

digit-set :
    (seen : List ℕ) (i w j c : ℕ)
    → i < length seen
    → digit (set seen i w) j c ≡ (if i == j then bit w c else digit seen j c)
digit-set seen i w j c h = elim (Bool-cases (i == j)) [
  | inl e ↦ rw e (
      ap (λ k. digit (set seen i w) k c) (sym (==→eq i j e))
      ∙ ap (λ x. bit x c) (get_or-set_self seen i w 0 h))
  | inr e ↦ rw e (ap (λ x. bit x c) (get_or-set_ne seen i j w 0 (==→ne i j e)))
]

bit-or-pow : (b c w : ℕ) → bit (bit_or w (2 ^ b)) c ≡ (if b == c then 1 else bit w c)
bit-or-pow b c w = elim (Bool-cases (b == c)) [
  | inl e ↦
      rw e
        (rw (sym (==→eq b c e)) (omega (arith, bit-bit_or b w (2 ^ b), bit-pow_self b, bit_le b w)))
  | inr e ↦
      rw e (
        omega
          (arith, bit-bit_or c w (2 ^ b), bit-pow_ne c b (λ q. ==→ne b c e (sym q)), bit_le c w))
]

bit-and-complement :
    (b c w : ℕ)
    → b < 64
    → c < 64
    → bit (bit_and w (u64_max - 2 ^ b)) c ≡ (if b == c then 0 else bit w c)
bit-and-complement b c w hb hc = elim (Bool-cases (b == c)) [
  | inl e ↦ rw e (
      rw (sym (==→eq b c e))
        (omega (arith, bit-bit_and b w (u64_max - 2 ^ b), flipped b hb, bit-pow_self b)))
  | inr e ↦ rw e (
      omega (
        arith,
        bit-bit_and c w (u64_max - 2 ^ b),
        flipped c hc,
        bit-pow_ne c b (λ q. ==→ne b c e (sym q)),
        bit_le c w,
      ))
]
  where
    flipped : (i : ℕ) → i < 64 → bit (u64_max - 2 ^ b) i ≡ 1 - bit (2 ^ b) i
    flipped i h = bit-complement 64 i (2 ^ b) (lt-pow b 64 hb) h

-- Two numbers own one slot exactly when they agree modulo the window.
abbrev pub same_slot : ℕ → ℕ → Bool
same_slot p q = p % replay_window == q % replay_window

same_slot-locate :
    (p q : ℕ)
    → same_slot p q ≡ (
        p % replay_window / 64 == q % replay_window / 64
        && p % replay_window % 64 == q % replay_window % 64)
same_slot-locate p q = go (p % replay_window) (q % replay_window)
  where
    go : (a b : ℕ) → (a == b) ≡ (a / 64 == b / 64 && a % 64 == b % 64)
    go a b = elim (Bool-cases (a == b)) [
      | inl e ↦ rw e (rw (==→eq a b e) (ground arith))
      | inr e ↦ ground arith
    ]

-- Marking, and clearing, at a slot given by its word and its bit.
module _ (seen : List ℕ) (i b j c : ℕ) (in_range : i < length seen) where
  digit-mark :
      (digit (set seen i (bit_or (get_or seen i 0) (2 ^ b))) j c == 1)
      ≡ (i == j && b == c || digit seen j c == 1)
  digit-mark =
      rw (digit-set seen i _ j c in_range, bit-or-pow b c (get_or seen i 0))
        (elim (Bool-cases (i == j)) [
          | inl e ↦ rw e (rw (==→eq i j e) (ground arith))
          | inr e ↦ rw e
        ])

  digit-clear :
      b < 64
      → c < 64
      → (digit (set seen i (bit_and (get_or seen i 0) (u64_max - 2 ^ b))) j c == 1)
        ≡ (not (i == j && b == c) && digit seen j c == 1)
  digit-clear hb hc =
      rw (digit-set seen i _ j c in_range, bit-and-complement b c (get_or seen i 0) hb hc)
        (elim (Bool-cases (i == j)) [
          | inl e ↦ rw e (rw (==→eq i j e) (ground arith))
          | inr e ↦ rw e
        ])

-- `mark` marks the slot of its number and no other.
pub is_marked-mark :
    (seen : List ℕ) (p q : ℕ)
    → length seen ≡ words
    → is_marked (mark seen p) q ≡ (same_slot p q || is_marked seen q)
unfolding mark
is_marked-mark seen p q h =
    is_marked-digit (mark seen p) q
    ∙ digit-mark seen (p % replay_window / 64) (p % replay_window % 64) (q % replay_window / 64)
        (q % replay_window % 64) (omega arith)
    ∙ rw (is_marked-digit seen q, same_slot-locate p q)

-- `clear` frees the slot of its number and no other.
pub is_marked-clear :
    (seen : List ℕ) (p q : ℕ)
    → length seen ≡ words
    → is_marked (clear seen p) q ≡ (not (same_slot p q) && is_marked seen q)
unfolding clear
is_marked-clear seen p q h =
    is_marked-digit (clear seen p) q
    ∙ digit-clear seen (p % replay_window / 64) (p % replay_window % 64) (q % replay_window / 64)
        (q % replay_window % 64) (omega arith) (omega arith) (omega arith)
    ∙ rw (is_marked-digit seen q, same_slot-locate p q)

pub length-mark : (seen : List ℕ) (p : ℕ) → length (mark seen p) ≡ length seen
unfolding mark
length-mark seen p = length-set seen _ _

length-clear : (seen : List ℕ) (p : ℕ) → length (clear seen p) ≡ length seen
unfolding clear
length-clear seen p = length-set seen _ _

pub length-clear_range :
    (n count : ℕ) (seen : List ℕ) → length (clear_range n count seen) ≡ length seen
unfolding clear_range
length-clear_range n zero seen = refl
length-clear_range n (suc count) seen =
    length-clear_range (n + 1) count (clear seen n) ∙ length-clear seen n

clear_range_keeps_free :
    (n count : ℕ) (seen : List ℕ) (q : ℕ)
    → length seen ≡ words
    → is_marked seen q ≡ false
    → is_marked (clear_range n count seen) q ≡ false
unfolding clear_range
clear_range_keeps_free n zero seen q h e = e
clear_range_keeps_free n (suc count) seen q h e =
    clear_range_keeps_free (n + 1) count (clear seen n) q (length-clear seen n ∙ h)
      (is_marked-clear seen n q h ∙ rw e (and-false _))
  where
    and-false : (b : Bool) → (b && false) ≡ false
    and-false true = refl
    and-false false = refl

-- After the loop the slots of the numbers that it ran over are free.
pub is_marked-clear_range_in :
    (n count : ℕ) (seen : List ℕ) (q : ℕ)
    → length seen ≡ words
    → n ≤ q
    → q < n + count
    → is_marked (clear_range n count seen) q ≡ false
unfolding clear_range
is_marked-clear_range_in n zero seen q h lo hi = absurd (omega arith)
is_marked-clear_range_in n (suc count) seen q h lo hi = elim (Bool-cases (n == q)) [
  | inl e ↦
      clear_range_keeps_free (n + 1) count (clear seen n) q (length-clear seen n ∙ h)
        (is_marked-clear seen n q h ∙ rw (==→eq n q e) (ground arith))
  | inr e ↦
      is_marked-clear_range_in (n + 1) count (clear seen n) q (length-clear seen n ∙ h)
        (omega (arith, ==→ne n q e)) (omega arith)
]

-- A slot that none of them owns is as it was.
pub is_marked-clear_range_out :
    (n count : ℕ) (seen : List ℕ) (q : ℕ)
    → length seen ≡ words
    → q < n
    → n + count ≤ q + replay_window
    → is_marked (clear_range n count seen) q ≡ is_marked seen q
unfolding clear_range
is_marked-clear_range_out n zero seen q h lo hi = refl
is_marked-clear_range_out n (suc count) seen q h lo hi =
    is_marked-clear_range_out (n + 1) count (clear seen n) q (length-clear seen n ∙ h) (omega arith)
      (omega arith)
    ∙ is_marked-clear seen n q h
    ∙ rw (ne→== (n % replay_window) (q % replay_window) (λ e. omega arith))

pub is_marked-replicate : (n q : ℕ) → is_marked (replicate n 0) q ≡ false
unfolding is_marked
is_marked-replicate n q =
    rw
      (
        get_or-replicate {A = ℕ} n (q % replay_window / 64) 0,
        bit_and-pow (q % replay_window % 64) 0,
      )
      (rw (zero_bit (q % replay_window % 64)) (ground arith))
