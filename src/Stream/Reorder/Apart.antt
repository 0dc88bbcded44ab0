-- ===== src/Stream/Reorder/Apart.antt =====
-- crates/wsnet-stream/src/lib.rs: the ordered map of buffered blocks, and what storing one and taking one
-- out does to them.
use my_websocket_net.Prelude.{
  ℕ, suc, ◌+◌, ◌≤◌, ◌<◌, ◌≡◌, ◌≢◌, refl, inl, inr, Bool-cases, Option-cases, none, some, List, [],
  ◌∷◌, arith, length, ◌==◌, ltb, ==→eq, ==→ne, ltb→lt, ltb→le,
}
use my_websocket_net.Prelude.Ordered.{
  Ordered, lookup, insert, remove, From, From-weaken, lookup_below,
}
use my_websocket_net.Prelude.Result.{ok}
use my_websocket_net.Stream.Reorder.{
  store, last_to, first_from, against_previous, against_following,
}

-- The blocks ascend from `low` on, none is empty, and none reaches into the next.
abbrev pub Apart : ℕ → Ordered (List ℕ) → Type 0
Apart low [] = Unit {0}
Apart low ((k, v) ∷ m) = (low ≤ k) × (0 < length v) × Apart (k + length v) m

abbrev pub total : Ordered (List ℕ) → ℕ
total [] = 0
total ((_, v) ∷ m) = length v + total m

Apart-From : (low : ℕ) (m : Ordered (List ℕ)) → Apart low m → From low m
Apart-From low [] a = tt
Apart-From low ((k, v) ∷ m) (le, pos, rest) =
    (le, From-weaken (k + length v) (suc k) m (omega arith) (Apart-From (k + length v) m rest))

pub Apart-weaken : (low low' : ℕ) (m : Ordered (List ℕ)) → low' ≤ low → Apart low m → Apart low' m
Apart-weaken low low' [] h a = tt
Apart-weaken low low' ((k, v) ∷ m) h (le, pos, rest) = (omega arith, pos, rest)

pub last_to_below :
    (low offset : ℕ) (m : Ordered (List ℕ)) → Apart low m → offset < low → last_to offset m ≡ none
unfolding last_to
last_to_below low offset [] a h = refl
last_to_below low offset ((k, v) ∷ m) a h = ground arith

-- The block at or before an offset lies among the blocks.
last_to_among :
    (low offset k : ℕ) (v : List ℕ) (m : Ordered (List ℕ))
    → Apart low m
    → last_to offset m ≡ some (k, v)
    → (low ≤ k) × (k ≤ offset)
unfolding last_to
last_to_among low offset k v [] a e = absurd (cc)
last_to_among low offset k v ((j, w) ∷ m) a e =
    ground (arith, last_to_among (j + length w) offset k v m)

-- What `insert` does to blocks that the two checks let through.
pub record Inserted (low offset : ℕ) (bytes : List ℕ) (m : Ordered (List ℕ)) : Type 0 where
  pub apart : Apart low (insert offset bytes m)
  pub sum : total (insert offset bytes m) ≡ length bytes + total m
  pub count : length (insert offset bytes m) ≡ suc (length m)

-- What the checks say of the first block.
module _ (offset k : ℕ) (bytes v : List ℕ) (m : Ordered (List ℕ)) (rest : Apart (k + length v) m)
    (p : against_previous offset bytes (last_to offset ((k, v) ∷ m)) ≡ ok store)
    (f : against_following offset bytes (first_from offset ((k, v) ∷ m)) ≡ ok tt) where
  clear_of_following : offset < k → offset + length bytes ≤ k
  unfolding against_following first_from
  clear_of_following h = ground arith

  not_same_start : 0 < length v → k ≢ offset
  unfolding against_previous last_to
  not_same_start full e = ground (arith, e, last_to_below (k + length v) offset m)

  clear_of_previous : k < offset → k + length v ≤ offset
  unfolding against_previous last_to
  clear_of_previous h = elim (Option-cases (last_to offset m)) [
    | inl e ↦ ground (arith, e)
    | inr ((j, w), e) ↦ omega (arith, last_to_among (k + length v) offset j w m rest e)
  ]

  previous_in_rest : k < offset → against_previous offset bytes (last_to offset m) ≡ ok store
  unfolding against_previous last_to
  previous_in_rest h = elim (Option-cases (last_to offset m)) [
    | inl e ↦ rw e
    | inr ((j, w), e) ↦ ground (arith, e)
  ]

  following_in_rest : k < offset → against_following offset bytes (first_from offset m) ≡ ok tt
  unfolding against_following first_from
  following_in_rest h = ground arith

pub insert-Inserted :
    (low offset : ℕ) (bytes : List ℕ) (m : Ordered (List ℕ))
    → low ≤ offset
    → 0 < length bytes
    → Apart low m
    → against_previous offset bytes (last_to offset m) ≡ ok store
    → against_following offset bytes (first_from offset m) ≡ ok tt
    → Inserted low offset bytes m
unfolding insert
insert-Inserted low offset bytes [] h pos a p f = record {
  apart = (h, pos, tt);
  sum = omega arith;
  count = refl;
}
insert-Inserted low offset bytes ((k, v) ∷ m) h pos (le, full, rest) p f =
    elim (Bool-cases (ltb offset k)) [
      | inl before ↦
          let fits = clear_of_following offset k bytes v m rest p f (ltb→lt _ _ before) in
          record {
            apart = rw before (h, pos, (fits, full, rest));
            sum = rw before (omega arith);
            count = rw before;
          }
      | inr not_before ↦ elim (Bool-cases (k == offset)) [
        | inl same ↦ absurd (not_same_start offset k bytes v m rest p f full (==→eq k offset same))
        | inr other ↦
            let behind : k < offset = omega (arith, ltb→le _ _ not_before, ==→ne k offset other) in
            let ih =
              insert-Inserted (k + length v) offset bytes m
                (clear_of_previous offset k bytes v m rest p f behind) pos rest
                (previous_in_rest offset k bytes v m rest p f behind)
                (following_in_rest offset k bytes v m rest p f behind) in
            record {
              apart = rw (not_before, other) (le, full, ih.apart);
              sum = rw (not_before, other) (omega (arith, ih.sum));
              count = rw (not_before, other) (omega (arith, ih.count));
            }
      ]
    ]

-- The block at `low`, if there is one, is the first.
pub record Head (low : ℕ) (block : List ℕ) (m : Ordered (List ℕ)) : Type 0 where
  pub apart : Apart (low + length block) (remove low m)
  pub sum : total m ≡ length block + total (remove low m)
  pub count : length m ≡ suc (length (remove low m))

remove_below : (low k : ℕ) (m : Ordered (List ℕ)) → Apart low m → k < low → remove k m ≡ m
unfolding remove
remove_below low k [] a h = refl
remove_below low k ((j, v) ∷ m) a h = ground (arith, remove_below (j + length v) k m)

pub lookup-Head :
    (low : ℕ) (block : List ℕ) (m : Ordered (List ℕ))
    → Apart low m
    → lookup low m ≡ some block
    → Head low block m
unfolding lookup remove
lookup-Head low block [] a e = absurd (cc)
lookup-Head low block ((k, v) ∷ m) (le, pos, rest) e = elim (Bool-cases (k == low)) [
  | inl same ↦
      let at : k ≡ low = ==→eq k low same in
      let it : v ≡ block = ground arith in
      let stays : remove low m ≡ m = remove_below (k + length v) low m rest (omega arith) in
      record {
        apart = rw (same, stays) (rw (← at, ← it) rest);
        sum = rw (same, stays, it);
        count = rw (same, stays);
      }
  | inr other ↦ absurd (
      ground (
        arith,
        lookup_below (k + length v) low m (Apart-From (k + length v) m rest)
            (omega (arith, ==→ne k low other)),
      ))
]

pub Apart-missing :
    (low : ℕ) (m : Ordered (List ℕ)) → Apart low m → lookup low m ≡ none → Apart (suc low) m
unfolding lookup
Apart-missing low [] a e = tt
Apart-missing low ((k, v) ∷ m) (le, pos, rest) e = (ground arith, pos, rest)
