-- ===== src/Stream/Reorder.antt =====
-- crates/wsnet-stream/src/lib.rs: `ReorderBuffer`. Bytes are numbers. An offset is a u64, so a sum of
-- offsets is checked where the source checks it; a block that passed the check cannot overflow.
pub mod Delivery
pub mod Apart
pub mod Drain
pub mod Budgets
mod Tests
use my_websocket_net.Prelude.{
  ◌≡◌, ℕ, zero, suc, ◌+◌, ◌-◌, min, Bool, true, false, not, ◌&&◌, Option, none, some, List, [], ◌∷◌,
  ◌++◌, ltb, leb, ◌==◌, if◌then◌else◌, length,
}
use my_websocket_net.Prelude.Ordered
use my_websocket_net.Prelude.Ordered.{Ordered}
use my_websocket_net.Prelude.Result.{Result, ok, err, ◌>>=◌, ◌>>◌, refuse}
use my_websocket_net.Limits.{
  u64_max, reorder_buffer_bytes, reorder_max_out_of_order_bytes, reorder_max_blocks,
}
use my_websocket_net.Stream.Error.{
  StreamError, offset_overflow, reorder_overflow, too_many_blocks, too_far_ahead,
  conflicting_overlap,
}

pub record ReorderBuffer : Type 0 where
  pub next : ℕ
  pub pending : Ordered (List ℕ)
  pub buffered : ℕ
  pub limit_bytes : ℕ
  pub limit_blocks : ℕ
  pub look_ahead_bytes : ℕ

abbrev pub with_limit : ℕ → ℕ → ReorderBuffer
with_limit start_offset limit_bytes = record {
  next = start_offset;
  pending = [];
  buffered = 0;
  limit_bytes = min limit_bytes reorder_buffer_bytes;
  limit_blocks = reorder_max_blocks;
  look_ahead_bytes = reorder_buffer_bytes;
}

abbrev pub new : ℕ → ReorderBuffer
new start_offset = with_limit start_offset reorder_max_out_of_order_bytes

abbrev pub with_block_limit : ReorderBuffer → ℕ → ReorderBuffer
with_block_limit b limit_blocks = record b { limit_blocks = limit_blocks }

-- `pending.range(..=offset).next_back()`.
pub last_to : ℕ → Ordered (List ℕ) → Option (ℕ × List ℕ)
last_to offset [] = none
last_to offset ((k, v) ∷ m) =
    let later = last_to offset m in
    if leb k offset then (elim later [ none ↦ some (k, v) | some e ↦ some e ]) else none

-- `pending.range(offset..).next()`.
pub first_from : ℕ → Ordered (List ℕ) → Option (ℕ × List ℕ)
first_from offset [] = none
first_from offset ((k, v) ∷ m) =
    let later = first_from offset m in if leb offset k then some (k, v) else later

-- Equality of slices.
pub same_bytes : List ℕ → List ℕ → Bool
same_bytes [] [] = true
same_bytes (x ∷ xs) (y ∷ ys) = x == y && same_bytes xs ys
same_bytes _ _ = false

-- What the checks of `insert_offsets` decide: the block is dropped, or it is stored.
pub data Placement : Type 0 where
  drop store : Placement

-- The buffered block at or before the offset.
pub against_previous : ℕ → List ℕ → Option (ℕ × List ℕ) → Result Placement StreamError
against_previous offset bytes none = ok store
against_previous offset bytes (some (prev_offset, prev_data)) =
    if prev_offset == offset
    then (if same_bytes prev_data bytes
        then ok drop
        else err (conflicting_overlap offset (length bytes)))
    else if ltb offset (prev_offset + length prev_data)
    then err (conflicting_overlap offset (length bytes))
    else ok store

-- The buffered block at or behind the offset.
pub against_following : ℕ → List ℕ → Option (ℕ × List ℕ) → Result (Unit {0}) StreamError
against_following offset bytes none = ok tt
against_following offset bytes (some (next_offset, _)) =
    refuse (ltb next_offset (offset + length bytes)) (conflicting_overlap offset (length bytes))

-- The byte budget and the block budget.
pub within_budget : ReorderBuffer → ℕ → List ℕ → Result Placement StreamError
within_budget b offset bytes = do
  let would_hold = b.buffered + length bytes
  refuse (ltb b.limit_bytes would_hold) (reorder_overflow would_hold b.limit_bytes)
  let blocks = length b.pending + 1
  refuse (not (offset == b.next) && ltb b.limit_blocks blocks)
      (too_many_blocks blocks b.limit_blocks)
  ok store

-- The checks against the buffered blocks: an equal block ends them.
pub placed_among : ReorderBuffer → ℕ → List ℕ → Placement → Result Placement StreamError
placed_among b offset bytes drop = ok drop
placed_among b offset bytes store = do
  against_following offset bytes (first_from offset b.pending)
  within_budget b offset bytes

pub place : ReorderBuffer → ℕ → List ℕ → Result Placement StreamError
place b offset [] = ok drop
place b offset (x ∷ xs) =
    let bytes = x ∷ xs in
    let end = offset + length bytes in
    if ltb u64_max end
    then err offset_overflow
    else if leb end b.next
    then ok drop
    else if ltb offset b.next
    then err (conflicting_overlap offset (length bytes))
    else if ltb b.look_ahead_bytes (offset - b.next)
    then err (too_far_ahead offset b.next (offset - b.next) b.look_ahead_bytes)
    else (against_previous offset bytes (last_to offset b.pending) >>= placed_among b offset bytes)

-- One round of the drain loop, if the next block is there. Each round takes a block out.
pub drain_block : ℕ → List ℕ → ReorderBuffer → ReorderBuffer
drain_block next block b = record b {
  next = next + length block;
  pending = Ordered.remove next b.pending;
  buffered = b.buffered - length block;
}

pub drain : ℕ → ReorderBuffer → List (ℕ × List ℕ) × ReorderBuffer
drain zero b = ([], b)
drain (suc fuel) b = elim (Ordered.lookup b.next b.pending) [
  | none ↦ ([], b)
  | some block ↦
      let (delivered, b') = drain fuel (drain_block b.next block b) in
      ((b.next, block) ∷ delivered, b')
]

pub drain_stops :
    (fuel : ℕ) (b : ReorderBuffer)
    → Ordered.lookup b.next b.pending ≡ none
    → drain (suc fuel) b ≡ ([], b)
unfolding drain
drain_stops fuel b e = rw (e, drain)

pub drain_goes_on :
    (fuel : ℕ) (b : ReorderBuffer) (block : List ℕ)
    → Ordered.lookup b.next b.pending ≡ some block
    → let b' = drain_block b.next block b in
      drain (suc fuel) b ≡ ((b.next, block) ∷ (drain fuel b').0, (drain fuel b').1)
unfolding drain
drain_goes_on fuel b block e = rw (e, drain)

-- The new block goes in and everything contiguous comes out. As many rounds as there are blocks are
-- enough.
pub store_and_drain : ReorderBuffer → ℕ → List ℕ → List (ℕ × List ℕ) × ReorderBuffer
store_and_drain b offset bytes =
    let pending = Ordered.insert offset bytes b.pending in
    drain (length pending) (record b { buffered = b.buffered + length bytes; pending = pending })

act :
    ReorderBuffer
    → ℕ
    → List ℕ
    → Result Placement StreamError
    → Result (List (ℕ × List ℕ)) StreamError × ReorderBuffer
act b offset bytes (err e) = (err e, b)
act b offset bytes (ok drop) = (ok [], b)
act b offset bytes (ok store) =
    let (delivered, b') = store_and_drain b offset bytes in (ok delivered, b')

pub insert_offsets :
    ReorderBuffer → ℕ → List ℕ → Result (List (ℕ × List ℕ)) StreamError × ReorderBuffer
unfolding act
insert_offsets b offset bytes = act b offset bytes (place b offset bytes)

abbrev pub blocks_of : List (ℕ × List ℕ) → List (List ℕ)
blocks_of [] = []
blocks_of ((_, bytes) ∷ ds) = bytes ∷ blocks_of ds

abbrev strip : Result (List (ℕ × List ℕ)) StreamError → Result (List (List ℕ)) StreamError
strip (err e) = err e
strip (ok ds) = ok (blocks_of ds)

pub insert : ReorderBuffer → ℕ → List ℕ → Result (List (List ℕ)) StreamError × ReorderBuffer
insert b offset bytes = (strip (insert_offsets b offset bytes).0, (insert_offsets b offset bytes).1)
