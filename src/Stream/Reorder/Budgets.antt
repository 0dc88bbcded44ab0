-- ===== src/Stream/Reorder/Budgets.antt =====
-- crates/wsnet-stream/src/lib.rs: the buffered blocks between two calls, their order,
-- their bytes and the two budgets.
use my_websocket_net.Prelude.{
  ℕ, suc, ◌+◌, ◌≤◌, ◌<◌, ◌≡◌, refl, ◌⊎◌, inl, inr, some, List, [], ◌∷◌, arith, length,
}
use my_websocket_net.Prelude.Ordered.{Ordered, lookup, lookup-insert, insert}
use my_websocket_net.Prelude.Result.{Result, ok, err, ◌>>=◌, Result-cases}
use my_websocket_net.Limits.{u64_max}
use my_websocket_net.Stream.Error.{StreamError, reorder_overflow}
use my_websocket_net.Stream.Reorder.{
  ReorderBuffer, with_limit, Placement, drop, store, last_to, first_from, against_previous,
  against_following, within_budget, placed_among, place, drain, store_and_drain, act,
  insert_offsets,
}
use my_websocket_net.Stream.Reorder.Apart.{
  Apart, Apart-weaken, total, last_to_below, Inserted, insert-Inserted,
}
use my_websocket_net.Stream.Reorder.Drain.{drain-Drained, drain_fewer}

-- A buffer between two calls.
pub record IsSound (b : ReorderBuffer) : Type 0 where
  pub apart : Apart (suc b.next) b.pending
  pub sum : total b.pending ≡ b.buffered
  pub bytes : b.buffered ≤ b.limit_bytes
  pub blocks : length b.pending ≤ b.limit_blocks

-- What a stored block has passed.
record Passed (b : ReorderBuffer) (offset : ℕ) (bytes : List ℕ) : Type 0 where
  pub nonempty : 0 < length bytes
  pub ahead : b.next ≤ offset
  pub previous : against_previous offset bytes (last_to offset b.pending) ≡ ok store
  pub following : against_following offset bytes (first_from offset b.pending) ≡ ok tt
  pub room : b.buffered + length bytes ≤ b.limit_bytes
  pub count : (offset ≡ b.next) ⊎ (suc (length b.pending) ≤ b.limit_blocks)

placed_among-Passed :
    (b : ReorderBuffer) (offset : ℕ) (bytes : List ℕ) (p : Result Placement StreamError)
    → (p >>= placed_among b offset bytes) ≡ ok store
    → (p ≡ ok store)
      × (against_following offset bytes (first_from offset b.pending) ≡ ok tt)
      × (b.buffered + length bytes ≤ b.limit_bytes)
      × ((offset ≡ b.next) ⊎ (suc (length b.pending) ≤ b.limit_blocks))
unfolding placed_among within_budget
placed_among-Passed b offset bytes (err e) h = absurd (cc)
placed_among-Passed b offset bytes (ok drop) h = absurd (cc)
placed_among-Passed b offset bytes (ok store) h =
    elim (Result-cases (against_following offset bytes (first_from offset b.pending))) [
      | inl (tt, e) ↦ (refl, e, ground (arith, e), ground (arith, e))
      | inr (x, e) ↦ absurd (ground (arith, e))
    ]

place-Passed :
    (b : ReorderBuffer) (offset : ℕ) (bytes : List ℕ)
    → place b offset bytes ≡ ok store
    → Passed b offset bytes
unfolding place
place-Passed b offset [] h = absurd (cc)
place-Passed b offset (x ∷ xs) h =
    let (previous, following, room, count) =
      placed_among-Passed b offset (x ∷ xs)
        (against_previous offset (x ∷ xs) (last_to offset b.pending)) (ground arith) in
    record {
      nonempty = omega arith;
      ahead = ground arith;
      previous = previous;
      following = following;
      room = room;
      count = count;
    }

module _ (b : ReorderBuffer) (offset : ℕ) (bytes : List ℕ) (v : IsSound b)
    (p : Passed b offset bytes) where
  stored : ReorderBuffer
  stored = record b {
    buffered = b.buffered + length bytes;
    pending = insert offset bytes b.pending;
  }

  stored-Inserted : Inserted b.next offset bytes b.pending
  stored-Inserted =
      insert-Inserted b.next offset bytes b.pending p.ahead p.nonempty
        (Apart-weaken (suc b.next) b.next b.pending (omega arith) v.apart) p.previous p.following

  stored_first : offset ≡ b.next → lookup b.next (insert offset bytes b.pending) ≡ some bytes
  stored_first at = ground (arith, lookup-insert offset b.next bytes b.pending)

  drained_count :
      length (drain (length (insert offset bytes b.pending)) stored).1.pending ≤ b.limit_blocks
  unfolding stored
  drained_count = go p.count
    where
      i : Inserted b.next offset bytes b.pending
      i = stored-Inserted

      go :
          (offset ≡ b.next) ⊎ (suc (length b.pending) ≤ b.limit_blocks)
          → length (drain (length (insert offset bytes b.pending)) stored).1.pending
            ≤ b.limit_blocks
      go (inl at) = rw i.count (
          omega (
            arith,
            drain_fewer (length b.pending) stored bytes (omega (arith, i.count)) i.apart
                (omega (arith, i.sum, v.sum)) (stored_first at),
            i.count,
            v.blocks,
          ))
      go (inr room) = omega (
        arith,
        (drain-Drained (length (insert offset bytes b.pending)) stored (omega arith) i.apart
            (omega (arith, i.sum, v.sum))).blocks,
        i.count,
        room,
      )

  store_and_drain-IsSound : IsSound (store_and_drain b offset bytes).1
  unfolding store_and_drain stored
  store_and_drain-IsSound =
      let i = stored-Inserted in
      let d =
        drain-Drained (length (insert offset bytes b.pending)) stored (omega arith) i.apart
          (omega (arith, i.sum, v.sum)) in
      record {
        apart = d.apart;
        sum = d.sum;
        bytes = omega (arith, d.bytes, d.same_bytes, p.room);
        blocks = omega (arith, drained_count, d.same_blocks);
      }

-- Every call, accepted or refused, keeps the buffered blocks apart, nonempty and ahead of the next
-- offset, so that none of them could be delivered; their bytes are what is counted; and both the
-- byte budget and the block budget hold.
pub insert_offsets-IsSound :
    (b : ReorderBuffer) (offset : ℕ) (bytes : List ℕ)
    → IsSound b
    → IsSound (insert_offsets b offset bytes).1
unfolding insert_offsets
insert_offsets-IsSound b offset bytes v = go (place b offset bytes) refl
  where
    go :
        (p : Result Placement StreamError)
        → place b offset bytes ≡ p
        → IsSound (act b offset bytes p).1
    go (err e) h = v
    go (ok drop) h = v
    go (ok store) h = store_and_drain-IsSound b offset bytes v (place-Passed b offset bytes h)

pub with_limit-IsSound : (start limit : ℕ) → IsSound (with_limit start limit)
with_limit-IsSound start limit = record {
  apart = tt;
  sum = refl;
  bytes = omega arith;
  blocks = omega arith;
}

-- The head of the line can be refused for want of room: while `buffered` bytes wait behind a gap, a
-- block that starts at the next offset, and would be delivered at once, is refused with the buffer
-- unchanged whenever it is longer than what the byte budget has left.
pub head_of_line_refused :
    (b : ReorderBuffer) (bytes : List ℕ)
    → IsSound b
    → 0 < length bytes
    → b.next + length bytes ≤ u64_max
    → (k : ℕ) (v : List ℕ) (m : Ordered (List ℕ)) → b.pending ≡ (k, v) ∷ m
    → b.next + length bytes ≤ k
    → b.limit_bytes < b.buffered + length bytes
    → insert_offsets b b.next bytes
      ≡ (err (reorder_overflow (b.buffered + length bytes) b.limit_bytes), b)
unfolding insert_offsets place placed_among within_budget against_previous against_following
    first_from
head_of_line_refused b [] s pos fits k v m e gap over = absurd (omega arith)
head_of_line_refused b (x ∷ xs) s pos fits k v m e gap over = ground (
  arith,
  last_to_below (suc b.next) b.next b.pending s.apart (omega arith),
  first_block b.pending e,
)
  where
    first_block : (p : Ordered (List ℕ)) → p ≡ (k, v) ∷ m → first_from b.next p ≡ some (k, v)
    first_block [] e = absurd (cc)
    first_block ((j, w) ∷ m') e = ground arith
