-- ===== src/Stream/Reorder/Drain.antt =====
-- crates/wsnet-stream/src/lib.rs: what the drain loop takes out and what it leaves.
use my_websocket_net.Prelude.{
  ℕ, zero, suc, ◌≤◌, ◌≡◌, refl, inl, inr, Option-cases, some, List, [], ◌∷◌, arith, length,
}
use my_websocket_net.Prelude.Ordered.{Ordered, lookup}
use my_websocket_net.Stream.Reorder.{ReorderBuffer, drain_block, drain, drain_stops, drain_goes_on}
use my_websocket_net.Stream.Reorder.Apart.{Apart, Apart-missing, total, lookup-Head}

pub record Drained (b b' : ReorderBuffer) : Type 0 where
  pub apart : Apart (suc b'.next) b'.pending
  pub sum : total b'.pending ≡ b'.buffered
  pub bytes : b'.buffered ≤ b.buffered
  pub blocks : length b'.pending ≤ length b.pending
  pub same_bytes : b'.limit_bytes ≡ b.limit_bytes
  pub same_blocks : b'.limit_blocks ≡ b.limit_blocks

pub drain-Drained :
    (fuel : ℕ) (b : ReorderBuffer)
    → length b.pending ≤ fuel
    → Apart b.next b.pending
    → total b.pending ≡ b.buffered
    → Drained b (drain fuel b).1
unfolding drain_block
drain-Drained zero b h a s =
    unfold drain in
    record {
      apart = none_left b.pending (omega arith);
      sum = s;
      bytes = omega arith;
      blocks = omega arith;
      same_bytes = refl;
      same_blocks = refl;
    }
  where
    none_left : (m : Ordered (List ℕ)) → length m ≤ 0 → Apart (suc b.next) m
    none_left [] h = tt
    none_left (e ∷ m) h = absurd (omega arith)
drain-Drained (suc fuel) b h a s = elim (Option-cases (lookup b.next b.pending)) [
  | inl e ↦ rw (drain_stops fuel b e) (record {
    apart = Apart-missing b.next b.pending a e;
    sum = s;
    bytes = omega arith;
    blocks = omega arith;
    same_bytes = refl;
    same_blocks = refl;
  })
  | inr (block, e) ↦
      let head = lookup-Head b.next block b.pending a e in
      let d =
        drain-Drained fuel (drain_block b.next block b) (omega (arith, head.count)) (head.apart)
          (omega (arith, head.sum)) in
      rw (drain_goes_on fuel b block e) (record {
        apart = d.apart;
        sum = d.sum;
        bytes = omega (arith, d.bytes);
        blocks = omega (arith, d.blocks, head.count);
        same_bytes = d.same_bytes;
        same_blocks = d.same_blocks;
      })
]

-- The first round of the loop takes a block out when the new one is the next.
pub drain_fewer :
    (fuel : ℕ) (b : ReorderBuffer) (block : List ℕ)
    → length b.pending ≤ suc fuel
    → Apart b.next b.pending
    → total b.pending ≡ b.buffered
    → lookup b.next b.pending ≡ some block
    → suc (length (drain (suc fuel) b).1.pending) ≤ length b.pending
unfolding drain_block
drain_fewer fuel b block h a s e =
    let head = lookup-Head b.next block b.pending a e in
    let d =
      drain-Drained fuel (drain_block b.next block b) (omega (arith, head.count)) head.apart
        (omega (arith, head.sum)) in
    rw (drain_goes_on fuel b block e) (omega (arith, d.blocks, head.count))
