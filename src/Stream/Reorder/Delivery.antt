-- ===== src/Stream/Reorder/Delivery.antt =====
-- crates/wsnet-stream/src/lib.rs: what a reorder buffer delivers when every block is cut from one
-- source stream. The source is a function from absolute offsets to bytes.
use my_websocket_net.Prelude.{
  ℕ, zero, suc, ◌+◌, ◌≡◌, refl, sym, ap, ◌⊎◌, true, false, ◌∙◌, inl, inr, Bool-cases, Option-cases,
  some, List, [], ◌∷◌, ◌++◌, All, arith, length, length-append, ◌==◌, ==→eq,
}
use my_websocket_net.Prelude.Ordered.{
  Ordered, insert, lookup-nil, lookup, lookup-insert, lookup-remove,
}
use mathlib.Core.Path.{ap₂}
use my_websocket_net.Prelude.Result.{Result, ok, err}
use my_websocket_net.Stream.Error.{StreamError}
use my_websocket_net.Stream.Reorder.{
  drain_stops, drain_goes_on, ReorderBuffer, with_limit, Placement, drop, store, place, drain_block,
  drain, store_and_drain, act, insert_offsets,
}

-- `n` bytes of the source from an offset on.
unfoldable pub segment : (ℕ → ℕ) → ℕ → ℕ → List ℕ
segment source offset zero = []
segment source offset (suc n) = source offset ∷ segment source (suc offset) n

length-segment : (source : ℕ → ℕ) (offset n : ℕ) → length (segment source offset n) ≡ n
unfolding segment
length-segment source offset zero = refl
length-segment source offset (suc n) = ap suc (length-segment source (suc offset) n)

segment-append :
    (source : ℕ → ℕ) (offset m n : ℕ)
    → segment source offset m ++ segment source (offset + m) n ≡ segment source offset (m + n)
unfolding segment
segment-append source offset zero n =
    ap (λ o. segment source o n) {x = offset + 0} (omega arith)
    ∙ ap (segment source offset) {y = 0 + n} (omega arith)
segment-append source offset (suc m) n =
    ap (λ o. source offset ∷ (segment source (suc offset) m ++ segment source o n))
      {x = offset + suc m} {y = suc offset + m} (omega arith)
    ∙ ap (◌∷◌ (source offset)) (segment-append source (suc offset) m n)
    ∙ ap (segment source offset) {x = suc (m + n)} {y = suc m + n} (omega arith)

-- A block cut from the source at its offset.
abbrev pub IsCut : (ℕ → ℕ) → ℕ × List ℕ → Type 0
IsCut source (offset, bytes) = bytes ≡ segment source offset (length bytes)

-- The bytes of the delivered blocks, in the order of delivery.
abbrev pub joined : List (ℕ × List ℕ) → List ℕ
joined [] = []
joined ((_, bytes) ∷ ds) = bytes ++ joined ds

abbrev HoldsCuts : (ℕ → ℕ) → Ordered (List ℕ) → Type 0
HoldsCuts source pending =
    (k : ℕ) (v : List ℕ) → lookup k pending ≡ some v → v ≡ segment source k (length v)

-- From `b` to `b'` exactly the source's next bytes came out, each block with its own offset.
record Delivers (source : ℕ → ℕ) (b : ReorderBuffer) (ds : List (ℕ × List ℕ)) (b' : ReorderBuffer)
    : Type 0 where
  pub bytes : joined ds ≡ segment source b.next (length (joined ds))
  pub moved : b'.next ≡ b.next + length (joined ds)
  pub blocks : All (IsCut source) ds
  pub held : HoldsCuts source b'.pending

module _ (source : ℕ → ℕ) where
  remaining :
      (b : ReorderBuffer) (block : List ℕ)
      → HoldsCuts source b.pending
      → HoldsCuts source (drain_block b.next block b).pending
  unfolding drain_block
  remaining b block h k v e = h k v (ground (arith, lookup-remove b.next k b.pending))

  -- One block more in front of a delivery.
  prepend :
      (b : ReorderBuffer) (block : List ℕ)
      → IsCut source (b.next, block)
      → (ds : List (ℕ × List ℕ)) (b' : ReorderBuffer)
      → Delivers source (drain_block b.next block b) ds b'
      → Delivers source b ((b.next, block) ∷ ds) b'
  unfolding drain_block
  prepend b block cut ds b' d = record {
    bytes =
        ap₂ ◌++◌ cut d.bytes
        ∙ segment-append source b.next (length block) (length (joined ds))
        ∙ ap (segment source b.next) (sym (length-append block (joined ds)));
    moved = omega (arith, d.moved, length-append block (joined ds));
    blocks = (cut, d.blocks);
    held = d.held;
  }

  drain-Delivers :
      (fuel : ℕ) (b : ReorderBuffer)
      → HoldsCuts source b.pending
      → Delivers source b (drain fuel b).0 (drain fuel b).1
  unfolding drain
  drain-Delivers zero b h = record {
    bytes = unfold segment in refl;
    moved = omega arith;
    blocks = tt;
    held = h;
  }
  drain-Delivers (suc fuel) b h = elim (Option-cases (lookup b.next b.pending)) [
    | inl e ↦
        rw (drain_stops fuel b e)
          (record { bytes = unfold segment in refl; moved = omega arith; blocks = tt; held = h })
    | inr (block, e) ↦
        let b' = drain_block b.next block b in
        let later = drain-Delivers fuel b' (remaining b block h) in
        rw (drain_goes_on fuel b block e) (prepend b block (h b.next block e) _ _ later)
  ]

  store_and_drain-Delivers :
      (b : ReorderBuffer) (offset : ℕ) (bytes : List ℕ)
      → HoldsCuts source b.pending
      → IsCut source (offset, bytes)
      → Delivers source b (store_and_drain b offset bytes).0 (store_and_drain b offset bytes).1
  unfolding store_and_drain
  store_and_drain-Delivers b offset bytes h cut =
      let d =
        drain-Delivers (length (insert offset bytes b.pending))
          (record b {
            buffered = b.buffered + length bytes;
            pending = insert offset bytes b.pending;
          })
          (λ k v e. stored k v e (Bool-cases (offset == k))) in
      record { bytes = d.bytes; moved = d.moved; blocks = d.blocks; held = d.held }
    where
      stored :
          (k : ℕ) (v : List ℕ)
          → lookup k (insert offset bytes b.pending) ≡ some v
          → ((offset == k) ≡ true) ⊎ ((offset == k) ≡ false)
          → v ≡ segment source k (length v)
      stored k v e (inl same) =
          ground (arith, lookup-insert offset k bytes b.pending, cut, ==→eq offset k same)
      stored k v e (inr other) =
          h k v (rw other at (rw (lookup-insert offset k bytes b.pending) at e))

-- The blocks that an insertion delivers; none if it is refused.
abbrev pub delivered_by : Result (List (ℕ × List ℕ)) StreamError → List (ℕ × List ℕ)
delivered_by (ok ds) = ds
delivered_by (err e) = []

module _ (source : ℕ → ℕ) where
  insert_offsets-Delivers :
      (b : ReorderBuffer) (offset : ℕ) (bytes : List ℕ)
      → HoldsCuts source b.pending
      → IsCut source (offset, bytes)
      → Delivers source b
          (delivered_by (insert_offsets b offset bytes).0)
          (insert_offsets b offset bytes).1
  unfolding insert_offsets
  insert_offsets-Delivers b offset bytes h cut = go (place b offset bytes)
    where
      nothing : Delivers source b [] b
      nothing = record {
        bytes = unfold segment in refl;
        moved = omega arith;
        blocks = tt;
        held = h;
      }

      go :
          (p : Result Placement StreamError)
          → Delivers source b (delivered_by (act b offset bytes p).0) (act b offset bytes p).1
      go (err e) = nothing
      go (ok drop) = nothing
      go (ok store) = store_and_drain-Delivers source b offset bytes h cut

-- The bytes that a sequence of insertions delivers, and the buffer behind it.
unfoldable pub receive : ReorderBuffer → List (ℕ × List ℕ) → List ℕ × ReorderBuffer
receive b [] = ([], b)
receive b ((offset, bytes) ∷ arrivals) =
    let r = insert_offsets b offset bytes in
    let later = receive r.1 arrivals in (joined (delivered_by r.0) ++ later.0, later.1)

receive-segment :
    (source : ℕ → ℕ) (arrivals : List (ℕ × List ℕ)) (b : ReorderBuffer)
    → HoldsCuts source b.pending
    → All (IsCut source) arrivals
    → let r = receive b arrivals in
      (r.0 ≡ segment source b.next (length r.0)) × (r.1.next ≡ b.next + length r.0)
unfolding receive
receive-segment source [] b h cuts = (unfold segment in refl, omega arith)
receive-segment source ((offset, bytes) ∷ arrivals) b h (cut, cuts) =
    let r = insert_offsets b offset bytes in
    let d = insert_offsets-Delivers source b offset bytes h cut in
    let (same, moved) = receive-segment source arrivals r.1 d.held cuts in
    let now = joined (delivered_by r.0) in
    let later = (receive r.1 arrivals).0 in
    (
      ap₂ ◌++◌ d.bytes (same ∙ ap (λ o. segment source o (length later)) d.moved)
          ∙ segment-append source b.next (length now) (length later)
          ∙ ap (segment source b.next) (sym (length-append now later)),
      omega (arith, moved, d.moved, length-append now later),
    )

-- Whatever blocks of one source stream arrive, in any order, any number of times, and whichever of
-- them the budgets refuse: the bytes delivered are exactly the source's bytes from the start offset
-- up to the next expected offset, each once and in order.
pub receive_exactly_once :
    (source : ℕ → ℕ) (start limit : ℕ) (arrivals : List (ℕ × List ℕ))
    → All (IsCut source) arrivals
    → let r = receive (with_limit start limit) arrivals in
      (r.0 ≡ segment source start (length r.0)) × (r.1.next ≡ start + length r.0)
receive_exactly_once source start limit arrivals cuts =
    receive-segment source arrivals (with_limit start limit) (λ k v e. cc (lookup-nil k)) cuts
