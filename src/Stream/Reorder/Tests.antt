-- ===== src/Stream/Reorder/Tests.antt =====
-- Runs of the reorder buffer, and its theorems at concrete inputs.
use my_websocket_net.Prelude.{ℕ, ◌+◌, ◌≡◌, refl, List, [], ◌∷◌, arith, length}
use my_websocket_net.Prelude.Ordered.{lookup, insert, remove}
use my_websocket_net.Prelude.Result.{err}
use my_websocket_net.Stream.Error.{
  reorder_overflow, too_many_blocks, too_far_ahead, conflicting_overlap,
}
use my_websocket_net.Stream.Reorder.{
  ReorderBuffer, with_limit, with_block_limit, new, last_to, first_from, same_bytes,
  against_previous, against_following, within_budget, placed_among, place, drain_block, drain,
  store_and_drain, insert_offsets,
}
use my_websocket_net.Stream.Reorder.Delivery.{segment, receive, receive_exactly_once}
use my_websocket_net.Stream.Reorder.Budgets.{IsSound, insert_offsets-IsSound, head_of_line_refused}

-- The source's byte at an offset is the offset.
abbrev counting : ℕ → ℕ
counting offset = offset

-- Out of order, with a repeat.
abbrev arrivals : List (ℕ × List ℕ)
arrivals =
    (3, 3 ∷ 4 ∷ 5 ∷ [])
    ∷ (6, 6 ∷ [])
    ∷ (3, 3 ∷ 4 ∷ 5 ∷ [])
    ∷ (0, 0 ∷ 1 ∷ 2 ∷ [])
    ∷ (1, 1 ∷ 2 ∷ [])
    ∷ []

arrivals_received : (receive (new 0) arrivals).0 ≡ 0 ∷ 1 ∷ 2 ∷ 3 ∷ 4 ∷ 5 ∷ 6 ∷ []
unfolding receive insert_offsets place last_to first_from same_bytes against_previous
    against_following within_budget placed_among drain_block drain store_and_drain lookup insert
    remove
arrivals_received = refl

receive_exactly_once_example :
    ((receive (with_limit 0 64) arrivals).0
      ≡ segment counting 0 (length (receive (with_limit 0 64) arrivals).0))
    × ((receive (with_limit 0 64) arrivals).1.next
        ≡ 0 + length (receive (with_limit 0 64) arrivals).0)
receive_exactly_once_example =
    receive_exactly_once counting 0 64 arrivals
      (unfold segment in (refl, (refl, (refl, (refl, (refl, tt))))))

-- Eight bytes wait behind a gap of four, in a budget of ten.
abbrev gap : ReorderBuffer
gap = record (with_limit 0 10) {
  pending = (4, 1 ∷ 1 ∷ 1 ∷ 1 ∷ 1 ∷ 1 ∷ 1 ∷ 1 ∷ []) ∷ [];
  buffered = 8;
}

gap-IsSound : IsSound gap
gap-IsSound = record { apart = omega arith; sum = refl; bytes = omega arith; blocks = omega arith }

insert_offsets-IsSound_example : IsSound (insert_offsets gap 0 (9 ∷ 9 ∷ [])).1
insert_offsets-IsSound_example = insert_offsets-IsSound gap 0 (9 ∷ 9 ∷ []) gap-IsSound

head_of_line_refused_example :
    insert_offsets gap 0 (9 ∷ 9 ∷ 9 ∷ 9 ∷ []) ≡ (err (reorder_overflow 12 10), gap)
head_of_line_refused_example =
    head_of_line_refused gap (9 ∷ 9 ∷ 9 ∷ 9 ∷ []) gap-IsSound (omega arith) (omega arith) 4
      (1 ∷ 1 ∷ 1 ∷ 1 ∷ 1 ∷ 1 ∷ 1 ∷ 1 ∷ []) [] refl (omega arith) (omega arith)

conflicts : (insert_offsets gap 6 (2 ∷ 2 ∷ [])).0 ≡ err (conflicting_overlap 6 2)
unfolding insert_offsets place last_to first_from same_bytes against_previous against_following
    within_budget placed_among
conflicts = refl

too_far : (insert_offsets gap 262145 (2 ∷ [])).0 ≡ err (too_far_ahead 262145 0 262145 262144)
unfolding insert_offsets place
too_far = refl

blocks_full : (insert_offsets (with_block_limit gap 1) 13 (2 ∷ [])).0 ≡ err (too_many_blocks 2 1)
unfolding insert_offsets place last_to first_from same_bytes against_previous against_following
    within_budget placed_among
blocks_full = refl
