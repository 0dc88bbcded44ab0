-- ===== src/Stream/Error.antt =====
-- crates/wsnet-stream/src/lib.rs: the errors of both state machines.
use my_websocket_net.Prelude.{ℕ}

-- Each constructor has the fields of the source's variant, in its order.
pub data StreamError : Type 0 where
  credit_exceeded already_received out_of_order consume_beyond_received : ℕ → ℕ → StreamError
  offset_overflow : StreamError
  reorder_overflow too_many_blocks : ℕ → ℕ → StreamError
  too_far_ahead : ℕ → ℕ → ℕ → ℕ → StreamError
  conflicting_overlap : ℕ → ℕ → StreamError
