-- ===== src/Transport/Error.antt =====
-- crates/wsnet-transport/src/error.rs: the errors that the modelled carriers return.
use Prim.Native.Nat.{ℕ}
use Prim.Native.String.{String}

pub data CarrierError : Type 0 where
  too_many_records body_too_large envelope_too_large sse_event_too_large : ℕ → ℕ → CarrierError
  truncated : String → CarrierError
  incomplete_event invalid_utf8 invalid_base64 : CarrierError
