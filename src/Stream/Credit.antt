-- ===== src/Stream/Credit.antt =====
-- crates/wsnet-stream/src/lib.rs: `CreditAccount`. Offsets are u64: `checked_add` fails and
-- `saturating_add` stops at `u64::MAX`; `-` stops at 0, like `saturating_sub`.
pub mod Window
mod Tests
use my_websocket_net.Prelude.{ℕ, ◌+◌, ◌-◌, min, max, ltb, ◌==◌, if◌then◌else◌}
use my_websocket_net.Prelude.Result.{Result, ok, err}
use my_websocket_net.Limits.{u64_max, stream_max_credit}
use my_websocket_net.Stream.Error.{
  StreamError, credit_exceeded, already_received, out_of_order, consume_beyond_received,
  offset_overflow,
}

pub record CreditAccount : Type 0 where
  pub window : ℕ
  pub received : ℕ
  pub consumed : ℕ
  pub limit : ℕ

abbrev pub new : ℕ → ℕ → CreditAccount
new initial_credit window = record {
  window = max (min window stream_max_credit) initial_credit;
  received = 0;
  consumed = 0;
  limit = initial_credit;
}

pub outstanding : CreditAccount → ℕ
outstanding a = a.limit - a.received

abbrev pub saturating_add : ℕ → ℕ → ℕ
saturating_add a b = min (a + b) u64_max

pub record_received : CreditAccount → ℕ → ℕ → Result (Unit {0}) StreamError × CreditAccount
record_received a offset len =
    let end = offset + len in
    if len == 0
    then (ok tt, a)
    else if ltb u64_max end
    then (err offset_overflow, a)
    else if ltb a.limit end
    then (err (credit_exceeded end a.limit), a)
    else if ltb offset a.received
    then (err (already_received offset a.received), a)
    else if ltb a.received offset
    then (err (out_of_order offset a.received), a)
    else (ok tt, record a { received = end })

pub consume : CreditAccount → ℕ → Result ℕ StreamError × CreditAccount
consume a bytes =
    let consumed_to = a.consumed + bytes in
    let grant = saturating_add consumed_to a.window - a.limit in
    if ltb u64_max consumed_to
    then (err offset_overflow, a)
    else if ltb a.received consumed_to
    then (err (consume_beyond_received consumed_to a.received), a)
    else (ok grant, record a { consumed = consumed_to; limit = saturating_add a.limit grant })
