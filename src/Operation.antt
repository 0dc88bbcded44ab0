-- ===== src/Operation.antt =====
-- crates/wsnet-operation/src/lib.rs: the at-most-once table of one session. A `RequestId` is the
-- number of its 16 bytes, which orders like the byte array; an `OperationHash` is the number of its
-- 32 bytes, computed outside by the `sha2` crate. A `BTreeSet` is a `BTreeMap` to the unit type, as in
-- the standard library. Methods return the new table.
pub mod Admission
pub mod Ticks
pub mod AtMostOnce
pub mod Bounds
mod Tests
use my_websocket_net.Prelude.{
  ℕ, ◌+◌, ◌-◌, ◌*◌, Bool, true, false, ◌||◌, ◌&&◌, not, Option, none, some, List, [], ◌∷◌, ltb, leb,
  ◌==◌, if◌then◌else◌, length,
}
use my_websocket_net.Prelude.Ordered
use my_websocket_net.Prelude.Ordered.{Ordered}
use my_websocket_net.Prelude.Result.{Result, ok, err}
use my_websocket_net.Limits.{
  operation_max_pending, operation_open_timeout_secs, operation_result_retention_secs,
  operation_tombstone_max,
}

pub data Outcome : Type 0 where
  complete failed : List ℕ → Outcome

pub data OperationState : Type 0 where
  pending : OperationState
  settled : Outcome → OperationState

pub data Admit : Type 0 where
  execute already_pending : Admit
  cached : Outcome → Admit

pub data OperationError : Type 0 where
  conflict : OperationError
  capacity_exceeded : ℕ → OperationError
  session_exhausted retired unknown already_settled : OperationError

pub record OperationConfig : Type 0 where
  pub max_records : ℕ
  pub open_timeout_ms : ℕ
  pub result_retention_ms : ℕ
  pub tombstone_max : ℕ

abbrev pub default_config : OperationConfig
default_config = record {
  max_records = operation_max_pending;
  open_timeout_ms = operation_open_timeout_secs * 1000;
  result_retention_ms = operation_result_retention_secs * 1000;
  tombstone_max = operation_tombstone_max;
}

pub record Slot : Type 0 where
  pub hash : ℕ
  pub state : OperationState
  pub since_ms : ℕ

pub record OperationTable : Type 0 where
  pub config : OperationConfig
  pub slots : Ordered Slot
  pub retired : Ordered (Unit {0})
  pub exhausted : Bool

abbrev pub new : OperationConfig → OperationTable
new config = record { config = config; slots = []; retired = []; exhausted = false }

abbrev pub contains {ℓ} : {A : Type ℓ} → Option A → Bool
contains none = false
contains (some a) = true

-- What a known id is answered.
abbrev pub answer : OperationState → Admit
answer pending = already_pending
answer (settled outcome) = cached outcome

begin_live : OperationTable → ℕ → ℕ → ℕ → Option Slot → Result Admit OperationError × OperationTable
begin_live t request_id hash now_ms (some slot) =
    if slot.hash == hash then (ok (answer slot.state), t) else (err conflict, t)
begin_live t request_id hash now_ms none =
    if leb t.config.max_records (length t.slots)
    then (err (capacity_exceeded t.config.max_records), t)
    else (
      ok execute,
      record t {
        slots =
            Ordered.insert request_id (record { hash = hash; state = pending; since_ms = now_ms })
              t.slots;
      },
    )

pub begin : OperationTable → ℕ → ℕ → ℕ → Result Admit OperationError × OperationTable
unfolding begin_live
begin t request_id hash now_ms =
    if t.exhausted || contains (Ordered.lookup request_id t.retired)
    then (err retired, t)
    else begin_live t request_id hash now_ms (Ordered.lookup request_id t.slots)

abbrev pub is_settled : OperationState → Bool
is_settled pending = false
is_settled (settled outcome) = true

settle_slot :
    OperationTable
    → ℕ
    → Outcome
    → ℕ
    → Option Slot
    → Result (Unit {0}) OperationError × OperationTable
settle_slot t request_id outcome now_ms none = (err unknown, t)
settle_slot t request_id outcome now_ms (some slot) =
    if is_settled slot.state then (err already_settled, t) else (
      ok tt,
      record t {
        slots =
            Ordered.insert request_id
              (record { hash = slot.hash; state = settled outcome; since_ms = now_ms }) t.slots;
      },
    )

pub settle : OperationTable → ℕ → Outcome → ℕ → Result (Unit {0}) OperationError × OperationTable
unfolding settle_slot
settle t request_id outcome now_ms =
    settle_slot t request_id outcome now_ms (Ordered.lookup request_id t.slots)

abbrev pub state_of : Option Slot → Option OperationState
state_of none = none
state_of (some slot) = some slot.state

pub query : OperationTable → ℕ → Option OperationState
query t request_id = state_of (Ordered.lookup request_id t.slots)

pub is_retired : OperationTable → ℕ → Bool
is_retired t request_id = contains (Ordered.lookup request_id t.retired)

-- b"timeout".
abbrev pub timeout_text : List ℕ
timeout_text = 116 ∷ 105 ∷ 109 ∷ 101 ∷ 111 ∷ 117 ∷ 116 ∷ []

-- The first loop of `tick`, on one slot. `-` stops at 0, like `saturating_sub`.
abbrev pub overdue : OperationConfig → ℕ → Slot → Bool
overdue config now_ms slot =
    not (is_settled slot.state) && leb config.open_timeout_ms (now_ms - slot.since_ms)

pub time_out : OperationConfig → ℕ → Slot → Slot
time_out config now_ms slot =
    if overdue config now_ms slot
    then record { hash = slot.hash; state = settled (failed timeout_text); since_ms = now_ms }
    else slot

pub time_out_all : OperationConfig → ℕ → Ordered Slot → Ordered Slot
time_out_all config now_ms [] = []
time_out_all config now_ms ((id, slot) ∷ slots) =
    (id, time_out config now_ms slot) ∷ time_out_all config now_ms slots

pub count_overdue : OperationConfig → ℕ → Ordered Slot → ℕ
count_overdue config now_ms [] = 0
count_overdue config now_ms ((id, slot) ∷ slots) =
    (if overdue config now_ms slot then 1 else 0) + count_overdue config now_ms slots

-- The filter that collects the expired ids.
abbrev pub expired : OperationConfig → ℕ → Slot → Bool
expired config now_ms slot =
    is_settled slot.state && leb config.result_retention_ms (now_ms - slot.since_ms)

pub expired_ids : OperationConfig → ℕ → Ordered Slot → List ℕ
expired_ids config now_ms [] = []
expired_ids config now_ms ((id, slot) ∷ slots) =
    let rest = expired_ids config now_ms slots in
    if expired config now_ms slot then id ∷ rest else rest

-- One round of the second loop, and the loop; the number counts the ids retired so far.
pub retire_one : ℕ → OperationTable × ℕ → OperationTable × ℕ
retire_one id r =
    let t = r.0 in
    if leb t.config.tombstone_max (length t.retired)
    then (record t { slots = Ordered.remove id t.slots; exhausted = true }, r.1)
    else (
      record t { slots = Ordered.remove id t.slots; retired = Ordered.insert id tt t.retired },
      r.1 + 1,
    )

pub retire_all : List ℕ → OperationTable × ℕ → OperationTable × ℕ
retire_all [] r = r
retire_all (id ∷ ids) r = retire_all ids (retire_one id r)

pub tick : OperationTable → ℕ → OperationTable × ℕ × ℕ
tick t now_ms =
    let timed_out = count_overdue t.config now_ms t.slots in
    let slots = time_out_all t.config now_ms t.slots in
    let r = retire_all (expired_ids t.config now_ms slots) (record t { slots = slots }, 0) in
    (r.0, timed_out, r.1)
