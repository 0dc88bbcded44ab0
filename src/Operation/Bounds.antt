-- ===== src/Operation/Bounds.antt =====
-- crates/wsnet-operation/src/lib.rs: the two budgets of a table.
use my_websocket_net.Prelude.{
  ℕ, ◌≤◌, ◌≡◌, refl, inl, inr, Option-cases, List, [], ◌∷◌, arith, length,
}
use my_websocket_net.Prelude.Ordered.{
  lookup, From, length-insert_new, length-insert_old, length-insert-le, length-remove-le,
}
use my_websocket_net.Operation.{
  OperationConfig, OperationTable, Outcome, new, begin, settle, settle_slot, tick, expired_ids,
  time_out_all, retire_one, retire_all, pending, settled,
}
use my_websocket_net.Operation.Ticks.{length-time_out_all}
use my_websocket_net.Operation.AtMostOnce.{Call, begins, settles, ticks, after, run, after-From}

pub record IsWithin (config : OperationConfig) (t : OperationTable) : Type 0 where
  pub same : t.config ≡ config
  pub records : length t.slots ≤ config.max_records
  pub tombstones : length t.retired ≤ config.tombstone_max

begin-IsWithin :
    (config : OperationConfig) (t : OperationTable) (i hash now_ms : ℕ)
    → From 0 t.slots
    → IsWithin config t
    → IsWithin config (begin t i hash now_ms).1
unfolding begin
begin-IsWithin config t i hash now_ms f v = ground (
  arith,
  length-insert_new 0 i (record { hash = hash; state = pending; since_ms = now_ms }) t.slots,
)

settle-IsWithin :
    (config : OperationConfig) (t : OperationTable) (i : ℕ) (outcome : Outcome) (now_ms : ℕ)
    → From 0 t.slots
    → IsWithin config t
    → IsWithin config (settle t i outcome now_ms).1
unfolding settle
settle-IsWithin config t i outcome now_ms f v = elim (Option-cases (lookup i t.slots)) [
  | inl e ↦ rw (e, settle_slot) v
  | inr (slot, e) ↦ ground (
    arith,
    e,
    length-insert_old 0 i (record { hash = slot.hash; state = settled outcome; since_ms = now_ms })
        slot t.slots,
  )
]

retire_one-IsWithin :
    (config : OperationConfig) (i : ℕ) (r : OperationTable × ℕ)
    → IsWithin config r.0
    → IsWithin config (retire_one i r).0
unfolding retire_one
retire_one-IsWithin config i r v =
    ground (arith, length-remove-le i r.0.slots, length-insert-le i tt r.0.retired)

retire_all-IsWithin :
    (config : OperationConfig) (ids : List ℕ) (r : OperationTable × ℕ)
    → IsWithin config r.0
    → IsWithin config (retire_all ids r).0
unfolding retire_all
retire_all-IsWithin config [] r v = v
retire_all-IsWithin config (i ∷ ids) r v =
    retire_all-IsWithin config ids (retire_one i r) (retire_one-IsWithin config i r v)

tick-IsWithin :
    (config : OperationConfig) (t : OperationTable) (now_ms : ℕ)
    → IsWithin config t
    → IsWithin config (tick t now_ms).0
unfolding tick
tick-IsWithin config t now_ms v =
    retire_all-IsWithin config (expired_ids t.config now_ms (time_out_all t.config now_ms t.slots))
      _
      (record {
        same = v.same;
        records = omega (arith, length-time_out_all t.config now_ms t.slots, v.records);
        tombstones = v.tombstones;
      })

after-IsWithin :
    (config : OperationConfig) (t : OperationTable) (c : Call)
    → From 0 t.slots
    → IsWithin config t
    → IsWithin config (after t c)
unfolding after
after-IsWithin config t (begins i hash now_ms) f v = begin-IsWithin config t i hash now_ms f v
after-IsWithin config t (settles i outcome now_ms) f v =
    settle-IsWithin config t i outcome now_ms f v
after-IsWithin config t (ticks now_ms) f v = tick-IsWithin config t now_ms v

run_on-IsWithin :
    (config : OperationConfig) (cs : List Call) (t : OperationTable)
    → From 0 t.slots
    → IsWithin config t
    → IsWithin config (run t cs)
unfolding run
run_on-IsWithin config [] t f v = v
run_on-IsWithin config (c ∷ cs) t f v =
    run_on-IsWithin config cs (after t c) (after-From t c f) (after-IsWithin config t c f v)

-- After any history of calls a table holds at most `max_records` records and `tombstone_max`
-- tombstones, and its configuration is the one that it was made with.
pub run-IsWithin :
    (config : OperationConfig) (cs : List Call) → IsWithin config (run (new config) cs)
run-IsWithin config cs =
    run_on-IsWithin config cs (new config) tt
      (record { same = refl; records = omega arith; tombstones = omega arith })
