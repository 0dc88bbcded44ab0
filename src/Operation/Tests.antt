-- ===== src/Operation/Tests.antt =====
-- Runs of the operation table, and its theorems at concrete inputs.
use my_websocket_net.Prelude.{◌≤◌, ◌≡◌, refl, true, some, List, [], ◌∷◌, arith}
use my_websocket_net.Prelude.Ordered.{lookup, insert, remove}
use my_websocket_net.Operation.{
  OperationConfig, OperationTable, Slot, complete, failed, new, begin, settle, query, tick,
  time_out, time_out_all, count_overdue, expired_ids, retire_one, retire_all, is_retired, pending,
  settled, timeout_text,
}
use my_websocket_net.Operation.Ticks.{Ticked, tick-Ticked}
use my_websocket_net.Operation.AtMostOnce.{
  Call, begins, settles, ticks, after, run, executes, executions, at_most_once,
}
use my_websocket_net.Operation.Bounds.{IsWithin, run-IsWithin}

-- Two records at most, a deadline of 10 ms, a retention of 100 ms and one tombstone.
abbrev small : OperationConfig
small = record {
  max_records = 2;
  open_timeout_ms = 10;
  result_retention_ms = 100;
  tombstone_max = 1;
}

-- An operation that is repeated, settled, asked for again and retired, and another that times out.
abbrev history : List Call
history =
    begins 7 1 0
    ∷ begins 7 1 1
    ∷ settles 7 (complete (5 ∷ [])) 2
    ∷ begins 7 1 3
    ∷ begins 8 2 4
    ∷ ticks 20
    ∷ ticks 110
    ∷ begins 7 1 111
    ∷ []

abbrev times_out : OperationTable
times_out = run (new small) (begins 8 2 4 ∷ ticks 20 ∷ [])

history_executes : executions (new small) 7 history ≡ 1
unfolding executions executes after begin settle tick time_out time_out_all count_overdue
    expired_ids retire_one retire_all lookup insert remove
history_executes = refl

query-history : query (run (new small) history) 8 ≡ some (settled (failed timeout_text))
unfolding run after begin settle tick time_out time_out_all count_overdue expired_ids retire_one
    retire_all query lookup insert remove
query-history = refl

history_retires : is_retired (run (new small) history) 7 ≡ true
unfolding run after begin settle tick time_out time_out_all count_overdue expired_ids retire_one
    retire_all is_retired lookup insert remove
history_retires = refl

at_most_once_example : executions (new small) 7 history ≤ 1
at_most_once_example = at_most_once small history 7

run-IsWithin_example : IsWithin small (run (new small) history)
run-IsWithin_example = run-IsWithin small history

abbrev one_pending : Slot
one_pending = record { hash = 2; state = pending; since_ms = 4 }

abbrev waiting : OperationTable
waiting = record (new small) { slots = (8, one_pending) ∷ [] }

tick-Ticked_example : Ticked small 20 (lookup 8 waiting.slots) (lookup 8 (tick waiting 20).0.slots)
tick-Ticked_example = tick-Ticked waiting 20 8 (omega arith, tt)

abbrev spent_table : OperationTable
spent_table = record (new small) { exhausted = true }
