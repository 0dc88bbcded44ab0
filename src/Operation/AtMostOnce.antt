-- ===== src/Operation/AtMostOnce.antt =====
-- crates/wsnet-operation/src/lib.rs: histories of calls, and how often one executes an id.
use my_websocket_net.Prelude.{
  ℕ, ◌+◌, ◌≤◌, ◌≡◌, refl, ◌⊎◌, inl, inr, Bool, Bool-cases, Option-cases, true, false, ◌||◌, Option,
  none, some, List, [], ◌∷◌, arith, ◌==◌, if◌then◌else◌,
}
use my_websocket_net.Prelude.Ordered.{lookup, From, lookup-insert, From-insert}
use my_websocket_net.Prelude.Result.{Result, ok}
use my_websocket_net.Operation.{
  OperationConfig, OperationTable, OperationError, Outcome, Slot, Admit, execute, new, contains,
  begin, settle, settle_slot, tick, pending, settled,
}
use my_websocket_net.Operation.Ticks.{
  timed_out, kept, is_expired, closed, lookup-tick, closed-tick, From-tick,
}

-- A call of the table: `begin` with an id, a hash and a time, `settle` and `tick`.
pub data Call : Type 0 where
  begins : ℕ → ℕ → ℕ → Call
  settles : ℕ → Outcome → ℕ → Call
  ticks : ℕ → Call

unfoldable pub after : OperationTable → Call → OperationTable
after t (begins id hash now_ms) = (begin t id hash now_ms).1
after t (settles id outcome now_ms) = (settle t id outcome now_ms).1
after t (ticks now_ms) = (tick t now_ms).0

unfoldable pub run : OperationTable → List Call → OperationTable
run t [] = t
run t (c ∷ cs) = run (after t c) cs

abbrev pub is_execute : Result Admit OperationError → Bool
is_execute (ok execute) = true
is_execute _ = false

-- 1 if the call is answered `execute` for this id, else 0.
unfoldable pub executes : OperationTable → ℕ → Call → ℕ
executes t id (begins i hash now_ms) =
    if i == id then (if is_execute (begin t i hash now_ms).0 then 1 else 0) else 0
executes t id _ = 0

-- How often a history of calls is told to execute an id.
unfoldable pub executions : OperationTable → ℕ → List Call → ℕ
executions t id [] = 0
executions t id (c ∷ cs) = executes t id c + executions (after t c) id cs

-- The table remembers the id: a record, a tombstone, or an exhausted session.
known : OperationTable → ℕ → Bool
known t id = closed t id || contains (lookup id t.slots)

begin-known :
    (t : OperationTable) (i hash now_ms id : ℕ)
    → known t id ≡ true
    → (known (begin t i hash now_ms).1 id ≡ true) × (executes t id (begins i hash now_ms) ≡ 0)
unfolding known closed begin executes
begin-known t i hash now_ms id k =
    ground (
      arith,
      lookup-insert i id (record { hash = hash; state = pending; since_ms = now_ms }) t.slots,
    )

-- An admitted id is known from then on.
begin-executes :
    (t : OperationTable) (i hash now_ms id : ℕ)
    → (executes t id (begins i hash now_ms) ≤ 1)
      × ((known (begin t i hash now_ms).1 id ≡ true) ⊎ (executes t id (begins i hash now_ms) ≡ 0))
unfolding known closed begin executes
begin-executes t i hash now_ms id =
    ground (
      arith,
      lookup-insert i id (record { hash = hash; state = pending; since_ms = now_ms }) t.slots,
    )

settle-known :
    (t : OperationTable) (i : ℕ) (outcome : Outcome) (now_ms id : ℕ)
    → known t id ≡ true
    → known (settle t i outcome now_ms).1 id ≡ true
unfolding known closed settle
settle-known t i outcome now_ms id k = elim (Option-cases (lookup i t.slots)) [
  | inl e ↦ rw (e, settle_slot) k
  | inr (slot, e) ↦ ground (
    arith,
    e,
    lookup-insert i id (record { hash = slot.hash; state = settled outcome; since_ms = now_ms })
        t.slots,
  )
]

tick-known :
    (t : OperationTable) (now_ms id : ℕ)
    → From 0 t.slots
    → known t id ≡ true
    → known (tick t now_ms).0 id ≡ true
unfolding known
tick-known t now_ms id sorted k =
    rw (lookup-tick t now_ms id sorted) (go (lookup id t.slots) (closed-tick t now_ms id sorted) k)
  where
    go :
        (o : Option Slot)
        → ((closed t id || is_expired t.config now_ms (timed_out t.config now_ms o)) ≡ true
            → closed (tick t now_ms).0 id ≡ true)
        → (closed t id || contains o) ≡ true
        → (closed (tick t now_ms).0 id
            || contains (kept t.config now_ms (timed_out t.config now_ms o)))
          ≡ true
    go none h k = ground (arith, h k)
    go (some slot) h k =
        elim (Bool-cases
          (closed t id || is_expired t.config now_ms (timed_out t.config now_ms (some slot)))) [
            | inl e ↦ rw (h e) refl
            | inr e ↦ ground (arith, e)
          ]

-- Every call keeps the ids in order.
begin-From :
    (t : OperationTable) (i hash now_ms : ℕ)
    → From 0 t.slots
    → From 0 (begin t i hash now_ms).1.slots
unfolding begin
begin-From t i hash now_ms f =
    ground
      (arith, From-insert 0 i (record { hash = hash; state = pending; since_ms = now_ms }) t.slots)

settle-From :
    (t : OperationTable) (i : ℕ) (outcome : Outcome) (now_ms : ℕ)
    → From 0 t.slots
    → From 0 (settle t i outcome now_ms).1.slots
unfolding settle
settle-From t i outcome now_ms f = elim (Option-cases (lookup i t.slots)) [
  | inl e ↦ rw (e, settle_slot) f
  | inr (slot, e) ↦ ground (
    arith,
    e,
    From-insert 0 i (record { hash = slot.hash; state = settled outcome; since_ms = now_ms })
        t.slots,
  )
]

pub after-From : (t : OperationTable) (c : Call) → From 0 t.slots → From 0 (after t c).slots
unfolding after
after-From t (begins id hash now_ms) f = begin-From t id hash now_ms f
after-From t (settles id outcome now_ms) f = settle-From t id outcome now_ms f
after-From t (ticks now_ms) f = From-tick t now_ms f

after-known :
    (t : OperationTable) (c : Call) (id : ℕ)
    → From 0 t.slots
    → known t id ≡ true
    → (known (after t c) id ≡ true) × (executes t id c ≡ 0)
unfolding after
after-known t (begins i hash now_ms) id f k = begin-known t i hash now_ms id k
after-known t (settles i outcome now_ms) id f k =
    (settle-known t i outcome now_ms id k, unfold executes in refl)
after-known t (ticks now_ms) id f k = (tick-known t now_ms id f k, unfold executes in refl)

executions-known :
    (cs : List Call) (t : OperationTable) (id : ℕ)
    → From 0 t.slots
    → known t id ≡ true
    → executions t id cs ≡ 0
unfolding executions
executions-known [] t id f k = refl
executions-known (c ∷ cs) t id f k =
    let (k', none_now) = after-known t c id f k in
    omega (arith, none_now, executions-known cs (after t c) id (after-From t c f) k')

after-executes :
    (t : OperationTable) (c : Call) (id : ℕ)
    → (executes t id c ≤ 1) × ((known (after t c) id ≡ true) ⊎ (executes t id c ≡ 0))
unfolding after
after-executes t (begins i hash now_ms) id = begin-executes t i hash now_ms id
after-executes t (settles i outcome now_ms) id = unfold executes in (omega arith, inr refl)
after-executes t (ticks now_ms) id = unfold executes in (omega arith, inr refl)

executions-le-one :
    (cs : List Call) (t : OperationTable) (id : ℕ) → From 0 t.slots → executions t id cs ≤ 1
unfolding executions
executions-le-one [] t id f = omega arith
executions-le-one (c ∷ cs) t id f =
    go (after-executes t c id) (executions-le-one cs (after t c) id (after-From t c f))
  where
    go :
        (executes t id c ≤ 1) × ((known (after t c) id ≡ true) ⊎ (executes t id c ≡ 0))
        → executions (after t c) id cs ≤ 1
        → executes t id c + executions (after t c) id cs ≤ 1
    go (le, inl k) ih = omega (arith, executions-known cs (after t c) id (after-From t c f) k)
    go (le, inr e) ih = omega arith

-- Over any history of `begin`, `settle` and `tick` calls, with any hashes and any times, a new table
-- answers `Execute` at most once for each request id.
pub at_most_once :
    (config : OperationConfig) (cs : List Call) (id : ℕ) → executions (new config) id cs ≤ 1
at_most_once config cs id = executions-le-one cs (new config) id tt
