-- ===== src/Operation/Admission.antt =====
-- crates/wsnet-operation/src/lib.rs: what a retransmitted operation is answered.
use my_websocket_net.Prelude.{
  ℕ, ◌≡◌, ◌≢◌, refl, true, false, ◌||◌, some, arith, ◌==◌, if◌then◌else◌,
}
use my_websocket_net.Prelude.Ordered.{lookup, lookup-insert}
use my_websocket_net.Prelude.Result.{ok, err}
use my_websocket_net.Operation.{
  OperationTable, Outcome, Slot, contains, execute, already_pending, cached, conflict, retired,
  already_settled, session_exhausted, begin, settle, query, pending, settled,
}

-- After `Execute` a repeat of the operation is answered `AlreadyPending`, and the same id with another
-- hash is a conflict; neither changes the table.
pub begin-begin :
    (t : OperationTable) (id hash now_ms hash' later : ℕ)
    → (begin t id hash now_ms).0 ≡ ok execute
    → let t' = (begin t id hash now_ms).1 in
      begin t' id hash' later ≡ ((if hash == hash' then ok already_pending else err conflict), t')
unfolding begin
begin-begin t id hash now_ms hash' later h = ground (
  arith,
  lookup-insert id id (record { hash = hash; state = pending; since_ms = now_ms }) t.slots,
)

-- What a table knows of an id that was told to execute.
executing :
    (t : OperationTable) (id hash now_ms : ℕ)
    → (begin t id hash now_ms).0 ≡ ok execute
    → let t' = (begin t id hash now_ms).1 in
      (lookup id t'.slots ≡ some (record { hash = hash; state = pending; since_ms = now_ms }))
      × ((t'.exhausted || contains (lookup id t'.retired)) ≡ false)
unfolding begin
executing t id hash now_ms h = ground (
  arith,
  lookup-insert id id (record { hash = hash; state = pending; since_ms = now_ms }) t.slots,
)

module _ (t : OperationTable) (id : ℕ) (slot : Slot) (found : lookup id t.slots ≡ some slot) where
  settled_slot : Outcome → ℕ → Slot
  settled_slot outcome at = record { hash = slot.hash; state = settled outcome; since_ms = at }

  settle_pending :
      (outcome : Outcome) (at : ℕ)
      → slot.state ≡ pending
      → (settle t id outcome at).0 ≡ ok tt
        × (lookup id (settle t id outcome at).1.slots ≡ some (settled_slot outcome at))
        × ((settle t id outcome at).1.exhausted ≡ t.exhausted)
        × ((settle t id outcome at).1.retired ≡ t.retired)
  unfolding settle settled_slot
  settle_pending outcome at p = ground (
    arith,
    found,
    lookup-insert id id (record { hash = slot.hash; state = settled outcome; since_ms = at })
        t.slots,
  )

  settle_settled :
      (outcome other : Outcome) (later : ℕ)
      → slot.state ≡ settled outcome
      → (settle t id other later).0 ≡ err already_settled
  unfolding settle
  settle_settled outcome other later p = ground (arith, found)

  begin_settled :
      (outcome : Outcome) (hash' later : ℕ)
      → slot.state ≡ settled outcome
      → (t.exhausted || contains (lookup id t.retired)) ≡ false
      → (begin t id hash' later).0
        ≡ (if slot.hash == hash' then ok (cached outcome) else err conflict)
  unfolding begin
  begin_settled outcome hash' later p open_id = ground (arith, found)

  query_settled :
      (outcome : Outcome) → slot.state ≡ settled outcome → query t id ≡ some (settled outcome)
  unfolding query
  query_settled outcome p = rw (found, p)

-- An operation that was told to execute can be settled once; its outcome is then what a query and a
-- repeat of it return, a second settling is refused, and another hash is still a conflict.
pub begin-settle :
    (t : OperationTable) (id hash now_ms : ℕ) (outcome other : Outcome) (at hash' later : ℕ)
    → (begin t id hash now_ms).0 ≡ ok execute
    → let t' = (begin t id hash now_ms).1 in
      let t'' = (settle t' id outcome at).1 in
      ((settle t' id outcome at).0 ≡ ok tt)
      × (query t'' id ≡ some (settled outcome))
      × ((settle t'' id other later).0 ≡ err already_settled)
      × ((begin t'' id hash' later).0
          ≡ (if hash == hash' then ok (cached outcome) else err conflict))
unfolding settled_slot
begin-settle t id hash now_ms outcome other at hash' later h =
    let t' = (begin t id hash now_ms).1 in
    let (found, open_id) = executing t id hash now_ms h in
    let slot : Slot = record { hash = hash; state = pending; since_ms = now_ms } in
    let (accepted, found', same, same') = settle_pending t' id slot found outcome at refl in
    let t'' = (settle t' id outcome at).1 in
    let slot' : Slot = record { hash = hash; state = settled outcome; since_ms = at } in
    (
      accepted,
      query_settled t'' id slot' found' outcome refl,
      settle_settled t'' id slot' found' outcome other later refl,
      begin_settled t'' id slot' found' outcome hash' later refl (rw (same, same') open_id),
    )

-- An exhausted table answers every id, used before or not, with `Retired`: the error
-- `SessionExhausted` is never returned by a call.
pub begin_exhausted :
    (t : OperationTable) (id hash now_ms : ℕ)
    → ((begin t id hash now_ms).0 ≢ err session_exhausted)
      × (t.exhausted ≡ true → begin t id hash now_ms ≡ (err retired, t))
unfolding begin
begin_exhausted t id hash now_ms = (λ e. ground arith, λ e. ground arith)
