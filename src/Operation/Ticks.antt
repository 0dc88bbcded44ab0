-- ===== src/Operation/Ticks.antt =====
-- crates/wsnet-operation/src/lib.rs: what `tick` does to each id, and what it counts.
use my_websocket_net.Prelude.{
  ℕ, suc, ◌-◌, ◌≤◌, ◌<◌, ◌≡◌, refl, ap, ◌∙◌, ◌⊎◌, ◌≢◌, inl, inr, Bool, true, false, ◌||◌, Option,
  none, some, List, [], ◌∷◌, arith, ◌==◌, if◌then◌else◌, length,
}
use my_websocket_net.Prelude.Ordered.{
  Ordered, lookup, remove, From, lookup-insert, lookup-remove, From-remove,
}
use my_websocket_net.Operation.{
  OperationConfig, OperationTable, OperationState, failed, pending, settled, Slot, contains,
  time_out, time_out_all, expired, expired_ids, retire_one, retire_all, tick,
}

-- The slot of an id after the first loop.
abbrev pub timed_out : OperationConfig → ℕ → Option Slot → Option Slot
timed_out config now_ms none = none
timed_out config now_ms (some slot) = some (time_out config now_ms slot)

-- The slot of an id after the second loop.
abbrev pub kept : OperationConfig → ℕ → Option Slot → Option Slot
kept config now_ms none = none
kept config now_ms (some slot) = if expired config now_ms slot then none else some slot

abbrev pub is_expired : OperationConfig → ℕ → Option Slot → Bool
is_expired config now_ms none = false
is_expired config now_ms (some slot) = expired config now_ms slot

abbrev among : ℕ → List ℕ → Bool
among id [] = false
among id (i ∷ ids) = i == id || among id ids

module _ (config : OperationConfig) (now_ms : ℕ) where
  lookup-time_out_all :
      (id : ℕ) (slots : Ordered Slot)
      → lookup id (time_out_all config now_ms slots) ≡ timed_out config now_ms (lookup id slots)
  unfolding lookup time_out_all
  lookup-time_out_all id [] = refl
  lookup-time_out_all id ((j, slot) ∷ slots) = ground (arith, lookup-time_out_all id slots)

  pub From-time_out_all :
      (low : ℕ) (slots : Ordered Slot)
      → From low slots
      → From low (time_out_all config now_ms slots)
  unfolding time_out_all
  From-time_out_all low [] f = tt
  From-time_out_all low ((j, slot) ∷ slots) f = (f.0, From-time_out_all (suc j) slots f.1)

  pub length-time_out_all :
      (slots : Ordered Slot) → length (time_out_all config now_ms slots) ≡ length slots
  unfolding time_out_all
  length-time_out_all [] = refl
  length-time_out_all ((j, slot) ∷ slots) = ap suc (length-time_out_all slots)

  expired_ids_below :
      (low id : ℕ) (slots : Ordered Slot)
      → From low slots
      → id < low
      → among id (expired_ids config now_ms slots) ≡ false
  unfolding expired_ids
  expired_ids_below low id [] f h = refl
  expired_ids_below low id ((j, slot) ∷ slots) f h =
      ground (arith, expired_ids_below (suc j) id slots)

  -- The ids that the filter collects are those whose slot has expired.
  among-expired_ids :
      (low id : ℕ) (slots : Ordered Slot)
      → From low slots
      → among id (expired_ids config now_ms slots) ≡ is_expired config now_ms (lookup id slots)
  unfolding lookup expired_ids
  among-expired_ids low id [] f = refl
  among-expired_ids low id ((j, slot) ∷ slots) f =
      ground (arith, among-expired_ids (suc j) id slots, expired_ids_below (suc j) id slots)

module _ (i : ℕ) (r : OperationTable × ℕ) where
  pub retire_one-slots : (retire_one i r).0.slots ≡ remove i r.0.slots
  unfolding retire_one
  retire_one-slots = ground arith

  pub retire_one-config : (retire_one i r).0.config ≡ r.0.config
  unfolding retire_one
  retire_one-config = ground arith

lookup-retire_all :
    (id : ℕ) (ids : List ℕ) (r : OperationTable × ℕ)
    → lookup id (retire_all ids r).0.slots ≡ (if among id ids then none else lookup id r.0.slots)
unfolding retire_all
lookup-retire_all id [] r = refl
lookup-retire_all id (i ∷ ids) r =
    lookup-retire_all id ids (retire_one i r)
    ∙ rw (retire_one-slots i r, lookup-remove i id r.0.slots) (ground arith)

-- No new operation may run under this id.
unfoldable pub closed : OperationTable → ℕ → Bool
closed t id = t.exhausted || contains (lookup id t.retired)

closed-retire_one :
    (i id : ℕ) (r : OperationTable × ℕ)
    → closed (retire_one i r).0 id ≡ true ⊎ (closed r.0 id ≡ false × (i ≢ id))
unfolding closed retire_one
closed-retire_one i id r = ground (arith, lookup-insert i id tt r.0.retired)

closed-retire_all :
    (id : ℕ) (ids : List ℕ) (r : OperationTable × ℕ)
    → (among id ids || closed r.0 id) ≡ true
    → closed (retire_all ids r).0 id ≡ true
unfolding retire_all
closed-retire_all id [] r h = h
closed-retire_all id (i ∷ ids) r h =
    closed-retire_all id ids (retire_one i r) (next (closed-retire_one i id r))
  where
    next :
        (closed (retire_one i r).0 id ≡ true) ⊎ ((closed r.0 id ≡ false) × (i ≢ id))
        → (among id ids || closed (retire_one i r).0 id) ≡ true
    next (inl e) = ground (arith, e)
    next (inr (e, ne)) = ground (arith, e)

module _ (t : OperationTable) (now_ms id : ℕ) (sorted : From 0 t.slots) where
  -- `tick` as seen at one id, in terms of its two loops.
  pub lookup-tick :
      lookup id (tick t now_ms).0.slots
      ≡ kept t.config now_ms (timed_out t.config now_ms (lookup id t.slots))
  unfolding tick
  lookup-tick =
      lookup-retire_all id (expired_ids t.config now_ms (time_out_all t.config now_ms t.slots)) _
      ∙ rw
          (
            among-expired_ids t.config now_ms 0 id (time_out_all t.config now_ms t.slots)
                (From-time_out_all t.config now_ms 0 t.slots sorted),
            lookup-time_out_all t.config now_ms id t.slots,
          )
          (pick (timed_out t.config now_ms (lookup id t.slots)))
    where
      pick :
          (o : Option Slot)
          → (if is_expired t.config now_ms o then none else o) ≡ kept t.config now_ms o
      pick none = refl
      pick (some slot) = refl

  -- An id that is closed stays closed, and one whose record `tick` forgets is closed from then on.
  pub closed-tick :
      (closed t id || is_expired t.config now_ms (timed_out t.config now_ms (lookup id t.slots)))
        ≡ true
      → closed (tick t now_ms).0 id ≡ true
  unfolding tick
  closed-tick h =
      closed-retire_all id (expired_ids t.config now_ms (time_out_all t.config now_ms t.slots)) _ (
        rw
          (
            among-expired_ids t.config now_ms 0 id (time_out_all t.config now_ms t.slots)
                (From-time_out_all t.config now_ms 0 t.slots sorted),
            lookup-time_out_all t.config now_ms id t.slots,
          )
          (unfold closed in ground arith))

-- What becomes of a record at the time `now_ms`, by the state it is in.
abbrev pub TickedIn : OperationConfig → ℕ → Slot → OperationState → Option Slot → Type 0
TickedIn config now_ms slot pending after =
    ((now_ms - slot.since_ms < config.open_timeout_ms) × (after ≡ some slot))
    ⊎ ((config.open_timeout_ms ≤ now_ms - slot.since_ms)
        × (0 < config.result_retention_ms)
        × (after
            ≡ some (record {
              hash = slot.hash;
              state = settled (failed (116 ∷ 105 ∷ 109 ∷ 101 ∷ 111 ∷ 117 ∷ 116 ∷ []));
              since_ms = now_ms;
            })))
    ⊎ ((config.open_timeout_ms ≤ now_ms - slot.since_ms)
        × (config.result_retention_ms ≡ 0)
        × (after ≡ none))
TickedIn config now_ms slot (settled outcome) after =
    ((now_ms - slot.since_ms < config.result_retention_ms) × (after ≡ some slot))
    ⊎ ((config.result_retention_ms ≤ now_ms - slot.since_ms) × (after ≡ none))

abbrev pub Ticked : OperationConfig → ℕ → Option Slot → Option Slot → Type 0
Ticked config now_ms none after = after ≡ none
Ticked config now_ms (some slot) after = TickedIn config now_ms slot slot.state after

kept-TickedIn :
    (config : OperationConfig) (now_ms : ℕ) (slot : Slot) (state : OperationState)
    → slot.state ≡ state
    → TickedIn config now_ms slot state (kept config now_ms (timed_out config now_ms (some slot)))
unfolding time_out
kept-TickedIn config now_ms slot pending is = ground (arith, is)
kept-TickedIn config now_ms slot (settled outcome) is = ground (arith, is)

kept-Ticked :
    (config : OperationConfig) (now_ms : ℕ) (before : Option Slot)
    → Ticked config now_ms before (kept config now_ms (timed_out config now_ms before))
kept-Ticked config now_ms none = refl
kept-Ticked config now_ms (some slot) = kept-TickedIn config now_ms slot slot.state refl

-- `tick` on a table whose ids ascend, as seen at one id. A pending operation stays as it is until its
-- open timeout; from then on it is replaced by the failure with the text "timeout", settled at this
-- moment, under the hash it had, or is forgotten at once if results are retained for no time. A result
-- stays as it is until its retention time, and is forgotten from then on. No other record appears.
pub tick-Ticked :
    (t : OperationTable) (now_ms id : ℕ)
    → From 0 t.slots
    → Ticked t.config now_ms (lookup id t.slots) (lookup id (tick t now_ms).0.slots)
tick-Ticked t now_ms id sorted =
    rw (lookup-tick t now_ms id sorted) (kept-Ticked t.config now_ms (lookup id t.slots))

From-retire_all :
    (ids : List ℕ) (r : OperationTable × ℕ) → From 0 r.0.slots → From 0 (retire_all ids r).0.slots
unfolding retire_all
From-retire_all [] r f = f
From-retire_all (i ∷ ids) r f =
    From-retire_all ids (retire_one i r) (rw (retire_one-slots i r) (From-remove 0 i r.0.slots f))

pub From-tick : (t : OperationTable) (now_ms : ℕ) → From 0 t.slots → From 0 (tick t now_ms).0.slots
unfolding tick
From-tick t now_ms f =
    From-retire_all (expired_ids t.config now_ms (time_out_all t.config now_ms t.slots)) _
      (From-time_out_all t.config now_ms 0 t.slots f)
