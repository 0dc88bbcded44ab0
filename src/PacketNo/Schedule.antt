-- ===== src/PacketNo/Schedule.antt =====
-- Any number of callers share one allocator: a schedule lists their turns in the order in which
-- they reach the counter.
use my_websocket_net.Prelude.{
  ℕ, ◌+◌, ◌≤◌, ◌<◌, ◌≡◌, ◌⊎◌, inl, inr, Bool, Bool-cases, ltb→le, List, [], ◌∷◌, arith, ltb, ◌==◌,
  if◌then◌else◌,
}
use my_websocket_net.Prelude.Result.{Result, ok, err}
use my_websocket_net.PacketNo.{
  Turn, PacketNoError, done, retry, spent, packet_no_ceiling, allocate_turn, reserve_turn,
}

-- Where a caller stands: not in a call, or in a loop with the value that it last observed.
pub data Task : Type 0 where
  idle : Task
  allocating : ℕ → Task
  reserving : ℕ → ℕ → Task

-- The counter, the callers, and what was handed out, newest first.
pub record System : Type 0 where
  pub memory : ℕ
  pub tasks : ℕ → Task
  pub issued : List ℕ

-- A caller enters `allocate`, or `reserve_exact`, by loading the counter; later it takes turns.
pub data Event : Type 0 where
  enter_allocate : ℕ → Event
  enter_reserve : ℕ → ℕ → Event
  turn : ℕ → Bool → Event

abbrev pub start : System
start = record { memory = 0; tasks = λ _. idle; issued = [] }

abbrev pub put_task : ℕ → Task → (ℕ → Task) → ℕ → Task
put_task i t tasks j = if i == j then t else tasks j

abbrev record_result : Result ℕ PacketNoError → List ℕ → List ℕ
record_result (ok n) issued = n ∷ issued
record_result (err e) issued = issued

unfoldable pub record_turn : Turn → List ℕ → List ℕ
record_turn (done r) issued = record_result r issued
record_turn (retry current) issued = issued

-- `again` is the caller's task when it goes on with what it observed.
pub next_task : (ℕ → Task) → Turn → Task
next_task again (done r) = idle
next_task again (retry current) = again current

-- The outcome of a turn of caller `i`.
pub finish : ℕ → (ℕ → Task) → Turn × ℕ → System → System
unfolding record_turn next_task
finish i again (t, memory) s = record {
  memory = memory;
  tasks = put_task i (next_task again t) s.tasks;
  issued = record_turn t s.issued;
}

pub take_turn : ℕ → Bool → Task → System → System
unfolding finish
take_turn i spurious idle s = s
take_turn i spurious (allocating current) s =
    finish i allocating (allocate_turn current s.memory spurious) s
take_turn i spurious (reserving value current) s =
    finish i (reserving value) (reserve_turn value current s.memory spurious) s

unfoldable pub step : System → Event → System
unfolding take_turn
step s (enter_allocate i) = record s { tasks = put_task i (allocating s.memory) s.tasks }
step s (enter_reserve i value) =
    if ltb packet_no_ceiling value
    then s
    else record s { tasks = put_task i (reserving value s.memory) s.tasks }
step s (turn i spurious) = take_turn i spurious (s.tasks i) s

unfoldable pub run : System → List Event → System
run s [] = s
run s (e ∷ es) = run (step s e) es

-- Each number is under the one handed out after it, and the newest is under the bound.
abbrev pub Descending : ℕ → List ℕ → Type 0
Descending bound [] = Unit {0}
Descending bound (n ∷ ns) = (n < bound) × Descending n ns

abbrev WithinCeiling : Task → Type 0
WithinCeiling (reserving value current) = value ≤ packet_no_ceiling
WithinCeiling _ = Unit {0}

-- What a counter and its history owe each other.
record Counted (memory : ℕ) (issued : List ℕ) : Type 0 where
  pub fresh : Descending memory issued
  pub under : Descending (packet_no_ceiling + 1) issued
  pub room : (memory ≤ packet_no_ceiling + 1) ⊎ (memory ≡ spent)

record Inv (s : System) : Type 0 where
  pub counted : Counted s.memory s.issued
  pub tasks : (i : ℕ) → WithinCeiling (s.tasks i)

Descending-mono : (m n : ℕ) (ns : List ℕ) → m ≤ n → Descending m ns → Descending n ns
Descending-mono m n [] h d = tt
Descending-mono m n (x ∷ xs) h d = (omega arith, d.1)

allocate_turn-Counted :
    (current memory : ℕ) (spurious : Bool) (issued : List ℕ)
    → Counted memory issued
    → Counted
        (allocate_turn current memory spurious).1
        (record_turn (allocate_turn current memory spurious).0 issued)
unfolding allocate_turn record_turn
allocate_turn-Counted current memory spurious issued v =
    ground (arith, Descending-mono memory spent issued)

reserve_turn-Counted :
    (value current memory : ℕ) (spurious : Bool) (issued : List ℕ)
    → value ≤ packet_no_ceiling
    → Counted memory issued
    → Counted
        (reserve_turn value current memory spurious).1
        (record_turn (reserve_turn value current memory spurious).0 issued)
unfolding reserve_turn record_turn
reserve_turn-Counted value current memory spurious issued h v =
    ground (arith, Descending-mono memory value issued)

pub put_task-all :
    (P : Task → Type 0) (i : ℕ) (t : Task) (tasks : ℕ → Task)
    → P t
    → ((j : ℕ) → P (tasks j))
    → (j : ℕ) → P (put_task i t tasks j)
put_task-all P i t tasks h hs j = elim (Bool-cases (i == j)) [
  | inl e ↦ rw e h
  | inr e ↦ rw e (hs j)
]

pub next_task-all :
    (P : Task → Type 0) (again : ℕ → Task) (t : Turn)
    → P idle
    → ((c : ℕ) → P (again c))
    → P (next_task again t)
unfolding next_task
next_task-all P again (done r) h hs = h
next_task-all P again (retry current) h hs = hs current

take_turn-Inv :
    (i : ℕ) (spurious : Bool) (t : Task) (s : System)
    → WithinCeiling t
    → Inv s
    → Inv (take_turn i spurious t s)
unfolding take_turn
take_turn-Inv i spurious idle s e v = v
take_turn-Inv i spurious (allocating current) s e v = record {
  counted = allocate_turn-Counted current s.memory spurious s.issued v.counted;
  tasks =
      put_task-all WithinCeiling i _ s.tasks (next_task-all WithinCeiling allocating _ tt (λ c. tt))
        v.tasks;
}
take_turn-Inv i spurious (reserving value current) s e v = record {
  counted = reserve_turn-Counted value current s.memory spurious s.issued e v.counted;
  tasks =
      put_task-all WithinCeiling i _ s.tasks
        (next_task-all WithinCeiling (reserving value) _ tt (λ c. e)) v.tasks;
}

step-Inv : (s : System) (e : Event) → Inv s → Inv (step s e)
unfolding step
step-Inv s (enter_allocate i) v = record {
  counted = v.counted;
  tasks = put_task-all WithinCeiling i _ s.tasks tt v.tasks;
}
step-Inv s (enter_reserve i value) v = elim (Bool-cases (ltb packet_no_ceiling value)) [
  | inl e ↦ rw e v
  | inr e ↦ rw e (record {
    counted = v.counted;
    tasks = put_task-all WithinCeiling i _ s.tasks (ltb→le _ _ e) v.tasks;
  })
]
step-Inv s (turn i spurious) v = take_turn-Inv i spurious (s.tasks i) s (v.tasks i) v

run-Inv : (es : List Event) (s : System) → Inv s → Inv (run s es)
unfolding run
run-Inv [] s v = v
run-Inv (e ∷ es) s v = run-Inv es (step s e) (step-Inv s e v)

start-Inv : Inv start
start-Inv = record {
  counted = record { fresh = tt; under = tt; room = omega arith };
  tasks = λ i. tt;
}

-- Whatever callers share the counter, in whatever order their turns fall and however often a weak
-- exchange fails for nothing: every number handed out, by `allocate` or `reserve_exact`, is larger
-- than all that were handed out before it, and none passes the ceiling.
pub issued_increasing : (es : List Event) → Descending (packet_no_ceiling + 1) (run start es).issued
issued_increasing es = (run-Inv es start start-Inv).counted.under
