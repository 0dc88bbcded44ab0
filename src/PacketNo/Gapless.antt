-- ===== src/PacketNo/Gapless.antt =====
-- Callers that only allocate.
use my_websocket_net.Prelude.{
  ℕ, zero, suc, min, ◌+◌, ◌≤◌, ◌≡◌, refl, ◌⊎◌, inl, Bool, List, [], ◌∷◌, All, arith,
}
use native.Mathlib.Numerals.{add-one}
use my_websocket_net.PacketNo.{spent, packet_no_ceiling, allocate_turn}
use my_websocket_net.PacketNo.Schedule.{
  Task, System, Event, idle, allocating, reserving, enter_allocate, enter_reserve, turn, start,
  record_turn, take_turn, step, run, put_task-all, next_task-all,
}

-- n - 1, …, 1, 0.
pub down : ℕ → List ℕ
down zero = []
down (suc n) = n ∷ down n

down_add_one : (n : ℕ) → down (n + 1) ≡ n ∷ down n
unfolding down
down_add_one n = rw add-one

abbrev Allocates : Event → Type 0
Allocates (enter_reserve i value) = ⊥
Allocates _ = Unit {0}

abbrev IsAllocating : Task → Type 0
IsAllocating (reserving value current) = ⊥
IsAllocating _ = Unit {0}

-- Nothing was left out.
abbrev Dense : ℕ → List ℕ → Type 0
Dense memory issued =
    (issued ≡ down (min memory (packet_no_ceiling + 1)))
    × ((memory ≤ packet_no_ceiling + 1) ⊎ (memory ≡ spent))

allocate_turn-Dense :
    (current memory : ℕ) (spurious : Bool) (issued : List ℕ)
    → Dense memory issued
    → Dense
        (allocate_turn current memory spurious).1
        (record_turn (allocate_turn current memory spurious).0 issued)
unfolding allocate_turn record_turn
allocate_turn-Dense current memory spurious issued v = ground (arith, down_add_one memory)

step-Dense :
    (s : System) (e : Event)
    → Allocates e
    → Dense s.memory s.issued × ((i : ℕ) → IsAllocating (s.tasks i))
    → Dense (step s e).memory (step s e).issued × ((i : ℕ) → IsAllocating ((step s e).tasks i))
unfolding step
step-Dense s (enter_allocate i) h (d, ts) = (d, put_task-all IsAllocating i _ s.tasks tt ts)
step-Dense s (enter_reserve i value) h v = absurd h
step-Dense s (turn i spurious) h (d, ts) = go (s.tasks i) (ts i)
  where
    go :
        (t : Task)
        → IsAllocating t
        → Dense (take_turn i spurious t s).memory (take_turn i spurious t s).issued
          × ((j : ℕ) → IsAllocating ((take_turn i spurious t s).tasks j))
    go idle h = (d, ts)
    go (allocating current) h = (
      allocate_turn-Dense current s.memory spurious s.issued d,
      put_task-all IsAllocating i _ s.tasks (next_task-all IsAllocating allocating _ tt (λ c. tt))
          ts,
    )
    go (reserving value current) h = absurd h

run-Dense :
    (es : List Event) (s : System)
    → All Allocates es
    → Dense s.memory s.issued × ((i : ℕ) → IsAllocating (s.tasks i))
    → Dense (run s es).memory (run s es).issued
unfolding run
run-Dense [] s h v = v.0
run-Dense (e ∷ es) s h v = run-Dense es (step s e) h.1 (step-Dense s e h.0 v)

-- When the callers only allocate, the numbers handed out are exactly those below the counter, each
-- once and in order: n - 1, …, 1, 0, where n is the counter, or one past the ceiling once latched.
pub issued_gapless :
    (es : List Event)
    → All Allocates es
    → (run start es).issued ≡ down (min (run start es).memory (packet_no_ceiling + 1))
issued_gapless es h = (run-Dense es start h (start-Dense, λ i. tt)).0
  where
    start-Dense : Dense 0 []
    start-Dense = (unfold down in refl, inl (omega arith))
