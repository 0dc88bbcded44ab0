-- ===== src/PacketNo.antt =====
-- crates/wsnet-crypto/src/packet_no.rs: the allocator of one direction's packet numbers. The atomic
-- counter is a number; a turn of a compare-exchange loop takes the value that the caller holds and
-- the value in memory, so that other callers can act between two turns.
pub mod Schedule
pub mod Gapless
pub mod Calls
mod Tests
use my_websocket_net.Prelude.{
  ℕ, ◌+◌, ◌-◌, Bool, false, ◌||◌, ◌&&◌, not, Option, none, some, ltb, ◌==◌, if◌then◌else◌,
}
use my_websocket_net.Prelude.Result.{Result, ok, err}
use my_websocket_net.Limits.{u64_max, packet_no_exhaustion_margin}

abbrev pub packet_no_ceiling : ℕ
packet_no_ceiling = u64_max - packet_no_exhaustion_margin

-- The sentinel `EXHAUSTED`.
abbrev pub spent : ℕ
spent = u64_max

pub data PacketNoError : Type 0 where
  exhausted : PacketNoError
  would_reuse : ℕ → ℕ → PacketNoError

pub record PacketNoAllocator : Type 0 where
  pub next : ℕ

abbrev pub new : PacketNoAllocator
new = record { next = 0 }

-- The test that `next_unused`, `is_exhausted` and `allocate` share.
abbrev pub past_ceiling : ℕ → Bool
past_ceiling current = current == spent || ltb packet_no_ceiling current

pub next_unused : PacketNoAllocator → Option ℕ
next_unused a = if past_ceiling a.next then none else some a.next

pub is_exhausted : PacketNoAllocator → Bool
is_exhausted a = past_ceiling a.next

-- What one turn of a loop does for its caller: it returns, or goes on with the value observed.
pub data Turn : Type 0 where
  done : Result ℕ PacketNoError → Turn
  retry : ℕ → Turn

-- One turn of the loop of `allocate`, and the counter after it. `compare_exchange_weak` may fail
-- although the values agree (`spurious`).
pub allocate_turn : ℕ → ℕ → Bool → Turn × ℕ
allocate_turn current memory spurious =
    if past_ceiling current
    then (done (err exhausted), if memory == current then spent else memory)
    else if memory == current && not spurious
    then (done (ok current), current + 1)
    else (retry memory, memory)

-- One turn of the loop of `reserve_exact`.
pub reserve_turn : ℕ → ℕ → ℕ → Bool → Turn × ℕ
reserve_turn value current memory spurious =
    if current == spent
    then (done (err exhausted), memory)
    else if ltb value current
    then (done (err (would_reuse value current)), memory)
    else if memory == current && not spurious
    then (done (ok value), value + 1)
    else (retry memory, memory)

-- A call with no other caller about: its loop starts from the value in memory. `none`: one turn was
-- not enough.
abbrev pub alone : Turn × ℕ → Option (Result ℕ PacketNoError) × PacketNoAllocator
alone (done r, memory) = (some r, record { next = memory })
alone (retry current, memory) = (none, record { next = memory })

pub allocate : PacketNoAllocator → Option (Result ℕ PacketNoError) × PacketNoAllocator
unfolding allocate_turn
allocate a = alone (allocate_turn a.next a.next false)

pub reserve_exact : ℕ → PacketNoAllocator → Option (Result ℕ PacketNoError) × PacketNoAllocator
unfolding reserve_turn
reserve_exact value a =
    if ltb packet_no_ceiling value
    then (some (err exhausted), a)
    else alone (reserve_turn value a.next a.next false)
