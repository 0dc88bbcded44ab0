-- ===== src/PacketNo/Calls.antt =====
-- What one undisturbed call of the allocator does, on every branch.
use my_websocket_net.Prelude.{
  ℕ, ◌+◌, ◌≡◌, Option, none, some, arith, ltb, ◌||◌, ◌==◌, if◌then◌else◌,
}
use my_websocket_net.Prelude.Result.{Result, ok, err}
use my_websocket_net.PacketNo.{
  PacketNoAllocator, PacketNoError, exhausted, would_reuse, spent, packet_no_ceiling, allocate,
  reserve_exact, next_unused,
}

-- What `allocate` owes its caller, from the announcement of `next_unused`.
abbrev pub promised :
    PacketNoAllocator → Option ℕ → Option (Result ℕ PacketNoError) × PacketNoAllocator
promised a none = (some (err exhausted), record { next = spent })
promised a (some n) = (some (ok n), record { next = n + 1 })

-- `allocate` returns the number that `next_unused` announces and moves one past it; where none is
-- announced it fails and latches the counter at the sentinel. One turn of its loop is enough.
pub allocate-next_unused : (a : PacketNoAllocator) → allocate a ≡ promised a (next_unused a)
unfolding allocate next_unused
allocate-next_unused a = ground arith

-- What `reserve_exact` owes its caller.
abbrev pub reserved : ℕ → PacketNoAllocator → Option (Result ℕ PacketNoError) × PacketNoAllocator
reserved value a =
    if ltb packet_no_ceiling value || a.next == spent
    then (some (err exhausted), a)
    else if ltb value a.next
    then (some (err (would_reuse value a.next)), a)
    else (some (ok value), record { next = value + 1 })

-- A granted reservation is announced by nobody else: afterwards `next_unused` is the number behind
-- it, or none where that passes the ceiling; a refused one leaves the counter as it was; and the
-- refusals are those of `reserved`, in that order. One turn of the loop is enough.
pub reserve_exact_cases :
    (value : ℕ) (a : PacketNoAllocator)
    → (reserve_exact value a ≡ reserved value a)
      × ((reserve_exact value a).0 ≡ some (ok value)
          → next_unused (reserve_exact value a).1
            ≡ (if ltb value packet_no_ceiling then some (value + 1) else none))
unfolding reserve_exact next_unused
reserve_exact_cases value a = (ground arith, λ h. ground arith)
