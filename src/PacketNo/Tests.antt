-- ===== src/PacketNo/Tests.antt =====
-- Runs of the allocator, and its theorems at concrete inputs.
use my_websocket_net.Prelude.{◌+◌, ◌≡◌, refl, true, false, some, List, [], ◌∷◌, min}
use my_websocket_net.Prelude.Result.{err}
use my_websocket_net.PacketNo.{
  PacketNoAllocator, exhausted, spent, packet_no_ceiling, allocate, allocate_turn, reserve_turn,
}
use my_websocket_net.PacketNo.Schedule.{
  Event, enter_allocate, enter_reserve, turn, start, step, run, Descending, issued_increasing,
}
use my_websocket_net.PacketNo.Gapless.{down, issued_gapless}

abbrev three : PacketNoAllocator
three = record { next = 3 }

abbrev full : PacketNoAllocator
full = record { next = packet_no_ceiling + 1 }

-- Callers 0 and 1 load the same value; 0 wins, 1 observes the new value and takes the next number,
-- though its first exchange of that value fails for nothing; caller 2 reserves 1000 in between.
abbrev race : List Event
race =
    enter_allocate 0
    ∷ enter_allocate 1
    ∷ turn 0 false
    ∷ turn 1 false
    ∷ turn 1 true
    ∷ turn 1 false
    ∷ enter_reserve 2 1000
    ∷ turn 2 false
    ∷ []

race_issued : (run start race).issued ≡ 1000 ∷ 1 ∷ 0 ∷ []
unfolding run step allocate_turn reserve_turn
race_issued = refl

abbrev plain_race : List Event
plain_race = enter_allocate 0 ∷ enter_allocate 1 ∷ turn 1 false ∷ turn 0 false ∷ turn 0 false ∷ []

latches : allocate full ≡ (some (err exhausted), record { next = spent })
unfolding allocate
latches = refl

issued_increasing_example : Descending (packet_no_ceiling + 1) (run start race).issued
issued_increasing_example = issued_increasing race

issued_gapless_example :
    (run start plain_race).issued ≡ down (min (run start plain_race).memory (packet_no_ceiling + 1))
issued_gapless_example = issued_gapless plain_race (tt, (tt, (tt, (tt, (tt, tt)))))
