-- ===== src/Replay.antt =====
-- crates/wsnet-auth-store/src/replay.rs: the replay filter of one direction. The bitmap is a list of
-- 64-bit words; `&`, `|` and `!` are those of the machine. An index into it is always in range, since
-- no operation changes the number of words.
pub mod Bitmap
pub mod Window
pub mod Refinement
pub mod Runs
mod Tests
use my_websocket_net.Prelude.{
  ℕ, zero, suc, ◌+◌, ◌-◌, Option, none, some, List, ltb, leb, if◌then◌else◌, replicate,
}
use my_websocket_net.Prelude.Result.{Result, ok, err}
use my_websocket_net.Limits.{replay_window, replay_max_forward_jump}
use Bitmap.{words, is_marked, mark, clear, clear_range}

pub data ReplayError : Type 0 where
  duplicate : ℕ → ReplayError
  too_old : ℕ → ℕ → ReplayError
  too_far_ahead : ℕ → ℕ → ℕ → ℕ → ReplayError

pub record ReplayWindow : Type 0 where
  pub highest : Option ℕ
  pub seen : List ℕ

unfoldable pub new : ReplayWindow
new = record { highest = none; seen = replicate words 0 }

-- The bits of the numbers that enter the window, freed: all of them after a whole turn, and
-- otherwise those in (highest, packet_no].
pub refresh : List ℕ → ℕ → ℕ → List ℕ
refresh seen highest packet_no =
    if leb replay_window (packet_no - highest)
    then replicate words 0
    else clear_range (highest + 1) (packet_no - highest) seen

-- `packet_no > highest`.
pub advance : List ℕ → ℕ → ℕ → Result (Unit {0}) ReplayError × ReplayWindow
advance seen highest packet_no =
    let jump = packet_no - highest in
    if ltb replay_max_forward_jump jump
    then (
      err (too_far_ahead packet_no highest jump replay_max_forward_jump),
      record { highest = some highest; seen = seen },
    )
    else (
      ok tt,
      record { highest = some packet_no; seen = mark (refresh seen highest packet_no) packet_no },
    )

-- `packet_no <= highest`.
pub judge : List ℕ → ℕ → ℕ → Result (Unit {0}) ReplayError × ReplayWindow
judge seen highest packet_no =
    if leb replay_window (highest - packet_no)
    then (err (too_old packet_no highest), record { highest = some highest; seen = seen })
    else if is_marked seen packet_no
    then (err (duplicate packet_no), record { highest = some highest; seen = seen })
    else (ok tt, record { highest = some highest; seen = mark seen packet_no })

check_with : List ℕ → ℕ → Option ℕ → Result (Unit {0}) ReplayError × ReplayWindow
check_with seen packet_no none =
    (ok tt, record { highest = some packet_no; seen = mark seen packet_no })
check_with seen packet_no (some highest) =
    if ltb highest packet_no then advance seen highest packet_no else judge seen highest packet_no

pub check_and_record : ReplayWindow → ℕ → Result (Unit {0}) ReplayError × ReplayWindow
unfolding check_with
check_and_record w packet_no = check_with w.seen packet_no w.highest
