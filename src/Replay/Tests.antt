-- ===== src/Replay/Tests.antt =====
-- Runs of the replay filter, and its theorems at concrete inputs.
use my_websocket_net.Prelude.{ℕ, ◌≡◌, refl, List, [], ◌∷◌}
use my_websocket_net.Prelude.Result.{ok, err}
use my_websocket_net.Replay.{
  new, check_and_record, duplicate, too_old, too_far_ahead, refresh, advance, judge,
}
use my_websocket_net.Replay.Bitmap.{is_marked, mark, clear, clear_range}
use my_websocket_net.Replay.Runs.{
  answers, verdicts, accepted, Distinct, answers_are_verdicts, accepted_once,
}

-- In order, repeated, out of order, far ahead, and back to a number whose slot was taken over.
abbrev packets : List ℕ
packets = 5 ∷ 5 ∷ 3 ∷ 9 ∷ 65545 ∷ 3 ∷ 8 ∷ 200000 ∷ []

some_answers :
    answers new packets
    ≡ ok tt
      ∷ err (duplicate 5)
      ∷ ok tt
      ∷ ok tt
      ∷ ok tt
      ∷ err (too_old 3 65545)
      ∷ err (too_old 8 65545)
      ∷ err (too_far_ahead 200000 65545 134455 65536)
      ∷ []
unfolding answers check_and_record advance judge refresh new is_marked mark clear clear_range
some_answers = refl

answers_are_verdicts_example : answers new packets ≡ verdicts [] packets
answers_are_verdicts_example = answers_are_verdicts packets

accepted_once_example : Distinct (accepted new packets [])
accepted_once_example = accepted_once packets
