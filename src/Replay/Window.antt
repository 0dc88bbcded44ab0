-- ===== src/Replay/Window.antt =====
-- What the replay filter promises, over the whole history instead of a bitmap.
use my_websocket_net.Prelude.{
  ℕ, ◌-◌, Bool, false, ◌||◌, Option, none, some, List, [], ◌∷◌, ltb, leb, ◌==◌, if◌then◌else◌,
}
use my_websocket_net.Prelude.Result.{Result, ok, err}
use my_websocket_net.Limits.{replay_window, replay_max_forward_jump}
use my_websocket_net.Replay.{ReplayError, duplicate, too_old, too_far_ahead}

-- The largest number of a history, and whether a number is in it.
abbrev pub join : ℕ → Option ℕ → Option ℕ
join p none = some p
join p (some h) = if ltb h p then some p else some h

unfoldable pub highest_of : List ℕ → Option ℕ
highest_of [] = none
highest_of (p ∷ history) = join p (highest_of history)

unfoldable pub member : ℕ → List ℕ → Bool
member p [] = false
member p (q ∷ history) = q == p || member p history

-- The verdict on a packet number, given all that was accepted: the first is accepted; a number more
-- than the limit ahead, one out of the window, and one accepted before are refused.
abbrev pub verdict_at : List ℕ → ℕ → Option ℕ → Result (Unit {0}) ReplayError
verdict_at history p none = ok tt
verdict_at history p (some h) =
    if ltb h p
    then (if ltb replay_max_forward_jump (p - h)
        then err (too_far_ahead p h (p - h) replay_max_forward_jump)
        else ok tt)
    else if leb replay_window (h - p)
    then err (too_old p h)
    else if member p history
    then err (duplicate p)
    else ok tt

unfoldable pub verdict : List ℕ → ℕ → Result (Unit {0}) ReplayError
verdict history p = verdict_at history p (highest_of history)

-- The history after a verdict.
abbrev pub recorded : Result (Unit {0}) ReplayError → ℕ → List ℕ → List ℕ
recorded (ok _) p history = p ∷ history
recorded (err _) p history = history
