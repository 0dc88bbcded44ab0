-- ===== src/Replay/Runs.antt =====
-- Sequences of packets.
use my_websocket_net.Prelude.{ℕ, ◌≡◌, refl, inl, inr, false, Option-cases, List, [], ◌∷◌, arith}
use mathlib.Core.Path.{ap₂}
use my_websocket_net.Prelude.Result.{Result}
use my_websocket_net.Replay.{ReplayWindow, ReplayError, new, check_and_record}
use my_websocket_net.Replay.Window.{highest_of, member, verdict, recorded}
use my_websocket_net.Replay.Refinement.{
  Refines, new-Refines, check_and_record-Refines, member_of_none, member_above, verdict-none,
  verdict-at,
}

-- The answers to a sequence of packets.
unfoldable pub answers : ReplayWindow → List ℕ → List (Result (Unit {0}) ReplayError)
answers w [] = []
answers w (p ∷ ps) = (check_and_record w p).0 ∷ answers (check_and_record w p).1 ps

unfoldable pub verdicts : List ℕ → List ℕ → List (Result (Unit {0}) ReplayError)
verdicts history [] = []
verdicts history (p ∷ ps) = verdict history p ∷ verdicts (recorded (verdict history p) p history) ps

answers-verdicts :
    (ps : List ℕ) (w : ReplayWindow) (history : List ℕ)
    → Refines w history
    → answers w ps ≡ verdicts history ps
unfolding answers verdicts
answers-verdicts [] w history r = refl
answers-verdicts (p ∷ ps) w history r =
    let (same, next) = check_and_record-Refines w history p r in
    ap₂ ◌∷◌ same
      (answers-verdicts ps (check_and_record w p).1 (recorded (verdict history p) p history) next)

-- On every sequence of packets the bitmap answers what the filter over the whole history answers:
-- every number is accepted, refused as too old, as too far ahead or as a duplicate exactly when
-- the history says so, errors and their contents included.
pub answers_are_verdicts : (ps : List ℕ) → answers new ps ≡ verdicts [] ps
answers_are_verdicts ps = answers-verdicts ps new [] new-Refines

-- The numbers accepted in a run, newest first, before those of `history`.
unfoldable pub accepted : ReplayWindow → List ℕ → List ℕ → List ℕ
accepted w [] history = history
accepted w (p ∷ ps) history =
    accepted (check_and_record w p).1 ps (recorded (check_and_record w p).0 p history)

abbrev pub Distinct : List ℕ → Type 0
Distinct [] = Unit {0}
Distinct (p ∷ history) = (member p history ≡ false) × Distinct history

-- What the verdict lets through is new to the history.
recorded-Distinct :
    (history : List ℕ) (p : ℕ)
    → Distinct history
    → Distinct (recorded (verdict history p) p history)
recorded-Distinct history p d = elim (Option-cases (highest_of history)) [
  | inl none_yet ↦ rw (verdict-none p history none_yet) (member_of_none p history none_yet, d)
  | inr (h, top) ↦ rw (verdict-at p h history top) (ground (arith, member_above p h history top))
]

accepted-Distinct :
    (ps : List ℕ) (w : ReplayWindow) (history : List ℕ)
    → Refines w history
    → Distinct history
    → Distinct (accepted w ps history)
unfolding accepted
accepted-Distinct [] w history r d = d
accepted-Distinct (p ∷ ps) w history r d =
    let (same, next) = check_and_record-Refines w history p r in
    rw same (
      accepted-Distinct ps (check_and_record w p).1 (recorded (verdict history p) p history) next
        (recorded-Distinct history p d))

-- No packet number is ever accepted twice, whatever else arrives in between.
pub accepted_once : (ps : List ℕ) → Distinct (accepted new ps [])
accepted_once ps = accepted-Distinct ps new [] new-Refines tt
