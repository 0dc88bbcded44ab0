-- ===== src/Stream/Credit/Tests.antt =====
-- Runs of the credit account, and its theorems at concrete inputs.
use my_websocket_net.Prelude.{◌≡◌, refl, List, [], ◌∷◌, arith}
use my_websocket_net.Prelude.Result.{err}
use my_websocket_net.Stream.Error.{credit_exceeded}
use my_websocket_net.Stream.Credit.{CreditAccount, new, record_received}
use my_websocket_net.Stream.Credit.Window.{Call, receives, consumes, run, IsBounded, run-IsBounded}

abbrev calls : List Call
calls = receives 0 40 ∷ receives 40 70 ∷ consumes 30 ∷ receives 40 70 ∷ consumes 200 ∷ []

abbrev mid : CreditAccount
mid = record { window = 100; received = 40; consumed = 0; limit = 100 }

mid-IsBounded : IsBounded 100 mid
mid-IsBounded = record {
  same = refl;
  consumed = omega arith;
  received = omega arith;
  limit = omega arith;
  representable = omega arith;
}

past_credit : (record_received mid 40 61).0 ≡ err (credit_exceeded 101 100)
unfolding record_received
past_credit = refl

run-IsBounded_example : IsBounded 100 (run (new 100 100) calls)
run-IsBounded_example = run-IsBounded 100 100 calls (omega arith)
