-- ===== src/Session/Bind/Tests.antt =====
-- Runs of the registry of bind nonces, and its theorems at concrete inputs.
use my_websocket_net.Prelude.{
  ℕ, zero, suc, ◌+◌, ◌^◌, ◌≡◌, ◌≤◌, All, length, refl, true, false, List, [], ◌∷◌, arith,
}
use my_websocket_net.Prelude.Map.{lookup, insert}
use my_websocket_net.Nonce.{Now}
use my_websocket_net.Session.Bind.{
  new, retain, prune, prepared, claim_prepared, claim, retain_until_ms,
}
use my_websocket_net.Session.Bind.SingleUse.{Call, claims, prunes, run, claimed_once}
use my_websocket_net.Session.Bind.Pruning.{claim_count, IsFrom, IsFresh, bind_run-IsBounded}

-- The moment `n` seconds after 1970, and 5 seconds after the start.
abbrev at : ℕ → ℕ → Now
at seconds since = record { wall_secs = 2 ^ 63 + seconds; monotonic_ms = since }

abbrev start : Now
start = at 1000 5000

abbrev later : Now
later = at 1010 15900

abbrev calls : List Call
calls = claims 8 (2 ^ 63 + 1020) (at 1002 7000) ∷ prunes (at 1005 10000) ∷ []

claims_once : (claim new 7 (2 ^ 63 + 1010) start).0 ≡ true
unfolding claim prepared claim_prepared lookup
claims_once = refl

-- The nonce is kept until one second past the expiry of its proof.
keeps_until : retain_until_ms (2 ^ 63 + 1010) start ≡ 16000
unfolding retain_until_ms
keeps_until = refl

-- Then it is forgotten.
forgets : (prune (claim new 7 (2 ^ 63 + 1010) start).1 (at 1011 16000)).0 ≡ 1
unfolding claim prepared claim_prepared lookup insert retain_until_ms prune retain
forgets = refl

-- The wall clock is put back after that: the same nonce is claimed again, six seconds before its proof
-- expires.
claims_again_after_a_step_back :
    (claim
      (prune (claim new 7 (2 ^ 63 + 1010) start).1 (at 1011 16000)).1
      7
      (2 ^ 63 + 1010)
      (at 1004 16100)).0
    ≡ true
unfolding claim prepared claim_prepared lookup insert retain_until_ms prune retain
claims_again_after_a_step_back = refl

claimed_once_example :
    (claim (run (claim new 7 (2 ^ 63 + 1010) start).1 calls) 7 (2 ^ 63 + 1020) later).0 ≡ false
claimed_once_example =
    claimed_once new 7 (2 ^ 63 + 1010) start calls (2 ^ 63 + 1020) later claims_once
      (omega arith, omega arith, omega arith) (omega arith, omega arith) (omega arith)
      (omega arith, (omega arith, tt))

-- The same claim over and over.
abbrev repeated : ℕ → List Call
repeated zero = []
repeated (suc n) = claims 9 (2 ^ 63 + 1030) (at 1012 17000) ∷ repeated n

claim_count-repeated : (n : ℕ) → claim_count (repeated n) ≡ n
claim_count-repeated zero = refl
claim_count-repeated (suc n) = omega (arith, claim_count-repeated n)

repeated-IsFrom : (n : ℕ) → All (IsFrom 17000) (repeated n)
repeated-IsFrom zero = tt
repeated-IsFrom (suc n) = ((omega arith, omega arith), repeated-IsFrom n)

bind_run-IsBounded_example :
    (length (run new calls).used ≤ 65536) × IsFresh 17000 (run (run new calls) (repeated 1025)).used
bind_run-IsBounded_example =
    bind_run-IsBounded calls (repeated 1025) 17000 (repeated-IsFrom 1025)
      (rw (claim_count-repeated 1025) (omega arith))
