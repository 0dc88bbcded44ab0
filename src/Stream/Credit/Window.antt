-- ===== src/Stream/Credit/Window.antt =====
-- crates/wsnet-stream/src/lib.rs: the flow-control window over any history of an account.
use my_websocket_net.Prelude.{ℕ, ◌+◌, ◌≤◌, ◌<◌, ◌≡◌, ◌↔◌, refl, min, max, List, [], ◌∷◌, arith}
use my_websocket_net.Prelude.Result.{ok, err}
use my_websocket_net.Limits.{u64_max, stream_max_credit}
use my_websocket_net.Stream.Error.{StreamError}
use my_websocket_net.Stream.Credit.{CreditAccount, new, outstanding, record_received, consume}

-- A call of the account: a block that arrived, by offset and length, or bytes that were consumed.
pub data Call : Type 0 where
  receives : ℕ → ℕ → Call
  consumes : ℕ → Call

pub after : CreditAccount → Call → CreditAccount
after a (receives offset len) = (record_received a offset len).1
after a (consumes bytes) = (consume a bytes).1

unfoldable pub run : CreditAccount → List Call → CreditAccount
unfolding after
run a [] = a
run a (c ∷ cs) = run (after a c) cs

-- What is granted beyond consumption never passes the window, what has arrived was granted, and only
-- what has arrived is consumed.
pub record IsBounded (window : ℕ) (a : CreditAccount) : Type 0 where
  pub same : a.window ≡ window
  pub consumed : a.consumed ≤ a.received
  pub received : a.received ≤ a.limit
  pub limit : a.limit ≤ a.consumed + a.window
  pub representable : a.limit ≤ u64_max

after-IsBounded :
    (window : ℕ) (a : CreditAccount) (c : Call) → IsBounded window a → IsBounded window (after a c)
unfolding after record_received consume
after-IsBounded window a (receives offset len) v = ground arith
after-IsBounded window a (consumes bytes) v = ground arith

run-IsBounded_from :
    (window : ℕ) (cs : List Call) (a : CreditAccount)
    → IsBounded window a
    → IsBounded window (run a cs)
unfolding run
run-IsBounded_from window [] a v = v
run-IsBounded_from window (c ∷ cs) a v =
    run-IsBounded_from window cs (after a c) (after-IsBounded window a c v)

-- Whatever arrives and whatever is consumed: what the peer was granted stays within one window of
-- what the application consumed, nothing is taken in beyond the grant, and nothing is consumed that
-- has not arrived. The window is the configured one up to the maximum, or the initial credit.
pub run-IsBounded :
    (initial window : ℕ) (cs : List Call)
    → initial ≤ u64_max
    → IsBounded (max (min window stream_max_credit) initial) (run (new initial window) cs)
run-IsBounded initial window cs h = run-IsBounded_from _ cs (new initial window) (record {
  same = refl;
  consumed = omega arith;
  received = omega arith;
  limit = omega arith;
  representable = h;
})

-- A consumption that is accepted tops the grant up to one window past what is consumed, or to the
-- largest u64, and returns the difference; it changes nothing that has arrived.
pub consume_grants :
    (window : ℕ) (a : CreditAccount) (bytes grant : ℕ)
    → IsBounded window a
    → (consume a bytes).0 ≡ ok grant
    → let a' = (consume a bytes).1 in
      (a'.limit ≡ min (a.consumed + bytes + a.window) u64_max)
      × (a.limit + grant ≡ a'.limit)
      × (a'.consumed ≡ a.consumed + bytes)
      × (a'.received ≡ a.received)
unfolding consume
consume_grants window a bytes grant v h = ground arith

-- An arriving block is taken in exactly when it starts where the last one ended and fits the grant;
-- it then uses up its length of the outstanding credit. Nothing else changes the account.
pub record_received_exact :
    (window : ℕ) (a : CreditAccount) (offset len : ℕ)
    → IsBounded window a
    → 0 < len
    → (((record_received a offset len).0 ≡ ok tt) ↔ ((offset ≡ a.received) × (len ≤ outstanding a)))
      × ((record_received a offset len).0 ≡ ok tt
          → (record_received a offset len).1 ≡ record a { received = a.received + len })
      × ((e : StreamError)
          → (record_received a offset len).0 ≡ err e
          → (record_received a offset len).1 ≡ a)
unfolding record_received outstanding
record_received_exact window a offset len v pos =
    ((λ h. ground arith, λ h. ground arith), λ h. ground arith, λ e h. ground arith)
