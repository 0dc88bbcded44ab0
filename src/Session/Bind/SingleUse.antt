-- ===== src/Session/Bind/SingleUse.antt =====
-- crates/wsnet-session/src/bind.rs: the calls on the registry of bind nonces, and the single use of a
-- nonce.
use my_websocket_net.Prelude.{
  ℕ, ◌+◌, ◌-◌, ◌*◌, ◌^◌, ◌≡◌, ◌≤◌, ◌<◌, refl, true, false, some, List, [], ◌∷◌, arith, length, All,
}
use my_websocket_net.Prelude.Map
use my_websocket_net.Prelude.Map.{Map, nat_eq, lookup-insert, length-insert_new}
use my_websocket_net.Limits.{u64_max}
use my_websocket_net.Nonce.{Now}
use my_websocket_net.Session.Bind.{
  BindProofRegistry, retain, prune, retain_until_ms, prepared, claim_prepared, claim,
}

-- The calls on a registry.
pub data Call : Type 0 where
  claims : ℕ → ℕ → Now → Call
  prunes : Now → Call

abbrev pub moment : Call → ℕ
moment (claims nonce expires_at now) = now.monotonic_ms
moment (prunes now) = now.monotonic_ms

unfoldable pub after : BindProofRegistry → Call → BindProofRegistry
after r (claims nonce expires_at now) = (claim r nonce expires_at now).1
after r (prunes now) = (prune r now).1

unfoldable pub run : BindProofRegistry → List Call → BindProofRegistry
run r [] = r
run r (c ∷ cs) = run (after r c) cs

abbrev Kept : ℕ → ℕ → BindProofRegistry → Type 0
Kept nonce until r = Map.lookup nonce r.used ≡ some until

lookup-retain :
    (now_ms nonce until : ℕ) (used : Map ℕ ℕ)
    → now_ms < until
    → Map.lookup nonce used ≡ some until
    → Map.lookup nonce (retain now_ms used) ≡ some until
unfolding retain Map.lookup
lookup-retain now_ms nonce until [] early h = h
lookup-retain now_ms nonce until ((k, v) ∷ used) early h =
    ground (arith, lookup-retain now_ms nonce until used early, h)

pub length-retain : (now_ms : ℕ) (used : Map ℕ ℕ) → length (retain now_ms used) ≤ length used
unfolding retain
length-retain now_ms [] = omega arith
length-retain now_ms ((k, v) ∷ used) = ground (arith, length-retain now_ms used)

prepared-Kept :
    (r : BindProofRegistry) (now : Now) (nonce until : ℕ)
    → now.monotonic_ms < until
    → Kept nonce until r
    → Kept nonce until (prepared r now)
unfolding prepared
prepared-Kept r now nonce until early h =
    ground (arith, lookup-retain now.monotonic_ms nonce until r.used early h)

claim_prepared-Kept :
    (r : BindProofRegistry) (now : Now) (other expires_at nonce until : ℕ)
    → Kept nonce until r
    → Kept nonce until (claim_prepared r other expires_at now).1
unfolding claim_prepared
claim_prepared-Kept r now other expires_at nonce until h =
    ground (arith, h, lookup-insert other nonce (retain_until_ms expires_at now) r.used)

after-Kept :
    (r : BindProofRegistry) (c : Call) (nonce until : ℕ)
    → moment c < until
    → Kept nonce until r
    → Kept nonce until (after r c)
unfolding after claim prune
after-Kept r (claims other expires_at now) nonce until early h =
    claim_prepared-Kept (prepared r now) now other expires_at nonce until
      (prepared-Kept r now nonce until early h)
after-Kept r (prunes now) nonce until early h =
    lookup-retain now.monotonic_ms nonce until r.used early h

run-Kept :
    (r : BindProofRegistry) (cs : List Call) (nonce until : ℕ)
    → All (λ c. moment c < until) cs
    → Kept nonce until r
    → Kept nonce until (run r cs)
unfolding run
run-Kept r [] nonce until early h = h
run-Kept r (c ∷ cs) nonce until (now, early) h =
    run-Kept (after r c) cs nonce until early (after-Kept r c nonce until now h)

claim_prepared-new :
    (r : BindProofRegistry) (nonce expires_at : ℕ) (now : Now)
    → (claim_prepared r nonce expires_at now).0 ≡ true
    → Kept nonce (retain_until_ms expires_at now) (claim_prepared r nonce expires_at now).1
unfolding claim_prepared
claim_prepared-new r nonce expires_at now h =
    ground (arith, h, lookup-insert nonce nonce (retain_until_ms expires_at now) r.used)

claim_prepared-used :
    (r : BindProofRegistry) (nonce expires_at until : ℕ) (now : Now)
    → Kept nonce until r
    → (claim_prepared r nonce expires_at now).0 ≡ false
unfolding claim_prepared
claim_prepared-used r nonce expires_at until now h = rw h refl

-- Between the two moments the monotonic clock gains less than a second on the wall clock, which is read
-- in whole seconds.
abbrev pub KeepsPace : Now → Now → Type 0
KeepsPace now later =
    (now.wall_secs ≤ later.wall_secs)
    × (later.monotonic_ms < now.monotonic_ms + (later.wall_secs - now.wall_secs + 1) * 1000)

-- The moment until which a nonce is kept is not cut off by the bounds of the machine's integers.
abbrev pub Representable : ℕ → Now → Type 0
Representable expires_at now =
    (expires_at + 1 ≤ u64_max)
    × (expires_at + 1 - now.wall_secs ≤ 2 ^ 63 - 1)
    × (now.monotonic_ms + (expires_at + 1 - now.wall_secs) * 1000 ≤ u64_max)

until_is_later :
    (expires_at : ℕ) (now later : Now)
    → Representable expires_at now
    → KeepsPace now later
    → later.wall_secs ≤ expires_at
    → later.monotonic_ms < retain_until_ms expires_at now
unfolding retain_until_ms
until_is_later expires_at now later fits pace valid = omega arith

-- A nonce that was claimed is refused, whatever proof carries it, at every later moment at which the
-- first proof has not expired, after any calls in between; provided that the monotonic clock does not
-- go back between these calls and the later moment, that it keeps pace with the wall clock, and that
-- the retention time does not exceed the machine's integers.
pub claimed_once :
    (r : BindProofRegistry) (nonce expires_at : ℕ) (now : Now) (cs : List Call) (again : ℕ)
    (later : Now)
    → (claim r nonce expires_at now).0 ≡ true
    → Representable expires_at now
    → KeepsPace now later
    → later.wall_secs ≤ expires_at
    → All (λ c. moment c ≤ later.monotonic_ms) cs
    → (claim (run (claim r nonce expires_at now).1 cs) nonce again later).0 ≡ false
unfolding claim
claimed_once r nonce expires_at now cs again later first fits pace valid between =
    let until = retain_until_ms expires_at now in
    let early : later.monotonic_ms < until = until_is_later expires_at now later fits pace valid in
    let kept = claim_prepared-new (prepared r now) nonce expires_at now first in
    let still = run-Kept _ cs nonce until (before cs early between) kept in
    claim_prepared-used _ nonce again until later (prepared-Kept _ later nonce until early still)
  where
    before :
        {until : ℕ} (cs : List Call)
        → later.monotonic_ms < until
        → All (λ c. moment c ≤ later.monotonic_ms) cs
        → All (λ c. moment c < until) cs
    before [] early all = tt
    before (c ∷ cs) early (h, all) = (omega arith, before cs early all)
