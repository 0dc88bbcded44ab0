-- ===== src/Session/Bind/Pruning.antt =====
-- crates/wsnet-session/src/bind.rs: the bound of the registry of bind nonces, and its pruning.
use my_websocket_net.Prelude.{
  ℕ, ◌+◌, ◌≡◌, ◌≤◌, ◌<◌, ◌⊎◌, Option-cases, inl, inr, List, [], ◌∷◌, arith, length, All,
}
use my_websocket_net.Prelude.Map
use my_websocket_net.Prelude.Map.{Map, nat_eq, length-insert_new}
use my_websocket_net.Limits.{u64_max}
use my_websocket_net.Nonce.{Now}
use my_websocket_net.Session.Bind.{
  BindProofRegistry, new, bind_nonce_max, retain, prune, retain_until_ms, prepared, claim_prepared,
  claim,
}
use my_websocket_net.Session.Bind.SingleUse.{
  Call, claims, prunes, moment, after, run, length-retain,
}

abbrev pub IsBounded : BindProofRegistry → Type 0
IsBounded r = (length r.used ≤ bind_nonce_max) × (r.claims_since_prune ≤ 1024)

claim_prepared-IsBounded :
    (r : BindProofRegistry) (nonce expires_at : ℕ) (now : Now)
    → IsBounded r
    → IsBounded (claim_prepared r nonce expires_at now).1
unfolding claim_prepared
claim_prepared-IsBounded r nonce expires_at now (few, counted) =
    elim (Option-cases (Map.lookup nonce r.used)) [
      | inl free ↦ ground (
        arith,
        free,
        few,
        counted,
        length-insert_new nonce (retain_until_ms expires_at now) r.used free,
      )
      | inr (until, there) ↦ rw there (few, counted)
    ]

prepared-IsBounded : (r : BindProofRegistry) (now : Now) → IsBounded r → IsBounded (prepared r now)
unfolding prepared
prepared-IsBounded r now (few, counted) =
    ground (arith, length-retain now.monotonic_ms r.used, few, counted)

after-IsBounded : (r : BindProofRegistry) (c : Call) → IsBounded r → IsBounded (after r c)
unfolding after claim prune
after-IsBounded r (claims nonce expires_at now) h =
    claim_prepared-IsBounded (prepared r now) nonce expires_at now (prepared-IsBounded r now h)
after-IsBounded r (prunes now) (few, counted) =
    let fewer = length-retain now.monotonic_ms r.used in (omega arith, counted)

run_keeps_bounds : (r : BindProofRegistry) (cs : List Call) → IsBounded r → IsBounded (run r cs)
unfolding run
run_keeps_bounds r [] h = h
run_keeps_bounds r (c ∷ cs) h = run_keeps_bounds (after r c) cs (after-IsBounded r c h)

abbrev Entries : Type 0
Entries = Map ℕ ℕ

-- Nothing is kept that was to be kept until a moment before `from`.
abbrev pub IsFresh : ℕ → Entries → Type 0
IsFresh from used = All (λ entry. from ≤ entry.1) used

-- The calls that claim.
abbrev pub claim_count : List Call → ℕ
claim_count [] = 0
claim_count (claims nonce expires_at now ∷ cs) = claim_count cs + 1
claim_count (prunes now ∷ cs) = claim_count cs

-- The monotonic clock has reached `from`, and is a u64.
abbrev pub IsFrom : ℕ → Call → Type 0
IsFrom from c = (from ≤ moment c) × (moment c ≤ u64_max)

retain_forgets :
    (from now_ms : ℕ) (used : Entries) → from ≤ now_ms → IsFresh from (retain now_ms used)
unfolding retain
retain_forgets from now_ms [] late = tt
retain_forgets from now_ms ((k, v) ∷ used) late =
    ground (arith, retain_forgets from now_ms used late)

retain-IsFresh :
    (from now_ms : ℕ) (used : Entries) → IsFresh from used → IsFresh from (retain now_ms used)
unfolding retain
retain-IsFresh from now_ms [] fresh = tt
retain-IsFresh from now_ms ((k, v) ∷ used) (here, fresh) =
    ground (arith, here, retain-IsFresh from now_ms used fresh)

insert-IsFresh :
    (from nonce until : ℕ) (used : Entries)
    → from ≤ until
    → IsFresh from used
    → IsFresh from (Map.insert nonce until used)
unfolding Map.insert
insert-IsFresh from nonce until [] late fresh = (late, tt)
insert-IsFresh from nonce until ((k, v) ∷ used) late (here, fresh) =
    ground (arith, here, fresh, late, insert-IsFresh from nonce until used late fresh)

claim_prepared-IsFresh :
    (from : ℕ) (r : BindProofRegistry) (nonce expires_at : ℕ) (now : Now)
    → from ≤ now.monotonic_ms
    → now.monotonic_ms ≤ u64_max
    → IsFresh from r.used
    → IsFresh from (claim_prepared r nonce expires_at now).1.used
unfolding claim_prepared retain_until_ms
claim_prepared-IsFresh from r nonce expires_at now late fits fresh =
    let until = retain_until_ms expires_at now in
    let later : from ≤ until = omega arith in
    ground (arith, fresh, insert-IsFresh from nonce until r.used later fresh)

prepared-IsFresh :
    (from : ℕ) (r : BindProofRegistry) (now : Now)
    → IsFresh from r.used
    → IsFresh from (prepared r now).used
unfolding prepared
prepared-IsFresh from r now fresh =
    ground (arith, fresh, retain-IsFresh from now.monotonic_ms r.used fresh)

after-IsFresh :
    (from : ℕ) (r : BindProofRegistry) (c : Call)
    → IsFrom from c
    → IsFresh from r.used
    → IsFresh from (after r c).used
unfolding after claim prune
after-IsFresh from r (claims nonce expires_at now) (late, fits) fresh =
    claim_prepared-IsFresh from (prepared r now) nonce expires_at now late fits
      (prepared-IsFresh from r now fresh)
after-IsFresh from r (prunes now) (late, fits) fresh =
    retain-IsFresh from now.monotonic_ms r.used fresh

run-IsFresh :
    (from : ℕ) (r : BindProofRegistry) (cs : List Call)
    → All (IsFrom from) cs
    → IsFresh from r.used
    → IsFresh from (run r cs).used
unfolding run
run-IsFresh from r [] late fresh = fresh
run-IsFresh from r (c ∷ cs) (late, later) fresh =
    run-IsFresh from (after r c) cs later (after-IsFresh from r c late fresh)

-- A claim either prunes or counts.
prepared_counts :
    (from : ℕ) (r : BindProofRegistry) (now : Now)
    → from ≤ now.monotonic_ms
    → r.claims_since_prune ≤ 1024
    → IsFresh from (prepared r now).used
      ⊎ ((r.claims_since_prune < 1024)
          × ((prepared r now).claims_since_prune ≡ r.claims_since_prune + 1))
unfolding prepared
prepared_counts from r now late counted =
    ground (arith, retain_forgets from now.monotonic_ms r.used late)

claim_prepared-claims_since_prune :
    (r : BindProofRegistry) (nonce expires_at : ℕ) (now : Now)
    → (claim_prepared r nonce expires_at now).1.claims_since_prune ≡ r.claims_since_prune
unfolding claim_prepared
claim_prepared-claims_since_prune r nonce expires_at now = ground arith

run_forgets :
    (from : ℕ) (r : BindProofRegistry) (cs : List Call)
    → IsBounded r
    → All (IsFrom from) cs
    → 1024 < r.claims_since_prune + claim_count cs
    → IsFresh from (run r cs).used
unfolding run after claim prune
run_forgets from r [] bounded late many = absurd (omega arith)
run_forgets from r (prunes now ∷ cs) bounded (late, later) many =
    run-IsFresh from (after r (prunes now)) cs later
      (retain_forgets from now.monotonic_ms r.used late.0)
run_forgets from r (claims nonce expires_at now ∷ cs) bounded (late, later) many =
    elim (prepared_counts from r now late.0 bounded.1) [
      | inl fresh ↦
          run-IsFresh from (after r (claims nonce expires_at now)) cs later
            (claim_prepared-IsFresh from (prepared r now) nonce expires_at now late.0 late.1 fresh)
      | inr (few, counted) ↦
          let same = claim_prepared-claims_since_prune (prepared r now) nonce expires_at now in
          run_forgets from (after r (claims nonce expires_at now)) cs
            (after-IsBounded r (claims nonce expires_at now) bounded) later (omega arith)
    ]

-- Whatever is called on a new registry, it never keeps more than 65536 nonces. And it prunes in time:
-- after any further calls with more than 1024 claims among them, all at moments of the monotonic clock
-- that are a u64 and not before `from`, no nonce is left that was to be kept until a moment before
-- `from`.
pub bind_run-IsBounded :
    (cs later : List Call) (from : ℕ)
    → All (IsFrom from) later
    → 1024 < claim_count later
    → (length (run new cs).used ≤ 65536) × IsFresh from (run (run new cs) later).used
bind_run-IsBounded cs later from late many =
    let bounded = run_keeps_bounds new cs (omega arith, omega arith) in
    (bounded.0, run_forgets from (run new cs) later bounded late (omega arith))
