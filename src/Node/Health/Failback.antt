-- ===== src/Node/Health/Failback.antt =====
-- crates/wsnet-node/src/health.rs: when a Hub that was given up is preferred again.
use my_websocket_net.Prelude.{
  ℕ, suc, ◌+◌, ◌≤◌, ◌<◌, ◌≡◌, refl, ◌⊎◌, inl, inr, Option-cases, true, false, none, some, List, [],
  ◌∷◌, arith,
}
use my_websocket_net.Limits.{health_failures_before_failover}
use my_websocket_net.Node.Health.{
  HealthTracker, stable_before_failback, record_success, record_failure,
}
use my_websocket_net.Node.Health.Failover.{
  Probe, success, failure, tracked, failing_run, failover_needs_three,
}

-- The history has a success at `since`, and no third failure in a row after it.
abbrev pub StableFrom : ℕ → List Probe → Type 0
StableFrom since [] = ⊥
StableFrom since (success now ∷ ps) = (now ≡ since) ⊎ StableFrom since ps
StableFrom since (failure now ∷ ps) =
    (suc (failing_run ps) < health_failures_before_failover) × StableFrom since ps

tracked-StableFrom :
    (ps : List Probe) (since : ℕ) → (tracked ps).succeeding_since ≡ some since → StableFrom since ps
unfolding tracked record_success record_failure
tracked-StableFrom [] since e = cc
tracked-StableFrom (success now ∷ ps) since e = elim (Option-cases (tracked ps).succeeding_since) [
  | inl start ↦ inl (ground (arith, start))
  | inr (before, at) ↦ inr (tracked-StableFrom ps since (ground (arith, at)))
]
tracked-StableFrom (failure now ∷ ps) since e =
    (ground (arith, failover_needs_three ps), tracked-StableFrom ps since (ground arith))

-- If a probe makes an unhealthy Hub preferred again, that probe is a success, and it comes at least
-- thirty seconds after an earlier success, with no third failure in a row in between.
pub failback_needs_stability :
    (ps : List Probe) (p : Probe)
    → (tracked ps).healthy ≡ false
    → (tracked (p ∷ ps)).healthy ≡ true
    → (now : ℕ) × (p ≡ success now)
      × ((since : ℕ) × StableFrom since ps × (since + stable_before_failback ≤ now))
unfolding tracked record_success record_failure
failback_needs_stability ps (failure now) down up = absurd (ground (arith, down, up))
failback_needs_stability ps (success now) down up =
    elim (Option-cases (tracked ps).succeeding_since) [
      | inl start ↦ absurd (ground (arith, start))
      | inr (since, at) ↦ (now, refl, (since, tracked-StableFrom ps since at, ground (arith, at)))
    ]

-- One failed check during the recovery does not restart the thirty seconds: an unhealthy Hub that
-- succeeds, then fails once, and succeeds again thirty seconds after that first success is healthy,
-- however shortly before it failed.
pub failure_keeps_stability_run :
    (t : HealthTracker) (first failed last : ℕ)
    → t.healthy ≡ false
    → t.succeeding_since ≡ none
    → first + stable_before_failback ≤ last
    → (record_success (record_failure (record_success t first) failed) last).healthy ≡ true
unfolding record_success record_failure
failure_keeps_stability_run t first failed last down idle long = ground arith
