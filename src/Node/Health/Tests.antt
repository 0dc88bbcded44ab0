-- ===== src/Node/Health/Tests.antt =====
-- Runs of the tracker, and its theorems at concrete inputs.
use my_websocket_net.Prelude.{ℕ, ◌+◌, ◌≤◌, ◌≡◌, refl, min, true, false, none, List, [], ◌∷◌, arith}
use my_websocket_net.Limits.{health_failures_before_failover, u32_max}
use my_websocket_net.Node.Health.{
  HealthTracker, stable_before_failback, record_success, record_failure,
}
use my_websocket_net.Node.Health.Failover.{
  Probe, success, failure, tracked, failing_run, had_failover, failover_needs_three,
}
use my_websocket_net.Node.Health.Failback.{
  StableFrom, failback_needs_stability, failure_keeps_stability_run,
}

-- Newest first: three failures, then a success, a failure and a success.
abbrev probes : List Probe
probes = success 26 ∷ failure 25 ∷ success 10 ∷ failure 3 ∷ failure 2 ∷ failure 1 ∷ success 0 ∷ []

still_down : (tracked probes).healthy ≡ false
unfolding tracked record_success record_failure
still_down = refl

up_again : (tracked (success 40 ∷ probes)).healthy ≡ true
unfolding tracked record_success record_failure
up_again = refl

abbrev outage : List Probe
outage = failure 3 ∷ failure 2 ∷ failure 1 ∷ success 0 ∷ []

failover_needs_three_example :
    ((tracked outage).failures ≡ min (failing_run outage) u32_max)
    × (had_failover outage ≡ false → (tracked outage).healthy ≡ true)
    × (health_failures_before_failover ≤ failing_run outage → (tracked outage).healthy ≡ false)
failover_needs_three_example = failover_needs_three outage

failback_needs_stability_example :
    (now : ℕ) × (success 40 ≡ success now)
    × ((since : ℕ) × StableFrom since probes × (since + stable_before_failback ≤ now))
failback_needs_stability_example = failback_needs_stability probes (success 40) still_down up_again

abbrev down : HealthTracker
down = record { failures = 3; healthy = false; succeeding_since = none }

failure_keeps_stability_run_example :
    (record_success (record_failure (record_success down 10) 39) 40).healthy ≡ true
failure_keeps_stability_run_example =
    failure_keeps_stability_run down 10 39 40 refl refl (omega arith)
