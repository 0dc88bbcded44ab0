-- ===== src/Node/Health/Failover.antt =====
-- crates/wsnet-node/src/health.rs: runs of probes and when a Hub counts as unhealthy.
use my_websocket_net.Prelude.{
  ℕ, suc, ◌≤◌, ◌≡◌, refl, min, Bool, true, false, List, [], ◌∷◌, arith, leb, if◌then◌else◌,
}
use my_websocket_net.Limits.{health_failures_before_failover, u32_max}
use my_websocket_net.Node.Health.{HealthTracker, new, record_success, record_failure}

-- The outcome of a health check, and when it came.
pub data Probe : Type 0 where
  success failure : ℕ → Probe

pub observe : HealthTracker → Probe → HealthTracker
observe t (success now) = record_success t now
observe t (failure now) = record_failure t now

-- The latest probe stands first.
unfoldable pub tracked : List Probe → HealthTracker
unfolding observe
tracked [] = new
tracked (p ∷ ps) = observe (tracked ps) p

-- How many failures the latest probes are, with no success among them.
unfoldable pub failing_run : List Probe → ℕ
failing_run [] = 0
failing_run (success now ∷ ps) = 0
failing_run (failure now ∷ ps) = suc (failing_run ps)

-- Some three probes in a row all failed.
unfoldable pub had_failover : List Probe → Bool
had_failover [] = false
had_failover (success now ∷ ps) = had_failover ps
had_failover (failure now ∷ ps) =
    if leb health_failures_before_failover (suc (failing_run ps)) then true else had_failover ps

-- Whatever the probes: the failure count is that of the latest failures in a row, at most the
-- largest u32; a Hub is healthy as long as no three probes in a row have failed; and it is unhealthy
-- while the latest three probes, or more, have failed.
pub failover_needs_three :
    (ps : List Probe)
    → ((tracked ps).failures ≡ min (failing_run ps) u32_max)
      × (had_failover ps ≡ false → (tracked ps).healthy ≡ true)
      × (health_failures_before_failover ≤ failing_run ps → (tracked ps).healthy ≡ false)
unfolding tracked failing_run had_failover record_success record_failure
failover_needs_three [] = (omega arith, λ h. refl, λ h. absurd (omega arith))
failover_needs_three (success now ∷ ps) =
    let (count, up, down) = failover_needs_three ps in
    (ground arith, λ h. ground (arith, up h), λ h. absurd (omega arith))
failover_needs_three (failure now ∷ ps) =
    let (count, up, down) = failover_needs_three ps in
    (ground (arith, count), λ h. ground (arith, count, up), λ h. ground (arith, count))
