-- ===== src/Node/Health.antt =====
-- crates/wsnet-node/src/health.rs: the health of one Hub. An `Instant` is a number of seconds; `-` stops
-- at 0, like `saturating_duration_since`.
pub mod Failover
pub mod Failback
mod Tests
use my_websocket_net.Prelude.{
  ℕ, ◌+◌, ◌-◌, min, Bool, true, false, Option, none, some, leb, if◌then◌else◌,
}
use my_websocket_net.Limits.{
  u32_max, health_failures_before_failover, health_stable_before_failback_secs,
}

abbrev pub stable_before_failback : ℕ
stable_before_failback = health_stable_before_failback_secs

pub record HealthTracker : Type 0 where
  pub failures : ℕ
  pub healthy : Bool
  pub succeeding_since : Option ℕ

abbrev pub new : HealthTracker
new = record { failures = 0; healthy = true; succeeding_since = none }

-- The match on `succeeding_since`, for an unhealthy Hub whose failure count was reset.
recover : ℕ → Option ℕ → HealthTracker
recover now none = record { failures = 0; healthy = false; succeeding_since = some now }
recover now (some since) =
    if leb stable_before_failback (now - since)
    then record { failures = 0; healthy = true; succeeding_since = none }
    else record { failures = 0; healthy = false; succeeding_since = some since }

pub record_success : HealthTracker → ℕ → HealthTracker
unfolding recover
record_success t now =
    if t.healthy
    then record { failures = 0; healthy = true; succeeding_since = none }
    else recover now t.succeeding_since

pub record_failure : HealthTracker → ℕ → HealthTracker
record_failure t now =
    let failures = min (t.failures + 1) u32_max in
    if leb health_failures_before_failover failures
    then record { failures = failures; healthy = false; succeeding_since = none }
    else record t { failures = failures }
