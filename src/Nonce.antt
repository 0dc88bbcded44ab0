-- ===== src/Nonce.antt =====
-- crates/wsnet-auth-store/src/nonce.rs: the authentication nonces that a Hub has seen. An i64 is the
-- number that lies 2^63 above it, so that comparisons and differences are those of the numbers;
-- arithmetic on it wraps, as in a release build. The 32 bytes of a nonce are one number. A negative
-- rollback tolerance is left out.
pub mod Replay
pub mod Counts
pub mod Caps
pub mod Snapshot
pub mod Saved
pub mod Restart
mod Tests
pub mod OnceOnly
pub mod Accept
use Prim.Native.String.{String}
use text.Mathlib.Text.{◌==◌ as str_eq}
use text.Mathlib.TextEquality.{eq_iff}
use my_websocket_net.Prelude.{
  ℕ, zero, suc, ◌+◌, ◌-◌, ◌*◌, ◌/◌, min, max, Bool, true, false, not, ◌&&◌, ◌||◌, Option, none,
  some, List, [], ◌∷◌, ◌≡◌, ◌↔◌, ap, arith, ltb, leb, ◌==◌, ==_iff, if◌then◌else◌, length, ◌^◌, ◌%◌,
}
use my_websocket_net.Prelude.Map
use my_websocket_net.Prelude.Map.{Map, Eq, string_eq, pair_eq}
use my_websocket_net.Prelude.Result.{Result, ok, err}
use my_websocket_net.Limits.{
  u64_mod, u64_max, auth_window_default_secs, auth_window_min_secs, auth_window_max_secs,
  auth_nonce_per_node_max, auth_nonce_memory_budget, auth_nonce_entry_cost,
}

abbrev pub storage_recovery_margin_secs : ℕ
storage_recovery_margin_secs = 10

pub record Now : Type 0 where
  pub wall_secs : ℕ
  pub monotonic_ms : ℕ

pub record NonceKey : Type 0 where
  pub hub_id : String
  pub key_id : String
  pub node_id : String
  pub nonce : ℕ

abbrev pub same_key : NonceKey → NonceKey → Bool
same_key a b =
    str_eq a.hub_id b.hub_id
    && str_eq a.key_id b.key_id
    && str_eq a.node_id b.node_id
    && a.nonce == b.nonce

pub same_key_iff : (a b : NonceKey) → (same_key a b ≡ true) ↔ (a ≡ b)
same_key_iff a b = (
  λ h. ground (
    arith,
    eq_iff a.hub_id b.hub_id,
    eq_iff a.key_id b.key_id,
    eq_iff a.node_id b.node_id,
    ==_iff a.nonce b.nonce,
  ),
  λ h. ground (
    arith,
    eq_iff a.hub_id b.hub_id,
    eq_iff a.key_id b.key_id,
    eq_iff a.node_id b.node_id,
    ==_iff a.nonce b.nonce,
    ap (λ k. k.hub_id) h,
    ap (λ k. k.key_id) h,
    ap (λ k. k.node_id) h,
    ap (λ k. k.nonce) h,
  ),
)

instance abbrev pub nonce_key_eq : Eq NonceKey
nonce_key_eq = record { same = same_key; same_iff = same_key_iff }

pub data CapacityScope : Type 0 where
  per_node_cap global_cap : CapacityScope

pub data AuthStoreError : Type 0 where
  window_out_of_range : ℕ → AuthStoreError
  timestamp_out_of_window : ℕ → ℕ → ℕ → AuthStoreError
  duplicate : AuthStoreError
  capacity_exceeded : CapacityScope → AuthStoreError
  clock_rollback : ℕ → ℕ → AuthStoreError
  storage_unavailable : ℕ → AuthStoreError

pub record NonceStoreConfig : Type 0 where
  pub window_secs : ℕ
  pub per_node_max : ℕ
  pub global_max : ℕ
  pub rollback_tolerance_secs : ℕ

abbrev pub default_config : NonceStoreConfig
default_config = record {
  window_secs = auth_window_default_secs;
  per_node_max = auth_nonce_per_node_max;
  global_max = auth_nonce_memory_budget / auth_nonce_entry_cost;
  rollback_tolerance_secs = 1;
}

abbrev pub validate : NonceStoreConfig → Result (Unit {0}) AuthStoreError
validate config =
    if ltb config.window_secs auth_window_min_secs || ltb auth_window_max_secs config.window_secs
    then err (window_out_of_range config.window_secs)
    else ok tt

pub record Entry : Type 0 where
  pub retain_until_ms : ℕ
  pub last_acceptable_wall : ℕ

pub record NonceStore : Type 0 where
  pub config : NonceStoreConfig
  pub entries : Map NonceKey Entry
  pub per_node : Map (String × String) ℕ
  pub last_wall_secs : Option ℕ
  pub paused_until_ms : Option ℕ

abbrev pub empty : NonceStoreConfig → NonceStore
empty config = record {
  config = config;
  entries = [];
  per_node = [];
  last_wall_secs = none;
  paused_until_ms = none;
}

abbrev pub new_from :
    NonceStoreConfig → Result (Unit {0}) AuthStoreError → Result NonceStore AuthStoreError
new_from config (ok _) = ok (empty config)
new_from config (err e) = err e

unfoldable pub new : NonceStoreConfig → Result NonceStore AuthStoreError
new config = new_from config (validate config)

-- `(a - b).unsigned_abs()`: a difference that does not fit wraps.
abbrev pub distance : ℕ → ℕ → ℕ
distance a b = let apart = (a - b) + (b - a) in min apart (u64_mod - apart)

-- `a.saturating_add(b)` on u64, and on i64 as it is written here.
abbrev pub saturating_add : ℕ → ℕ → ℕ
saturating_add a b = min (a + b) u64_max

abbrev pub or_zero : Option ℕ → ℕ
or_zero none = 0
or_zero (some n) = n

abbrev pub is_some {ℓ} : {A : Type ℓ} → Option A → Bool
is_some none = false
is_some (some a) = true

abbrev pub node_of : NonceKey → String × String
node_of key = (key.hub_id, key.node_id)

pub node_len : NonceStore → String → String → ℕ
node_len s hub_id node_id = or_zero (Map.lookup (hub_id, node_id) s.per_node)

pub contains : NonceStore → NonceKey → Bool
contains s key = is_some (Map.lookup key s.entries)

pub timestamp_acceptable : NonceStore → ℕ → ℕ → Bool
timestamp_acceptable s ts now_wall_secs = leb (distance ts now_wall_secs) s.config.window_secs

-- One record of the node fewer.
pub release : String × String → Map (String × String) ℕ → Map (String × String) ℕ
release node_key per_node =
    let remaining = or_zero (Map.lookup node_key per_node) - 1 in
    if remaining == 0 then Map.remove node_key per_node else Map.insert node_key remaining per_node

-- `retain`, with the counts of the nodes.
pub retain :
    ℕ → Map NonceKey Entry → Map (String × String) ℕ → Map NonceKey Entry × Map (String × String) ℕ
retain monotonic_ms [] per_node = ([], per_node)
retain monotonic_ms ((key, entry) ∷ entries) per_node =
    let dropped = retain monotonic_ms entries (release (node_of key) per_node) in
    let kept = retain monotonic_ms entries per_node in
    if leb entry.retain_until_ms monotonic_ms then dropped else ((key, entry) ∷ kept.0, kept.1)

-- What `purge_expired` leaves; it returns how many entries fewer that is.
pub purged : NonceStore → ℕ → NonceStore
purged s monotonic_ms =
    let (entries, per_node) = retain monotonic_ms s.entries s.per_node in
    record s { entries = entries; per_node = per_node }

pub purge_expired : NonceStore → Now → ℕ × NonceStore
unfolding purged
purge_expired s now =
    let s' = purged s now.monotonic_ms in (length s.entries - length s'.entries, s')

-- `(last_acceptable_wall + 1 - now).max(0) as u64`: a difference that does not fit wraps.
pub seconds_left : ℕ → ℕ → ℕ
seconds_left last_acceptable_wall now_wall_secs =
    let left = last_acceptable_wall + 1 - now_wall_secs in
    let past = now_wall_secs - (last_acceptable_wall + 1) in
    if ltb (2 ^ 63) past then u64_mod - past else if ltb left (2 ^ 63) then left else 0

-- The last steps of `register`: the new record, and where it goes.
abbrev pub new_entry : NonceStore → ℕ → Now → Entry
new_entry s ts now =
    let last_acceptable_wall = saturating_add ts s.config.window_secs in
    let delta_secs = seconds_left last_acceptable_wall now.wall_secs in
    record {
      retain_until_ms = saturating_add now.monotonic_ms (min (delta_secs * 1000) u64_max);
      last_acceptable_wall = last_acceptable_wall;
    }

pub record_key : NonceStore → NonceKey → ℕ → Now → NonceStore
record_key s key ts now =
    let node_key = node_of key in
    record s {
      entries = Map.insert key (new_entry s ts now) s.entries;
      per_node = Map.insert node_key (or_zero (Map.lookup node_key s.per_node) + 1) s.per_node;
    }

-- `register` once the expired records are gone.
pub admit : NonceStore → NonceKey → ℕ → Now → Result (Unit {0}) AuthStoreError × NonceStore
unfolding contains node_len
admit s key ts now =
    if contains s key
    then (err duplicate, s)
    else if leb s.config.global_max (length s.entries)
    then (err (capacity_exceeded global_cap), s)
    else if leb s.config.per_node_max (node_len s key.hub_id key.node_id)
    then (err (capacity_exceeded per_node_cap), s)
    else (ok tt, record_key s key ts now)

-- The pause after a loss, then the purge.
pub unpaused :
    NonceStore → NonceKey → ℕ → Now → Option ℕ → Result (Unit {0}) AuthStoreError × NonceStore
unpaused s key ts now none = admit (purged s now.monotonic_ms) key ts now
unpaused s key ts now (some resume_at_ms) =
    if ltb now.monotonic_ms resume_at_ms
    then (err (storage_unavailable resume_at_ms), s)
    else admit (purged (record s { paused_until_ms = none }) now.monotonic_ms) key ts now

-- `now < last - tolerance`: a difference that does not fit wraps.
pub rolled_back : ℕ → ℕ → ℕ → Bool
rolled_back now last tolerance =
    ltb now (if ltb last tolerance then last + u64_mod - tolerance else last - tolerance)

-- The clock check.
pub timely :
    NonceStore → NonceKey → ℕ → Now → Option ℕ → Result (Unit {0}) AuthStoreError × NonceStore
timely s key ts now none =
    unpaused (record s { last_wall_secs = some now.wall_secs }) key ts now s.paused_until_ms
timely s key ts now (some last) =
    let s' = record s { last_wall_secs = some (max last now.wall_secs) } in
    if rolled_back now.wall_secs last s.config.rollback_tolerance_secs
    then (err (clock_rollback last now.wall_secs), s')
    else unpaused s' key ts now s.paused_until_ms

pub register : NonceStore → NonceKey → ℕ → Now → Result (Unit {0}) AuthStoreError × NonceStore
unfolding timestamp_acceptable
register s key ts now =
    if not (timestamp_acceptable s ts now.wall_secs)
    then (err (timestamp_out_of_window ts now.wall_secs s.config.window_secs), s)
    else timely s key ts now s.last_wall_secs

-- The products with 1000 stay below 2^64 for the windows that `validate` lets through.
pub mark_storage_lost : NonceStore → Now → NonceStore
mark_storage_lost s now =
    let hold_secs = min (s.config.window_secs * 2) u64_max + storage_recovery_margin_secs in
    record s {
      entries = [];
      per_node = [];
      paused_until_ms = some (saturating_add now.monotonic_ms (hold_secs * 1000));
    }
