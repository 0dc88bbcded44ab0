-- ===== src/Session/Bind.antt =====
-- crates/wsnet-session/src/bind.rs: the registry of bind nonces, each of which is used once. An i64 is
-- the number that lies 2^63 above it, the 16 bytes of a nonce are one number.
pub mod SingleUse
pub mod Pruning
mod Tests
use my_websocket_net.Prelude.{
  ℕ, ◌+◌, ◌-◌, ◌*◌, ◌^◌, min, Bool, true, false, ◌||◌, Option, none, some, List, [], ◌∷◌, ltb, leb,
  if◌then◌else◌, length,
}
use my_websocket_net.Prelude.Map
use my_websocket_net.Prelude.Map.{Map, nat_eq}
use my_websocket_net.Limits.{u64_max}
use my_websocket_net.Nonce.{Now}

abbrev pub bind_nonce_max : ℕ
bind_nonce_max = 65536

abbrev pub prune_interval : ℕ
prune_interval = 1024

pub record BindProofRegistry : Type 0 where
  pub used : Map ℕ ℕ
  pub claims_since_prune : ℕ

abbrev pub new : BindProofRegistry
new = record { used = []; claims_since_prune = 0 }

-- `retain(|_, until| *until > now.monotonic_ms)`
unfoldable pub retain : ℕ → Map ℕ ℕ → Map ℕ ℕ
retain now_ms [] = []
retain now_ms ((nonce, until) ∷ used) =
    let rest = retain now_ms used in if ltb now_ms until then (nonce, until) ∷ rest else rest

unfoldable pub prune : BindProofRegistry → Now → ℕ × BindProofRegistry
prune r now =
    let used = retain now.monotonic_ms r.used in
    (length r.used - length used, record r { used = used })

abbrev pub is_used : Option ℕ → Bool
is_used none = false
is_used (some until) = true

-- The moment until which the nonce of a proof is kept.
unfoldable pub retain_until_ms : ℕ → Now → ℕ
retain_until_ms expires_at now =
    let retain_secs = min (min (expires_at + 1) u64_max - now.wall_secs) (2 ^ 63 - 1) in
    min (now.monotonic_ms + min (retain_secs * 1000) u64_max) u64_max

-- The registry pruned, if it is full or its turn has come, and the claim counted.
unfoldable pub prepared : BindProofRegistry → Now → BindProofRegistry
prepared r now =
    if leb bind_nonce_max (length r.used) || leb prune_interval r.claims_since_prune
    then record { used = retain now.monotonic_ms r.used; claims_since_prune = 1 }
    else record r { claims_since_prune = min (r.claims_since_prune + 1) (2 ^ 32 - 1) }

-- The claim behind the pruning.
unfoldable pub claim_prepared : BindProofRegistry → ℕ → ℕ → Now → Bool × BindProofRegistry
claim_prepared r nonce expires_at now =
    if is_used (Map.lookup nonce r.used)
    then (false, r)
    else if leb bind_nonce_max (length r.used)
    then (false, r)
    else (true, record r { used = Map.insert nonce (retain_until_ms expires_at now) r.used })

unfoldable pub claim : BindProofRegistry → ℕ → ℕ → Now → Bool × BindProofRegistry
claim r nonce expires_at now = claim_prepared (prepared r now) nonce expires_at now
