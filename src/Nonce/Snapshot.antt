-- ===== src/Nonce/Snapshot.antt =====
-- crates/wsnet-auth-store/src/nonce.rs: the records that outlive a restart, in wall time.
use my_websocket_net.Prelude.{ℕ, ◌+◌, ◌*◌, ◌%◌, some, List, [], ◌∷◌, ◌==◌, if◌then◌else◌}
use my_websocket_net.Prelude.Map
use my_websocket_net.Prelude.Map.{Map, string_eq, pair_eq}
use my_websocket_net.Prelude.Result.{Result, ok, err}
use my_websocket_net.Limits.{u64_mod}
use my_websocket_net.Nonce.{
  Now, NonceKey, Entry, NonceStore, NonceStoreConfig, AuthStoreError, nonce_key_eq, new, node_of,
  or_zero, saturating_add, seconds_left,
}

unfoldable pub snapshot_of : Map NonceKey Entry → List (NonceKey × ℕ)
snapshot_of [] = []
snapshot_of ((key, entry) ∷ entries) = (key, entry.last_acceptable_wall) ∷ snapshot_of entries

unfoldable pub snapshot : NonceStore → List (NonceKey × ℕ)
snapshot s = snapshot_of s.entries

-- The record that a snapshot's entry becomes. The product wraps.
abbrev pub restored_entry : Now → ℕ → Entry
restored_entry now last_acceptable_wall =
    let delta_secs = seconds_left last_acceptable_wall now.wall_secs in
    record {
      retain_until_ms = saturating_add now.monotonic_ms (delta_secs * 1000 % u64_mod);
      last_acceptable_wall = last_acceptable_wall;
    }

-- One record of a snapshot.
unfoldable pub restore_one : NonceStore → Now → NonceKey → ℕ → NonceStore
restore_one s now key last_acceptable_wall =
    if seconds_left last_acceptable_wall now.wall_secs == 0 then s else record s {
      entries = Map.insert key (restored_entry now last_acceptable_wall) s.entries;
      per_node =
          Map.insert (node_of key) (or_zero (Map.lookup (node_of key) s.per_node) + 1) s.per_node;
    }

unfoldable pub restore_all : NonceStore → Now → List (NonceKey × ℕ) → NonceStore
restore_all s now [] = s
restore_all s now ((key, last_acceptable_wall) ∷ records) =
    restore_all (restore_one s now key last_acceptable_wall) now records

abbrev pub restored :
    Result NonceStore AuthStoreError → List (NonceKey × ℕ) → Now → Result NonceStore AuthStoreError
restored (err e) snapshot now = err e
restored (ok s) snapshot now =
    ok (record (restore_all s now snapshot) { last_wall_secs = some now.wall_secs })

unfoldable pub restore :
    NonceStoreConfig → List (NonceKey × ℕ) → Now → Result NonceStore AuthStoreError
restore config snapshot now = restored (new config) snapshot now
