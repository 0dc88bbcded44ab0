-- ===== src/Nonce/Tests.antt =====
-- Runs of the nonce store, and its theorems at concrete inputs.
use my_websocket_net.Prelude.{ℕ, ◌+◌, ◌*◌, ◌^◌, ◌≡◌, ◌≢◌, refl, some, List, [], ◌∷◌, arith}
use my_websocket_net.Prelude.Map.{lookup, insert, remove}
use my_websocket_net.Prelude.Result.{ok, err}
use my_websocket_net.Nonce.{
  Now, NonceKey, NonceStore, default_config, empty, register, timely, unpaused, admit, purged,
  retain, release, record_key, contains, node_len, timestamp_acceptable, seconds_left, rolled_back,
  purge_expired, mark_storage_lost, duplicate, storage_unavailable, new, nonce_key_eq,
}
use my_websocket_net.Nonce.OnceOnly.{Call, registers, purges, after, run, registered_once}
use my_websocket_net.Nonce.Snapshot.{snapshot, snapshot_of, restore, restore_all, restore_one}
use my_websocket_net.Nonce.Restart.{restored_refuses}
use my_websocket_net.Nonce.Caps.{IsCapped, run-IsCapped}

abbrev hour : ℕ
hour = 2 ^ 63 + 1700000000

abbrev alice : NonceKey
alice = record { hub_id = "hub"; key_id = "k1"; node_id = "alice"; nonce = 7 }

abbrev bob : NonceKey
bob = record { hub_id = "hub"; key_id = "k1"; node_id = "bob"; nonce = 7 }

abbrev at_second : ℕ → Now
at_second n = record { wall_secs = hour + n; monotonic_ms = n * 1000 }

abbrev store : NonceStore
store = empty default_config

abbrev calls : List Call
calls = registers bob (hour + 1) (at_second 1) ∷ purges (at_second 2) ∷ []

accepts_first : (register store alice hour (at_second 0)).0 ≡ ok tt
unfolding register timely unpaused admit purged retain contains node_len timestamp_acceptable lookup
accepts_first = refl

refuses_second :
    (register (run (register store alice hour (at_second 0)).1 calls) alice hour (at_second 3)).0
    ≡ err duplicate
unfolding register timely unpaused admit purged retain contains node_len timestamp_acceptable lookup
    insert record_key run after purge_expired rolled_back seconds_left
refuses_second = refl

-- A wall clock that is set back by the tolerated second makes a purged nonce acceptable again.
accepts_again_after_a_step_back :
    (register
      (register store alice hour (at_second 0)).1
      alice
      hour
      (record { wall_secs = hour + 120; monotonic_ms = 121000 })).0
    ≡ ok tt
unfolding register timely unpaused admit purged retain contains node_len timestamp_acceptable lookup
    insert record_key release remove rolled_back seconds_left
accepts_again_after_a_step_back = refl

pauses_after_a_loss :
    (register (mark_storage_lost store (at_second 0)) alice hour (at_second 3)).0
    ≡ err (storage_unavailable 250000)
unfolding register timely unpaused timestamp_acceptable mark_storage_lost
pauses_after_a_loss = refl

registered_once_example :
    (register (run (register store alice hour (at_second 0)).1 calls) alice hour (at_second 3)).0
    ≢ ok tt
registered_once_example =
    registered_once store alice hour (at_second 0) (at_second 3) calls (omega arith)
      (omega arith, omega arith) (omega arith, omega arith) (omega arith) (omega arith, omega arith)
      ((omega arith, omega arith), ((omega arith, omega arith), tt)) accepts_first

makes_a_store : new default_config ≡ ok store
unfolding new
makes_a_store = refl

run-IsCapped_example : IsCapped (run store calls)
run-IsCapped_example = run-IsCapped default_config store calls makes_a_store

-- The store after the calls, and what is restored from its snapshot an hour of the new monotonic clock
-- later than its start, four seconds after the first registration.
abbrev reloaded : NonceStore
reloaded = record store {
  entries =
      (alice, record { retain_until_ms = 3717000; last_acceptable_wall = hour + 120 })
      ∷ (bob, record { retain_until_ms = 3718000; last_acceptable_wall = hour + 121 })
      ∷ [];
  per_node = (("hub", "alice"), 1) ∷ (("hub", "bob"), 1) ∷ [];
  last_wall_secs = some (hour + 4);
}

abbrev restarted : Now
restarted = record { wall_secs = hour + 4; monotonic_ms = 3600000 }

abbrev resent : Now
resent = record { wall_secs = hour + 9; monotonic_ms = 3605000 }

reloads :
    restore default_config
      (snapshot (run (register store alice hour (at_second 0)).1 calls))
      restarted
    ≡ ok reloaded
unfolding restore new restore_all restore_one seconds_left insert lookup snapshot snapshot_of run
    after register timely unpaused admit purged purge_expired retain record_key contains node_len
    timestamp_acceptable rolled_back
reloads = refl

restored_refuses_example :
    (register (run reloaded (purges resent ∷ [])) alice hour resent).0 ≢ ok tt
restored_refuses_example =
    restored_refuses store alice hour (at_second 0) calls (at_second 3) restarted reloaded
      (purges resent ∷ []) resent tt (omega arith) (omega arith, omega arith)
      (omega arith, omega arith) (omega arith) (omega arith) (omega arith, omega arith)
      (omega arith) (omega arith, omega arith) ((tt, omega arith), ((tt, omega arith), tt))
      ((omega arith, omega arith), tt) accepts_first reloads

-- `restore` keeps no pause: from the snapshot of a store that lost its storage, a store is made that
-- registers at once.
forgets_the_pause :
    restore default_config (snapshot (mark_storage_lost store (at_second 0))) (at_second 3)
    ≡ ok (record store { last_wall_secs = some (hour + 3) })
unfolding restore new restore_all snapshot snapshot_of mark_storage_lost
forgets_the_pause = refl
