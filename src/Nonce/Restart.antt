-- ===== src/Nonce/Restart.antt =====
-- crates/wsnet-auth-store/src/nonce.rs: a store that was restored from a snapshot, and the
-- authentications in it.
use my_websocket_net.Prelude.{
  ℕ, ◌+◌, ◌-◌, ◌*◌, ◌≤◌, ◌<◌, ◌≡◌, ◌≢◌, refl, sym, ap, ◌∙◌, Bool-cases, false, inl, inr, none, some,
  List, All, [], ◌∷◌, arith, ◌==◌, ne→==,
}
use my_websocket_net.Prelude.Map.{Map, lookup, Distinct, lookup-insert}
use my_websocket_net.Prelude.Result.{ok, Result-cases}
use my_websocket_net.Limits.{u64_max}
use my_websocket_net.Nonce.{
  Now, NonceKey, NonceStore, NonceStoreConfig, nonce_key_eq, same_key, same_key_iff, new, validate,
  empty, seconds_left, register, new_entry,
}
use my_websocket_net.Nonce.Snapshot.{restored_entry, restore_one, restore_all, restore, snapshot}
use my_websocket_net.Nonce.Accept.{register-Recorded}
use my_websocket_net.Nonce.Replay.{Retained, register-Guarded}
use my_websocket_net.Nonce.OnceOnly.{
  Call, at, run, run-config, run-Guarded, Between, IsOrdinary, KeepsPace, close, new_entry-retain,
}
use my_websocket_net.Nonce.Saved.{
  IsLossless, last_of, lookup-snapshot, snapshot-Distinct, register-Distinct, run-Distinct,
  run-Retained,
}

restore_one-other :
    (s : NonceStore) (now : Now) (k key : NonceKey) (la : ℕ)
    → same_key k key ≡ false
    → lookup key (restore_one s now k la).entries ≡ lookup key s.entries
unfolding restore_one
restore_one-other s now k key la apart =
    ground (arith, apart, lookup-insert k key (restored_entry now la) s.entries)

restore_one-same :
    (s : NonceStore) (now : Now) (key : NonceKey) (la : ℕ)
    → seconds_left la now.wall_secs ≢ 0
    → lookup key (restore_one s now key la).entries ≡ some (restored_entry now la)
unfolding restore_one
restore_one-same s now key la left =
    let more : (seconds_left la now.wall_secs == 0) ≡ false = ne→== _ _ left in
    rw more (
      lookup-insert key key (restored_entry now la) s.entries
      ∙ rw ((same_key_iff key key).1 refl) refl)

restore_all-other :
    (records : Map NonceKey ℕ) (s : NonceStore) (now : Now) (key : NonceKey)
    → lookup key records ≡ none
    → lookup key (restore_all s now records).entries ≡ lookup key s.entries
unfolding restore_all lookup
restore_all-other [] s now key h = refl
restore_all-other ((k, la) ∷ records) s now key h = elim (Bool-cases (same_key k key)) [
  | inl same ↦ absurd (ground (arith, h, same))
  | inr apart ↦
      restore_all-other records (restore_one s now k la) now key (ground (arith, h, apart))
      ∙ restore_one-other s now k key la apart
]

restore_all-there :
    (records : Map NonceKey ℕ) (s : NonceStore) (now : Now) (key : NonceKey) (la : ℕ)
    → Distinct records
    → lookup key records ≡ some la
    → seconds_left la now.wall_secs ≢ 0
    → lookup key (restore_all s now records).entries ≡ some (restored_entry now la)
unfolding restore_all lookup
restore_all-there [] s now key la d h left = absurd (ground (arith, h))
restore_all-there ((k, la') ∷ records) s now key la d h left = elim (Bool-cases (same_key k key)) [
  | inr apart ↦
      restore_all-there records (restore_one s now k la') now key la d.1 (ground (arith, h, apart))
        left
  | inl same ↦
      let is = (same_key_iff k key).0 same in
      let la_is : la' ≡ la = ground (arith, h, same) in
      restore_all-other records (restore_one s now k la') now key
        (ap (λ x. lookup x records) (sym is) ∙ d.0)
      ∙ ap (λ x. lookup key (restore_one s now x la').entries) is
      ∙ ap (λ y. lookup key (restore_one s now key y).entries) la_is
      ∙ restore_one-same s now key la left
]

restore_all-config :
    (records : Map NonceKey ℕ) (s : NonceStore) (now : Now)
    → (restore_all s now records).config ≡ s.config
unfolding restore_all restore_one
restore_all-config [] s now = refl
restore_all-config ((k, la) ∷ records) s now =
    restore_all-config records (restore_one s now k la) now ∙ ground arith

-- How long a restored record is kept.
seconds_left-la :
    (la : ℕ) (now : Now)
    → now.wall_secs ≤ la
    → now.monotonic_ms + (la + 1 - now.wall_secs) * 1000 ≤ u64_max
    → (seconds_left la now.wall_secs ≡ la + 1 - now.wall_secs)
      × ((restored_entry now la).retain_until_ms
          ≡ now.monotonic_ms + (la + 1 - now.wall_secs) * 1000)
unfolding seconds_left
seconds_left-la la now late room = (ground arith, ground arith)

-- A key that the snapshot holds, with a last moment that has not passed, is retained as long as that.
restore-Retained :
    (config : NonceStoreConfig) (records : Map NonceKey ℕ) (s : NonceStore) (key : NonceKey)
    (la : ℕ) (now : Now)
    → restore config records now ≡ ok s
    → Distinct records
    → lookup key records ≡ some la
    → now.wall_secs ≤ la
    → now.monotonic_ms + (la + 1 - now.wall_secs) * 1000 ≤ u64_max
    → Retained key (now.monotonic_ms + (la + 1 - now.wall_secs) * 1000) la s
unfolding restore new
restore-Retained config records s key la now h distinct held late room =
    elim (Result-cases (validate config)) [
      | inr (e, bad) ↦ absurd (ground (arith, bad, h))
      | inl (u, fine) ↦
          let s' = restore_all (empty config) now records in
          let whole : s ≡ record s' { last_wall_secs = some now.wall_secs } =
            ground (arith, fine, h) in
          let (left, kept) = seconds_left-la la now late room in
          (
            restored_entry now la,
            ap (λ x. lookup key x.entries) whole
                ∙ restore_all-there records (empty config) now key la distinct held
                    (λ z. omega (arith, z, left, late)),
            omega (arith, kept),
            refl,
          )
    ]

restore-config :
    (config : NonceStoreConfig) (records : Map NonceKey ℕ) (s : NonceStore) (now : Now)
    → restore config records now ≡ ok s
    → s.config ≡ config
unfolding restore new
restore-config config records s now h = elim (Result-cases (validate config)) [
  | inr (e, bad) ↦ absurd (ground (arith, bad, h))
  | inl (u, fine) ↦
      let s' = restore_all (empty config) now records in
      let whole : s ≡ record s' { last_wall_secs = some now.wall_secs } = ground (arith, fine, h) in
      ap (λ x. x.config) whole ∙ restore_all-config records (empty config) now
]

-- An authentication that was registered once is refused after a restart, too: if the store without
-- repeated keys that registered it is saved as a snapshot, after any calls none of which is a loss of
-- the storage, and a store with the same configuration is restored from that snapshot, then after any
-- calls on the restored store, losses included, the same key with the same timestamp is not registered
-- again. The wall clock must not fall behind the monotonic one by a second or more while either store
-- runs, nor go back over the restart, at which the monotonic clock may begin anew; each call is made
-- while its store runs, and the clocks keep away from the ends of the machine's integers, by twice the
-- window and ten seconds at most.
pub restored_refuses :
    (s : NonceStore) (key : NonceKey) (ts : ℕ) (first : Now) (cs : List Call) (down now : Now)
    (s' : NonceStore) (later : List Call) (again : Now)
    → Distinct s.entries
    → ts ≤ u64_max
    → IsOrdinary s.config first
    → IsOrdinary s.config again
    → first.monotonic_ms + (2 * s.config.window_secs + 10) * 1000 ≤ u64_max
    → now.monotonic_ms + (2 * s.config.window_secs + 10) * 1000 ≤ u64_max
    → KeepsPace first down
    → down.wall_secs ≤ now.wall_secs
    → KeepsPace now again
    → All (λ c. IsLossless c × ((at c).monotonic_ms ≤ down.monotonic_ms)) cs
    → All (Between now again) later
    → (register s key ts first).0 ≡ ok tt
    → restore s.config (snapshot (run (register s key ts first).1 cs)) now ≡ ok s'
    → (register (run s' later) key ts again).0 ≢ ok tt
restored_refuses s key ts first cs down now s' later again distinct fits here there room room' pace
      pause pace' before between accepted reloaded repeated =
    let window = s.config.window_secs in
    let s1 = (register s key ts first).1 in
    let due = first.monotonic_ms + (ts + window + 1 - first.wall_secs) * 1000 in
    let due' = now.monotonic_ms + (ts + window + 1 - now.wall_secs) * 1000 in
    let hold = now.monotonic_ms + (2 * window + 10) * 1000 in
    let (near, recorded) = register-Recorded key ts first s accepted in
    let (late, soon) = close s.config ts first fits here near in
    let same = ap (λ c. c.window_secs) (restore-config s.config _ s' now reloaded) in
    let same_later = ap (λ c. c.window_secs) (run-config later s') in
    let near_later = (register-Recorded key ts again (run s' later) repeated).0 in
    let (late_again, soon_again) =
      close s.config ts again fits there (omega (arith, near_later, same, same_later)) in
    let kept = new_entry-retain s ts first soon late here room in
    let r1 : Retained key due (ts + window) s1 =
      (new_entry s ts first, recorded.fresh, omega (arith, kept), omega arith) in
    let (e, found, _, is) =
      run-Retained key due (ts + window) down.monotonic_ms cs s1 (omega arith) before r1 in
    let held : lookup key (snapshot (run s1 cs)) ≡ some (ts + window) =
      lookup-snapshot key (run s1 cs) ∙ ap last_of found ∙ ap some is in
    let once =
      snapshot-Distinct (run s1 cs)
        (run-Distinct cs s1 (register-Distinct key ts first s distinct)) in
    let r2 : Retained key due' (ts + window) s' =
      restore-Retained s.config _ s' key (ts + window) now reloaded once held (omega arith)
        (omega arith) in
    let early : again.monotonic_ms < due' = omega arith in
    let closed : again.monotonic_ms < hold = omega arith in
    (register-Guarded key due' (ts + window) hold (run s' later) key ts again early closed (
        run-Guarded key due' (ts + window) hold now again later s' early closed
          (omega (arith, same)) room' between (inl r2))).1
      repeated
