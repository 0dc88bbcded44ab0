-- ===== src/Nonce/OnceOnly.antt =====
-- An authentication that was accepted, and the calls that follow it.
use my_websocket_net.Prelude.{
  ℕ, ◌+◌, ◌-◌, ◌*◌, ◌≤◌, ◌<◌, ◌≡◌, ◌≢◌, refl, ap, ◌∙◌, inl, inr, List, [], ◌∷◌, All, arith, ◌^◌,
}
use my_websocket_net.Prelude.Result.{ok}
use my_websocket_net.Limits.{u64_max}
use my_websocket_net.Nonce.{
  Now, NonceKey, NonceStore, NonceStoreConfig, purged, purge_expired, seconds_left, new_entry,
  register, mark_storage_lost, distance,
}
use my_websocket_net.Nonce.Accept.{register-Recorded, register-config}
use my_websocket_net.Nonce.Replay.{Guarded, register-Guarded, purged-Guarded}

-- What can happen to a store.
pub data Call : Type 0 where
  registers : NonceKey → ℕ → Now → Call
  purges : Now → Call
  loses : Now → Call

unfoldable pub after : NonceStore → Call → NonceStore
after s (registers key ts now) = (register s key ts now).1
after s (purges now) = (purge_expired s now).1
after s (loses now) = mark_storage_lost s now

unfoldable pub run : NonceStore → List Call → NonceStore
run s [] = s
run s (c ∷ cs) = run (after s c) cs

abbrev pub at : Call → Now
at (registers key ts now) = now
at (purges now) = now
at (loses now) = now

-- The call reads the monotonic clock between two readings.
abbrev pub Between : Now → Now → Call → Type 0
Between from to c =
    (from.monotonic_ms ≤ (at c).monotonic_ms) × ((at c).monotonic_ms ≤ to.monotonic_ms)

-- A wall clock that is further from both ends of the range than the window is long.
abbrev pub IsOrdinary : NonceStoreConfig → Now → Type 0
IsOrdinary config now =
    (config.window_secs ≤ now.wall_secs) × (now.wall_secs + 2 * config.window_secs < 2 ^ 64 - 1)

-- The wall clock is not slower than the monotonic one, up to a second.
abbrev pub KeepsPace : Now → Now → Type 0
KeepsPace from to =
    (from.wall_secs ≤ to.wall_secs)
    × (to.monotonic_ms < from.monotonic_ms + (to.wall_secs - from.wall_secs + 1) * 1000)

pub close :
    (config : NonceStoreConfig) (ts : ℕ) (now : Now)
    → ts ≤ u64_max
    → IsOrdinary config now
    → distance ts now.wall_secs ≤ config.window_secs
    → (now.wall_secs ≤ ts + config.window_secs) × (ts ≤ now.wall_secs + config.window_secs)
close config ts now fits ordinary h = ground arith

-- How long a new record is kept.
pub new_entry-retain :
    (s : NonceStore) (ts : ℕ) (now : Now)
    → ts ≤ now.wall_secs + s.config.window_secs
    → now.wall_secs ≤ ts + s.config.window_secs
    → IsOrdinary s.config now
    → now.monotonic_ms + (2 * s.config.window_secs + 10) * 1000 ≤ u64_max
    → (new_entry s ts now).retain_until_ms
      ≡ now.monotonic_ms + (ts + s.config.window_secs + 1 - now.wall_secs) * 1000
unfolding seconds_left
new_entry-retain s ts now early late ordinary room = ground arith

after-config : (s : NonceStore) (c : Call) → (after s c).config ≡ s.config
unfolding after purge_expired purged mark_storage_lost
after-config s (registers k ts now) = register-config k ts now s
after-config s (purges now) = refl
after-config s (loses now) = refl

pub run-config : (cs : List Call) (s : NonceStore) → (run s cs).config ≡ s.config
unfolding run
run-config [] s = refl
run-config (c ∷ cs) s = run-config cs (after s c) ∙ after-config s c

-- Calls that come before both times leave the key guarded: a loss does, since it pauses the store.
module _ (key : NonceKey) (due last hold : ℕ) (from to : Now) where
  after-Guarded :
      (s : NonceStore) (c : Call)
      → to.monotonic_ms < due
      → to.monotonic_ms < hold
      → hold ≤ from.monotonic_ms + (2 * s.config.window_secs + 10) * 1000
      → hold ≤ u64_max
      → Between from to c
      → Guarded key due last hold s
      → Guarded key due last hold (after s c)
  unfolding after purge_expired mark_storage_lost
  after-Guarded s (registers k ts now) early held pause room b g =
      (register-Guarded key due last hold s k ts now (omega arith) (omega arith) g).0
  after-Guarded s (purges now) early held pause room b g =
      purged-Guarded key due last hold s now.monotonic_ms (omega arith) g
  after-Guarded s (loses now) early held pause room b g = inr (_, refl, omega arith)

  pub run-Guarded :
      (cs : List Call) (s : NonceStore)
      → to.monotonic_ms < due
      → to.monotonic_ms < hold
      → hold ≤ from.monotonic_ms + (2 * s.config.window_secs + 10) * 1000
      → hold ≤ u64_max
      → All (Between from to) cs
      → Guarded key due last hold s
      → Guarded key due last hold (run s cs)
  unfolding run
  run-Guarded [] s early held pause room b g = g
  run-Guarded (c ∷ cs) s early held pause room b g =
      run-Guarded cs (after s c) early held
        (omega (arith, ap (λ c. c.window_secs) (after-config s c))) room b.1
        (after-Guarded s c early held pause room b.0 g)

-- An authentication that was registered once is refused for good: whatever else is registered,
-- purged or lost in the meantime, the same key with the same timestamp is not registered again, as
-- long as the wall clock does not fall behind the monotonic one by a second or more.
pub registered_once :
    (s : NonceStore) (key : NonceKey) (ts : ℕ) (now again : Now) (cs : List Call)
    → ts ≤ u64_max
    → IsOrdinary s.config now
    → IsOrdinary s.config again
    → now.monotonic_ms + (2 * s.config.window_secs + 10) * 1000 ≤ u64_max
    → KeepsPace now again
    → All (Between now again) cs
    → (register s key ts now).0 ≡ ok tt
    → (register (run (register s key ts now).1 cs) key ts again).0 ≢ ok tt
registered_once s key ts now again cs fits here there room pace between accepted repeated =
    let window = s.config.window_secs in
    let s' = (register s key ts now).1 in
    let due = now.monotonic_ms + (ts + window + 1 - now.wall_secs) * 1000 in
    let last = ts + window in
    let hold = now.monotonic_ms + (2 * window + 10) * 1000 in
    let (near, recorded) = register-Recorded key ts now s accepted in
    let same = ap (λ c. c.window_secs) recorded.same_config in
    let same_later = ap (λ c. c.window_secs) (run-config cs s') in
    let near_later = (register-Recorded key ts again (run s' cs) repeated).0 in
    let (late, soon) = close s.config ts now fits here near in
    let (late_again, soon_again) =
      close s.config ts again fits there (omega (arith, near_later, same, same_later)) in
    let early : again.monotonic_ms < due = omega arith in
    let held : again.monotonic_ms < hold = omega arith in
    let kept = new_entry-retain s ts now soon late here room in
    let g : Guarded key due last hold s' =
      inl (new_entry s ts now, recorded.fresh, omega (arith, kept), omega arith) in
    (register-Guarded key due last hold (run s' cs) key ts again early held (
        run-Guarded key due last hold now again cs s' early held (omega (arith, same)) room between
          g)).1
      repeated

-- After a loss nothing is registered for twice the window and ten seconds, whatever is called.
pub lost_stays_closed :
    (s : NonceStore) (lost again : Now) (cs : List Call) (key : NonceKey) (ts : ℕ)
    → lost.monotonic_ms + (2 * s.config.window_secs + 10) * 1000 ≤ u64_max
    → again.monotonic_ms < lost.monotonic_ms + (2 * s.config.window_secs + 10) * 1000
    → All (Between lost again) cs
    → (register (run (mark_storage_lost s lost) cs) key ts again).0 ≢ ok tt
unfolding mark_storage_lost
lost_stays_closed s lost again cs key ts room soon between =
    let hold = lost.monotonic_ms + (2 * s.config.window_secs + 10) * 1000 in
    let g : Guarded key hold 0 hold (mark_storage_lost s lost) = inr (_, refl, omega arith) in
    (register-Guarded key hold 0 hold (run (mark_storage_lost s lost) cs) key ts again soon soon (
      run-Guarded key hold 0 hold lost again cs (mark_storage_lost s lost) soon soon (omega arith)
        room between g)).1
