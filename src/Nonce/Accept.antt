-- ===== src/Nonce/Accept.antt =====
-- What a registration that is accepted has checked and leaves behind.
use my_websocket_net.Prelude.{
  ℕ, ◌≤◌, max, ◌≡◌, Bool-cases, inl, inr, Option, none, some, arith, ltb, leb, leb→le,
}
use my_websocket_net.Prelude.Map.{lookup, lookup-insert}
use my_websocket_net.Prelude.Result.{ok}
use my_websocket_net.Nonce.{
  Now, NonceKey, NonceStore, same_key_iff, nonce_key_eq, purged, new_entry, record_key, admit,
  unpaused, timely, register, contains, timestamp_acceptable, distance, rolled_back,
}

-- The key is there with a new record, and the configuration is as before.
pub record Recorded (s : NonceStore) (key : NonceKey) (ts : ℕ) (now : Now) (s' : NonceStore)
    : Type 0 where
  pub same_config : s'.config ≡ s.config
  pub fresh : lookup key s'.entries ≡ some (new_entry s ts now)

module _ (key : NonceKey) (ts : ℕ) (now : Now) where
  admit-Recorded :
      (s : NonceStore)
      → (admit s key ts now).0 ≡ ok tt
      → Recorded s key ts now (admit s key ts now).1
  unfolding admit contains record_key
  admit-Recorded s h = record {
    same_config = ground (arith, h);
    fresh =
        ground
          (arith, h, lookup-insert key key (new_entry s ts now) s.entries, same_key_iff key key);
  }

  unpaused-Recorded :
      (s : NonceStore) (pause : Option ℕ)
      → (unpaused s key ts now pause).0 ≡ ok tt
      → Recorded s key ts now (unpaused s key ts now pause).1
  unfolding unpaused purged
  unpaused-Recorded s none h =
      let r = admit-Recorded (purged s now.monotonic_ms) h in
      record { same_config = r.same_config; fresh = r.fresh }
  unpaused-Recorded s (some q) h = elim (Bool-cases (ltb now.monotonic_ms q)) [
    | inl still ↦ absurd (ground (arith, h, still))
    | inr over ↦
        let r =
          admit-Recorded (purged (record s { paused_until_ms = none }) now.monotonic_ms)
            (ground (arith, h, over)) in
        rw over (record { same_config = r.same_config; fresh = r.fresh })
  ]

  timely-Recorded :
      (s : NonceStore) (last : Option ℕ)
      → (timely s key ts now last).0 ≡ ok tt
      → Recorded s key ts now (timely s key ts now last).1
  unfolding timely
  timely-Recorded s none h =
      let r = unpaused-Recorded (record s { last_wall_secs = some now.wall_secs }) _ h in
      record { same_config = r.same_config; fresh = r.fresh }
  timely-Recorded s (some last) h =
      elim (Bool-cases (rolled_back now.wall_secs last s.config.rollback_tolerance_secs)) [
        | inl back ↦ absurd (ground (arith, h, back))
        | inr on ↦
            let r =
              unpaused-Recorded (record s { last_wall_secs = some (max last now.wall_secs) })
                s.paused_until_ms (ground (arith, h, on)) in
            rw on (record { same_config = r.same_config; fresh = r.fresh })
      ]

  pub register-Recorded :
      (s : NonceStore)
      → (register s key ts now).0 ≡ ok tt
      → (distance ts now.wall_secs ≤ s.config.window_secs)
        × Recorded s key ts now (register s key ts now).1
  unfolding register timestamp_acceptable
  register-Recorded s h = elim (Bool-cases (leb (distance ts now.wall_secs) s.config.window_secs)) [
    | inr outside ↦ absurd (ground (arith, h, outside))
    | inl inside ↦ (
      leb→le _ _ inside,
      rw inside (timely-Recorded s s.last_wall_secs (ground (arith, h, inside))),
    )
  ]

  -- No registration changes the configuration.
  admit-config : (s : NonceStore) → (admit s key ts now).1.config ≡ s.config
  unfolding admit record_key
  admit-config s = ground arith

  unpaused-config :
      (s : NonceStore) (pause : Option ℕ) → (unpaused s key ts now pause).1.config ≡ s.config
  unfolding unpaused purged
  unpaused-config s none = admit-config (purged s now.monotonic_ms)
  unpaused-config s (some q) =
      ground (arith, admit-config (purged (record s { paused_until_ms = none }) now.monotonic_ms))

  timely-config :
      (s : NonceStore) (last : Option ℕ) → (timely s key ts now last).1.config ≡ s.config
  unfolding timely
  timely-config s none =
      unpaused-config (record s { last_wall_secs = some now.wall_secs }) s.paused_until_ms
  timely-config s (some last) = ground (
    arith,
    unpaused-config (record s { last_wall_secs = some (max last now.wall_secs) }) s.paused_until_ms,
  )

  pub register-config : (s : NonceStore) → (register s key ts now).1.config ≡ s.config
  unfolding register
  register-config s = ground (arith, timely-config s s.last_wall_secs)
