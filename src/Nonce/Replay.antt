-- ===== src/Nonce/Replay.antt =====
-- A nonce that was accepted once, and what comes after it.
use my_websocket_net.Prelude.{
  ℕ, ◌≤◌, ◌<◌, max, ◌≡◌, ◌≢◌, refl, true, Bool-cases, inl, inr, ◌⊎◌, Option, none, some, [], ◌∷◌,
  arith, ltb, leb,
}
use Prim.Native.String.{String}
use my_websocket_net.Prelude.Map.{Map, lookup, lookup-insert}
use my_websocket_net.Prelude.Result.{ok}
use my_websocket_net.Nonce.{
  Now, NonceKey, Entry, NonceStore, same_key, same_key_iff, nonce_key_eq, retain, release, node_of,
  purged, new_entry, record_key, admit, unpaused, timely, register, contains, timestamp_acceptable,
  distance, rolled_back,
}

-- A record that is not due survives a purge.
lookup-retain :
    (mono : ℕ) (key : NonceKey) (e : Entry) (entries : Map NonceKey Entry)
    (per_node : Map (String × String) ℕ)
    → lookup key entries ≡ some e
    → mono < e.retain_until_ms
    → lookup key (retain mono entries per_node).0 ≡ some e
unfolding retain lookup
lookup-retain mono key e [] per_node found late = absurd (ground arith)
lookup-retain mono key e ((k, v) ∷ entries) per_node found late = ground (
  arith,
  lookup-retain mono key e entries per_node,
  lookup-retain mono key e entries (release (node_of k) per_node),
)

-- The key cannot be registered before `due` on the monotonic clock, and `hold`: it is retained, with the
-- last moment at which its timestamp is acceptable, or the store is paused.
abbrev pub Retained : NonceKey → ℕ → ℕ → NonceStore → Type 0
Retained key due last s =
    (e : Entry) × (lookup key s.entries ≡ some e)
    × (due ≤ e.retain_until_ms)
    × (e.last_acceptable_wall ≡ last)

abbrev Paused : ℕ → NonceStore → Type 0
Paused hold s = (p : ℕ) × (s.paused_until_ms ≡ some p) × (hold ≤ p)

module _ (key : NonceKey) (due last : ℕ) where
  purged-Retained :
      (s : NonceStore) (mono : ℕ)
      → mono < due
      → Retained key due last s
      → Retained key due last (purged s mono)
  unfolding purged
  purged-Retained s mono early (e, found, late, is) =
      (e, lookup-retain mono key e s.entries s.per_node found (omega arith), late, is)

  admit-Retained :
      (s : NonceStore) (k : NonceKey) (ts : ℕ) (now : Now)
      → Retained key due last s
      → Retained key due last (admit s k ts now).1
  unfolding admit contains record_key
  admit-Retained s k ts now (e, found, late, is) = elim (Bool-cases (same_key k key)) [
    | inl here ↦ (e, rw ((same_key_iff k key).0 here) (ground (arith, found)), late, is)
    | inr other ↦
        (e, ground (arith, found, lookup-insert k key (new_entry s ts now) s.entries), late, is)
  ]

  admit_refused :
      (s : NonceStore) (ts : ℕ) (now : Now)
      → Retained key due last s
      → (admit s key ts now).0 ≢ ok tt
  unfolding admit contains
  admit_refused s ts now (e, found, late, is) h = absurd (ground (arith, found))

  module _ (hold : ℕ) where
    abbrev pub Guarded : NonceStore → Type 0
    Guarded s = Retained key due last s ⊎ Paused hold s

    unpaused-Guarded :
        (s : NonceStore) (k : NonceKey) (ts : ℕ) (now : Now) (pause : Option ℕ)
        → s.paused_until_ms ≡ pause
        → now.monotonic_ms < due
        → now.monotonic_ms < hold
        → Guarded s
        → Guarded (unpaused s k ts now pause).1 × ((unpaused s key ts now pause).0 ≢ ok tt)
    unfolding unpaused
    unpaused-Guarded s k ts now none p early held (inr (q, is, _)) = absurd (ground (arith, p, is))
    unpaused-Guarded s k ts now none p early held (inl r) =
        let r' = purged-Retained s now.monotonic_ms early r in
        (inl (admit-Retained (purged s now.monotonic_ms) k ts now r'), admit_refused _ ts now r')
    unpaused-Guarded s k ts now (some q) p early held (inr (q', is, late)) =
        let still : ltb now.monotonic_ms q ≡ true = ground (arith, p, is, late, held) in
        rw still (inr (q', is, late), λ e. ground arith)
    unpaused-Guarded s k ts now (some q) p early held (inl r) =
        let s' = record s { paused_until_ms = none } in
        let r' = purged-Retained s' now.monotonic_ms early r in
        elim (Bool-cases (ltb now.monotonic_ms q)) [
          | inl still ↦ rw still (inl r, λ e. ground arith)
          | inr over ↦ rw over (
            inl (admit-Retained (purged s' now.monotonic_ms) k ts now r'),
            admit_refused (purged s' now.monotonic_ms) ts now r',
          )
        ]

    timely-Guarded :
        (s : NonceStore) (k : NonceKey) (ts : ℕ) (now : Now) (seen : Option ℕ)
        → now.monotonic_ms < due
        → now.monotonic_ms < hold
        → Guarded s
        → Guarded (timely s k ts now seen).1 × ((timely s key ts now seen).0 ≢ ok tt)
    unfolding timely
    timely-Guarded s k ts now none early held g =
        unpaused-Guarded (record s { last_wall_secs = some now.wall_secs }) k ts now _ refl early
          held g
    timely-Guarded s k ts now (some at) early held g =
        elim (Bool-cases (rolled_back now.wall_secs at s.config.rollback_tolerance_secs)) [
          | inl back ↦ rw back (g, λ e. ground arith)
          | inr on ↦ rw on (
              unpaused-Guarded (record s { last_wall_secs = some (max at now.wall_secs) }) k ts now
                _ refl early held g)
        ]

    -- Before both times nothing lets the key in, and every registration leaves it guarded.
    pub register-Guarded :
        (s : NonceStore) (k : NonceKey) (ts : ℕ) (now : Now)
        → now.monotonic_ms < due
        → now.monotonic_ms < hold
        → Guarded s
        → Guarded (register s k ts now).1 × ((register s key ts now).0 ≢ ok tt)
    unfolding register timestamp_acceptable
    register-Guarded s k ts now early held g =
        let t = timely-Guarded s k ts now s.last_wall_secs early held g in
        elim (Bool-cases (leb (distance ts now.wall_secs) s.config.window_secs)) [
          | inr outside ↦ rw outside (g, λ e. ground arith)
          | inl inside ↦ rw inside t
        ]

    pub purged-Guarded :
        (s : NonceStore) (mono : ℕ) → mono < due → Guarded s → Guarded (purged s mono)
    unfolding purged
    purged-Guarded s mono early (inl r) = inl (purged-Retained s mono early r)
    purged-Guarded s mono early (inr p) = inr p
