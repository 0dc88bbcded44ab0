-- ===== src/Nonce/Saved.antt =====
-- What a snapshot holds: the keys of the store, each once.
use my_websocket_net.Prelude.{
  ℕ, ◌≤◌, ◌<◌, max, ◌≡◌, refl, ap, ◌∙◌, Bool-cases, inl, inr, Option, Option-cases, none, some,
  List, [], ◌∷◌, All, arith, leb, ◌+◌,
}
use Prim.Native.String.{String}
use my_websocket_net.Prelude.Map.{Map, lookup, Distinct, insert-Distinct, string_eq, pair_eq}
use my_websocket_net.Nonce.{
  Now, NonceKey, Entry, NonceStore, nonce_key_eq, retain, release, node_of, purged, new_entry,
  record_key, admit, unpaused, timely, register, purge_expired, mark_storage_lost,
}
use my_websocket_net.Nonce.Snapshot.{snapshot_of, snapshot}
use my_websocket_net.Nonce.Replay.{Retained, Guarded, register-Guarded, purged-Guarded}
use my_websocket_net.Nonce.OnceOnly.{Call, registers, purges, loses, at, after, run}

-- The last moment that a snapshot holds for an entry.
abbrev pub last_of : Option Entry → Option ℕ
last_of none = none
last_of (some e) = some e.last_acceptable_wall

lookup-snapshot_of :
    (key : NonceKey) (entries : Map NonceKey Entry)
    → lookup key (snapshot_of entries) ≡ last_of (lookup key entries)
unfolding lookup snapshot_of
lookup-snapshot_of key [] = refl
lookup-snapshot_of key ((k, e) ∷ entries) = ground (arith, lookup-snapshot_of key entries)

snapshot_of-Distinct :
    (entries : Map NonceKey Entry) → Distinct entries → Distinct (snapshot_of entries)
unfolding snapshot_of
snapshot_of-Distinct [] d = tt
snapshot_of-Distinct ((k, e) ∷ entries) (fresh, d) =
    (lookup-snapshot_of k entries ∙ ap last_of fresh, snapshot_of-Distinct entries d)

pub lookup-snapshot :
    (key : NonceKey) (s : NonceStore) → lookup key (snapshot s) ≡ last_of (lookup key s.entries)
unfolding snapshot
lookup-snapshot key s = lookup-snapshot_of key s.entries

pub snapshot-Distinct : (s : NonceStore) → Distinct s.entries → Distinct (snapshot s)
unfolding snapshot
snapshot-Distinct s d = snapshot_of-Distinct s.entries d

lookup-retain-none :
    (mono : ℕ) (key : NonceKey) (entries : Map NonceKey Entry) (per_node : Map (String × String) ℕ)
    → lookup key entries ≡ none
    → lookup key (retain mono entries per_node).0 ≡ none
unfolding retain lookup
lookup-retain-none mono key [] per_node h = refl
lookup-retain-none mono key ((k, e) ∷ entries) per_node h = ground (
  arith,
  lookup-retain-none mono key entries per_node,
  lookup-retain-none mono key entries (release (node_of k) per_node),
)

retain-Distinct :
    (mono : ℕ) (entries : Map NonceKey Entry) (per_node : Map (String × String) ℕ)
    → Distinct entries
    → Distinct (retain mono entries per_node).0
unfolding retain
retain-Distinct mono [] per_node d = tt
retain-Distinct mono ((k, e) ∷ entries) per_node (fresh, d) =
    elim (Bool-cases (leb e.retain_until_ms mono)) [
      | inl due ↦ rw due (retain-Distinct mono entries (release (node_of k) per_node) d)
      | inr kept ↦ rw kept (
        lookup-retain-none mono k entries per_node fresh,
        retain-Distinct mono entries per_node d,
      )
    ]

module _ (key : NonceKey) (ts : ℕ) (now : Now) where
  admit-Distinct : (s : NonceStore) → Distinct s.entries → Distinct (admit s key ts now).1.entries
  unfolding admit record_key
  admit-Distinct s d = ground (arith, d, insert-Distinct key (new_entry s ts now) s.entries d)

  admit-purged-Distinct :
      (s : NonceStore)
      → Distinct s.entries
      → Distinct (admit (purged s now.monotonic_ms) key ts now).1.entries
  unfolding purged
  admit-purged-Distinct s d =
      admit-Distinct (purged s now.monotonic_ms)
        (retain-Distinct now.monotonic_ms s.entries s.per_node d)

  unpaused-Distinct :
      (s : NonceStore) (pause : Option ℕ)
      → Distinct s.entries
      → Distinct (unpaused s key ts now pause).1.entries
  unfolding unpaused
  unpaused-Distinct s none d = admit-purged-Distinct s d
  unpaused-Distinct s (some q) d =
      ground (arith, d, admit-purged-Distinct (record s { paused_until_ms = none }) d)

  timely-Distinct :
      (s : NonceStore) (seen : Option ℕ)
      → Distinct s.entries
      → Distinct (timely s key ts now seen).1.entries
  unfolding timely
  timely-Distinct s none d =
      unpaused-Distinct (record s { last_wall_secs = some now.wall_secs }) s.paused_until_ms d
  timely-Distinct s (some before) d = ground (
    arith,
    d,
    unpaused-Distinct (record s { last_wall_secs = some (max before now.wall_secs) })
        s.paused_until_ms d,
  )

  pub register-Distinct :
      (s : NonceStore) → Distinct s.entries → Distinct (register s key ts now).1.entries
  unfolding register
  register-Distinct s d = ground (arith, d, timely-Distinct s s.last_wall_secs d)

after-Distinct : (s : NonceStore) (c : Call) → Distinct s.entries → Distinct (after s c).entries
unfolding after purge_expired purged mark_storage_lost
after-Distinct s (registers key ts now) d = register-Distinct key ts now s d
after-Distinct s (purges now) d = retain-Distinct now.monotonic_ms s.entries s.per_node d
after-Distinct s (loses now) d = tt

pub run-Distinct :
    (cs : List Call) (s : NonceStore) → Distinct s.entries → Distinct (run s cs).entries
unfolding run
run-Distinct [] s d = d
run-Distinct (c ∷ cs) s d = run-Distinct cs (after s c) (after-Distinct s c d)

-- The calls that do not lose the storage.
abbrev pub IsLossless : Call → Type 0
IsLossless (registers key ts now) = Unit {0}
IsLossless (purges now) = Unit {0}
IsLossless (loses now) = ⊥

module _ (key : NonceKey) (due last : ℕ) where
  run_lossless-Guarded :
      (hold end : ℕ) (cs : List Call) (s : NonceStore)
      → end < due
      → end < hold
      → All (λ c. IsLossless c × ((at c).monotonic_ms ≤ end)) cs
      → Guarded key due last hold s
      → Guarded key due last hold (run s cs)
  unfolding run after purge_expired
  run_lossless-Guarded hold end [] s early held all g = g
  run_lossless-Guarded hold end (loses now ∷ cs) s early held all g = absurd all.0.0
  run_lossless-Guarded hold end (registers k ts now ∷ cs) s early held (this, all) g =
      run_lossless-Guarded hold end cs (register s k ts now).1 early held all
        (register-Guarded key due last hold s k ts now (omega arith) (omega arith) g).0
  run_lossless-Guarded hold end (purges now ∷ cs) s early held (this, all) g =
      run_lossless-Guarded hold end cs (purged s now.monotonic_ms) early held all
        (purged-Guarded key due last hold s now.monotonic_ms (omega arith) g)

  -- A key that is retained stays so until it is due: a `hold` that lies behind every pause leaves nothing
  -- else.
  pub run-Retained :
      (end : ℕ) (cs : List Call) (s : NonceStore)
      → end < due
      → All (λ c. IsLossless c × ((at c).monotonic_ms ≤ end)) cs
      → Retained key due last s
      → Retained key due last (run s cs)
  run-Retained end cs s early all r = elim (Option-cases (run s cs).paused_until_ms) [
    | inl never ↦
        only (end + 1) (λ p is. ground (arith, never, is))
          (run_lossless-Guarded (end + 1) end cs s early (omega arith) all (inl r))
    | inr (q, is) ↦
        only (end + q + 1) (λ p there. ground (arith, is, there))
          (run_lossless-Guarded (end + q + 1) end cs s early (omega arith) all (inl r))
  ]
    where
      only :
          (hold : ℕ)
          → ((p : ℕ) → (run s cs).paused_until_ms ≡ some p → p < hold)
          → Guarded key due last hold (run s cs)
          → Retained key due last (run s cs)
      only hold before (inl r) = r
      only hold before (inr (p, is, late)) = let soon = before p is in absurd (omega arith)
