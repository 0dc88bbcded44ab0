-- ===== src/Nonce/Caps.antt =====
-- The caps of the store, under any calls.
use my_websocket_net.Prelude.{
  ℕ, ◌+◌, ◌≤◌, ◌<◌, max, ◌≡◌, refl, ap, Bool-cases, inl, inr, Option, Option-cases, none, some,
  List, [], ◌∷◌, arith, ltb, leb, length, leb→lt,
}
use my_websocket_net.Prelude.Map.{
  lookup, lookup-insert, pair_same_iff, pair_eq, string_eq, length-insert_new,
}
use my_websocket_net.Prelude.Result.{ok, Result-cases}
use my_websocket_net.Nonce.{
  Now, NonceKey, NonceStore, NonceStoreConfig, nonce_key_eq, node_of, or_zero, purged,
  purge_expired, new_entry, record_key, admit, unpaused, timely, register, contains, node_len,
  timestamp_acceptable, rolled_back, mark_storage_lost, empty, new, validate,
}
use my_websocket_net.Nonce.OnceOnly.{Call, registers, purges, loses, after, run}
use my_websocket_net.Nonce.Counts.{
  Node, same_node, count, retain-count, retain-fewer, count-insert_new,
}

-- The caps hold, and the counts by node are the numbers of retained records.
pub record IsCapped (s : NonceStore) : Type 0 where
  pub counted : (node : Node) → or_zero (lookup node s.per_node) ≡ count node s.entries
  pub by_node : (node : Node) → count node s.entries ≤ s.config.per_node_max
  pub in_all : length s.entries ≤ s.config.global_max

purged-IsCapped : (s : NonceStore) (mono : ℕ) → IsCapped s → IsCapped (purged s mono)
unfolding purged
purged-IsCapped s mono w = record {
  counted = λ node.
      omega (arith, retain-count mono s.entries s.per_node node 0 (omega (arith, w.counted node)));
  by_node = λ node. omega (arith, w.by_node node, retain-fewer mono s.entries s.per_node node);
  in_all = omega (arith, w.in_all, retain-fewer mono s.entries s.per_node ("", ""));
}

record_key-IsCapped :
    (s : NonceStore) (key : NonceKey) (ts : ℕ) (now : Now)
    → lookup key s.entries ≡ none
    → length s.entries < s.config.global_max
    → or_zero (lookup (node_of key) s.per_node) < s.config.per_node_max
    → IsCapped s
    → IsCapped (record_key s key ts now)
unfolding record_key
record_key-IsCapped s key ts now fresh room node_room w = record {
  counted = λ node. elim (Bool-cases (same_node (node_of key) node)) [
    | inl here ↦ ground (
      arith,
      here,
      lookup-insert (node_of key) node (or_zero (lookup (node_of key) s.per_node) + 1) s.per_node,
      count-insert_new key (new_entry s ts now) s.entries node fresh,
      w.counted node,
      ap (λ n. or_zero (lookup n s.per_node)) ((pair_same_iff (node_of key) node).0 here),
    )
    | inr apart ↦ ground (
      arith,
      apart,
      lookup-insert (node_of key) node (or_zero (lookup (node_of key) s.per_node) + 1) s.per_node,
      count-insert_new key (new_entry s ts now) s.entries node fresh,
      w.counted node,
    )
  ];
  by_node = λ node. elim (Bool-cases (same_node (node_of key) node)) [
    | inl here ↦ ground (
      arith,
      here,
      count-insert_new key (new_entry s ts now) s.entries node fresh,
      w.counted node,
      node_room,
      ap (λ n. or_zero (lookup n s.per_node)) ((pair_same_iff (node_of key) node).0 here),
    )
    | inr apart ↦ ground (
      arith,
      apart,
      count-insert_new key (new_entry s ts now) s.entries node fresh,
      w.by_node node,
    )
  ];
  in_all = omega (arith, length-insert_new key (new_entry s ts now) s.entries fresh, room);
}

admit-IsCapped :
    (s : NonceStore) (key : NonceKey) (ts : ℕ) (now : Now)
    → IsCapped s
    → IsCapped (admit s key ts now).1
unfolding admit contains node_len
admit-IsCapped s key ts now w = elim (Option-cases (lookup key s.entries)) [
  | inr (e, found) ↦ rw found w
  | inl fresh ↦ rw fresh (elim (Bool-cases (leb s.config.global_max (length s.entries))) [
    | inl full ↦ rw full w
    | inr room ↦
        let node_count = or_zero (lookup (node_of key) s.per_node) in
        rw room (elim (Bool-cases (leb s.config.per_node_max node_count)) [
          | inl full ↦ rw full w
          | inr node_room ↦
              rw node_room
                (record_key-IsCapped s key ts now fresh (leb→lt _ _ room) (leb→lt _ _ node_room) w)
        ])
  ])
]

unpaused-IsCapped :
    (s : NonceStore) (key : NonceKey) (ts : ℕ) (now : Now) (pause : Option ℕ)
    → IsCapped s
    → IsCapped (unpaused s key ts now pause).1
unfolding unpaused
unpaused-IsCapped s key ts now none w =
    admit-IsCapped (purged s now.monotonic_ms) key ts now (purged-IsCapped s now.monotonic_ms w)
unpaused-IsCapped s key ts now (some q) w =
    let s' = record s { paused_until_ms = none } in
    let w' : IsCapped s' = record { counted = w.counted; by_node = w.by_node; in_all = w.in_all } in
    elim (Bool-cases (ltb now.monotonic_ms q)) [
      | inl still ↦ rw still w
      | inr over ↦ rw over (
          admit-IsCapped (purged s' now.monotonic_ms) key ts now
            (purged-IsCapped s' now.monotonic_ms w'))
    ]

timely-IsCapped :
    (s : NonceStore) (key : NonceKey) (ts : ℕ) (now : Now) (last : Option ℕ)
    → IsCapped s
    → IsCapped (timely s key ts now last).1
unfolding timely
timely-IsCapped s key ts now none w =
    unpaused-IsCapped (record s { last_wall_secs = some now.wall_secs }) key ts now
      s.paused_until_ms (record { counted = w.counted; by_node = w.by_node; in_all = w.in_all })
timely-IsCapped s key ts now (some last) w =
    let s' = record s { last_wall_secs = some (max last now.wall_secs) } in
    let w' : IsCapped s' = record { counted = w.counted; by_node = w.by_node; in_all = w.in_all } in
    elim (Bool-cases (rolled_back now.wall_secs last s.config.rollback_tolerance_secs)) [
      | inl back ↦ rw back w'
      | inr on ↦ rw on (unpaused-IsCapped s' key ts now s.paused_until_ms w')
    ]

register-IsCapped :
    (s : NonceStore) (key : NonceKey) (ts : ℕ) (now : Now)
    → IsCapped s
    → IsCapped (register s key ts now).1
unfolding register
register-IsCapped s key ts now w = elim (Bool-cases (timestamp_acceptable s ts now.wall_secs)) [
  | inl inside ↦ rw inside (timely-IsCapped s key ts now s.last_wall_secs w)
  | inr outside ↦ rw outside w
]

after-IsCapped : (s : NonceStore) (c : Call) → IsCapped s → IsCapped (after s c)
unfolding after purge_expired mark_storage_lost count lookup
after-IsCapped s (registers key ts now) w = register-IsCapped s key ts now w
after-IsCapped s (purges now) w = purged-IsCapped s now.monotonic_ms w
after-IsCapped s (loses now) w = record {
  counted = λ node. refl;
  by_node = λ node. omega arith;
  in_all = omega arith;
}

run_on-IsCapped : (cs : List Call) (s : NonceStore) → IsCapped s → IsCapped (run s cs)
unfolding run
run_on-IsCapped [] s w = w
run_on-IsCapped (c ∷ cs) s w = run_on-IsCapped cs (after s c) (after-IsCapped s c w)

-- Whatever is called on a store that `new` made, it retains at most its global cap of records, and at
-- most the cap of each node; and the count that it keeps for a node, by which it decides, is the number
-- of that node's retained records. This is not said of a store that `restore` made, which takes over
-- a snapshot without a look at the caps.
pub run-IsCapped :
    (config : NonceStoreConfig) (s : NonceStore) (cs : List Call)
    → new config ≡ ok s
    → IsCapped (run s cs)
unfolding count lookup new
run-IsCapped config s cs made = elim (Result-cases (validate config)) [
  | inr (e, bad) ↦ absurd (ground (arith, bad, made))
  | inl (u, fine) ↦
      let is : empty config ≡ s = ground (arith, fine, made) in
      rw (← is) (
        run_on-IsCapped cs (empty config)
          (record { counted = λ node. refl; by_node = λ node. omega arith; in_all = omega arith }))
]
