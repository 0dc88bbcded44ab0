-- ===== src/Registry/Ownership.antt =====
-- Who may change a lease.
use my_websocket_net.Prelude.Text.{Text, same_text, same_text_iff, text_eq}
use my_websocket_net.Prelude.{
  ℕ, ◌≡◌, ◌≢◌, refl, sym, ap, ◌∙◌, Bool-cases, false, inl, inr, ◌⊎◌, Option, none, some, List, [],
  ◌∷◌, All, arith, ◌==◌, ==→eq,
}
use my_websocket_net.Prelude.Map
use my_websocket_net.Prelude.Map.{Map, lookup-insert, lookup-remove}
use my_websocket_net.Prelude.Result.{err}
use my_websocket_net.Routing.Destination.{Proto}
use my_websocket_net.Registry.{
  NodeLease, Registry, owns, with_node, register_ready, unregister, publish, publish_on, withdraw,
  withdraw_on, stale_session,
}

-- The calls of one session on a registry.
pub data Call : Type 0 where
  registers unregisters : Text → ℕ → ℕ → Call
  publishes : Text → ℕ → ℕ → Text → Proto → Text → Call
  withdraws : Text → ℕ → ℕ → Text → Call

unfoldable pub after : Registry → Call → Registry
after r (registers n s e) = (register_ready r n s e).1
after r (unregisters n s e) = (unregister r n s e).1
after r (publishes n s e name proto target) = (publish r n s e name proto target).1
after r (withdraws n s e name) = (withdraw r n s e name).1

unfoldable pub run : Registry → List Call → Registry
run r [] = r
run r (c ∷ cs) = run (after r c) cs

-- The call does not register the node anew, and does not carry the session and the epoch of its lease.
abbrev pub Foreign : Text → ℕ → ℕ → Call → Type 0
Foreign node s e (registers n s' e') = n ≢ node
Foreign node s e (unregisters n s' e') = n ≡ node → s' ≡ s → e' ≡ e → ⊥
Foreign node s e (publishes n s' e' name proto target) = n ≡ node → s' ≡ s → e' ≡ e → ⊥
Foreign node s e (withdraws n s' e' name) = n ≡ node → s' ≡ s → e' ≡ e → ⊥

unregister_stale :
    (r : Registry) (n : Text) (s e : ℕ) → owns r n s e ≡ false → (unregister r n s e).1 ≡ r
unfolding unregister
unregister_stale r n s e h = ground (arith, h)

withdraw_stale :
    (r : Registry) (n : Text) (s e : ℕ) (name : Text)
    → owns r n s e ≡ false
    → withdraw r n s e name ≡ (false, r)
unfolding withdraw
withdraw_stale r n s e name h = rw h refl

-- Credentials that do not own the lease of a node change nothing, whatever they ask for.
pub stale_changes_nothing :
    (r : Registry) (n : Text) (s e : ℕ) (name : Text) (proto : Proto) (target : Text)
    → owns r n s e ≡ false
    → ((unregister r n s e).1 ≡ r)
      × (publish r n s e name proto target ≡ (some (err stale_session), r))
      × (withdraw r n s e name ≡ (false, r))
unfolding publish owns
stale_changes_nothing r n s e name proto target h =
    (unregister_stale r n s e h, rw h refl, withdraw_stale r n s e name h)

not_owned :
    (r : Registry) (n : Text) (s e s' e' : ℕ) (lease : NodeLease)
    → Map.lookup n r.nodes ≡ some lease
    → lease.session_id ≡ s
    → lease.epoch ≡ e
    → (s' ≡ s → e' ≡ e → ⊥)
    → owns r n s' e' ≡ false
unfolding owns
not_owned r n s e s' e' lease found hs he foreign =
    rw found (elim (Bool-cases (lease.session_id == s')) [
      | inr other ↦ rw other refl
      | inl same ↦ elim (Bool-cases (lease.epoch == e')) [
        | inr other ↦ rw (same, other) refl
        | inl too ↦ absurd (foreign (sym (==→eq _ s' same) ∙ hs) (sym (==→eq _ e' too) ∙ he))
      ]
    ])

-- A change of another node's lease.
lookup-with_node :
    (r : Registry) (n node : Text) (lease : NodeLease)
    → same_text n node ≡ false
    → Map.lookup node (with_node r n lease).nodes ≡ Map.lookup node r.nodes
lookup-with_node r n node lease apart = lookup-insert n node lease r.nodes ∙ rw apart refl

unregister_elsewhere :
    (r : Registry) (n node : Text) (s e : ℕ)
    → same_text n node ≡ false
    → Map.lookup node (unregister r n s e).1.nodes ≡ Map.lookup node r.nodes
unfolding unregister
unregister_elsewhere r n node s e apart = ground (arith, apart, lookup-remove n node r.nodes)

publish_elsewhere :
    (r : Registry) (n node : Text) (s e : ℕ) (name : Text) (proto : Proto) (target : Text)
    → same_text n node ≡ false
    → Map.lookup node (publish r n s e name proto target).1.nodes ≡ Map.lookup node r.nodes
unfolding publish publish_on
publish_elsewhere r n node s e name proto target apart = ground (arith, on (Map.lookup n r.nodes))
  where
    on :
        (found : Option NodeLease)
        → Map.lookup node (publish_on r n s e name proto target found).1.nodes
          ≡ Map.lookup node r.nodes
    on none = refl
    on (some lease) = lookup-with_node r n node _ apart

withdraw_elsewhere :
    (r : Registry) (n node : Text) (s e : ℕ) (name : Text)
    → same_text n node ≡ false
    → Map.lookup node (withdraw r n s e name).1.nodes ≡ Map.lookup node r.nodes
unfolding withdraw withdraw_on
withdraw_elsewhere r n node s e name apart = ground (arith, on (Map.lookup n r.nodes))
  where
    on :
        (found : Option NodeLease)
        → Map.lookup node (withdraw_on r n name found).1.nodes ≡ Map.lookup node r.nodes
    on none = refl
    on (some lease) = ground (
      arith,
      lookup-with_node r n node (record lease { services = Map.remove name lease.services }) apart,
    )

module _ (node : Text) (s e : ℕ) where
  -- The lease of the node is there, with its session and epoch.
  abbrev Holds : NodeLease → Registry → Type 0
  Holds lease r =
      (Map.lookup node r.nodes ≡ some lease) × (lease.session_id ≡ s) × (lease.epoch ≡ e)

  -- Either the call is about another node, or its credentials own nothing.
  own_or_other :
      (lease : NodeLease) (r : Registry) (n : Text) (s' e' : ℕ)
      → Holds lease r
      → (n ≡ node → s' ≡ s → e' ≡ e → ⊥)
      → (same_text n node ≡ false) ⊎ (owns r n s' e' ≡ false)
  own_or_other lease r n s' e' (found, hs, he) foreign = elim (Bool-cases (same_text n node)) [
    | inr apart ↦ inl apart
    | inl same ↦
        let is : n ≡ node = (same_text_iff n node).0 same in
        inr (
          not_owned r n s e s' e' lease (ap (λ x. Map.lookup x r.nodes) is ∙ found) hs he
            (foreign is))
  ]

  after-Holds :
      (lease : NodeLease) (r : Registry) (c : Call)
      → Foreign node s e c
      → Holds lease r
      → Holds lease (after r c)
  unfolding after register_ready
  after-Holds lease r (registers n s' e') foreign h = elim (Bool-cases (same_text n node)) [
    | inl same ↦ absurd (foreign ((same_text_iff n node).0 same))
    | inr apart ↦ (lookup-with_node r n node _ apart ∙ h.0, h.1, h.2)
  ]
  after-Holds lease r (unregisters n s' e') foreign h =
      elim (own_or_other lease r n s' e' h foreign) [
        | inl apart ↦ (unregister_elsewhere r n node s' e' apart ∙ h.0, h.1, h.2)
        | inr stale ↦
            (ap (λ x. Map.lookup node x.nodes) (unregister_stale r n s' e' stale) ∙ h.0, h.1, h.2)
      ]
  after-Holds lease r (publishes n s' e' name proto target) foreign h =
      elim (own_or_other lease r n s' e' h foreign) [
        | inl apart ↦ (publish_elsewhere r n node s' e' name proto target apart ∙ h.0, h.1, h.2)
        | inr stale ↦ (
          ap (λ x. Map.lookup node x.1.nodes)
                (stale_changes_nothing r n s' e' name proto target stale).1
              ∙ h.0,
          h.1,
          h.2,
        )
      ]
  after-Holds lease r (withdraws n s' e' name) foreign h =
      elim (own_or_other lease r n s' e' h foreign) [
        | inl apart ↦ (withdraw_elsewhere r n node s' e' name apart ∙ h.0, h.1, h.2)
        | inr stale ↦ (
          ap (λ x. Map.lookup node x.1.nodes) (withdraw_stale r n s' e' name stale) ∙ h.0,
          h.1,
          h.2,
        )
      ]

  run-Holds :
      (lease : NodeLease) (cs : List Call) (r : Registry)
      → All (Foreign node s e) cs
      → Holds lease r
      → Holds lease (run r cs)
  unfolding run
  run-Holds lease [] r foreign h = h
  run-Holds lease (c ∷ cs) r foreign h =
      run-Holds lease cs (after r c) foreign.1 (after-Holds lease r c foreign.0 h)

-- The lease of a session outlives every call of others: whatever is called with another session or
-- epoch, or for other nodes, in any order, the node keeps the lease with all that it publishes; until
-- the node registers anew.
pub lease_survives :
    (r : Registry) (node : Text) (s e : ℕ) (lease : NodeLease) (cs : List Call)
    → Map.lookup node r.nodes ≡ some lease
    → lease.session_id ≡ s
    → lease.epoch ≡ e
    → All (Foreign node s e) cs
    → Map.lookup node (run r cs).nodes ≡ some lease
lease_survives r node s e lease cs found hs he foreign =
    (run-Holds node s e lease cs r foreign (found, hs, he)).0
