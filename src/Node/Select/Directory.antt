-- ===== src/Node/Select/Directory.antt =====
-- crates/wsnet-node/src/select.rs: `PeerList` snapshots over time.
use my_websocket_net.Prelude.{
  ℕ, ◌≤◌, ◌<◌, ◌≡◌, refl, ◌⊎◌, inr, true, false, Option, none, some, List, [], ◌∷◌, arith,
}
use my_websocket_net.Protocol.Canon.{Canonical}
use my_websocket_net.Node.Select.{ServiceDirectory, unknown, from_peer_list, apply_peer_list}

-- `b` is at least as new as `a`: once there is a revision it never goes away, and never falls.
abbrev pub NotOlder : Option ℕ → Option ℕ → Type 0
NotOlder none b = Unit {0}
NotOlder (some a) none = ⊥
NotOlder (some a) (some b) = a ≤ b

-- A directory that is known and versioned takes a snapshot in exactly when the snapshot has a larger
-- revision; what it then holds is that snapshot alone, and otherwise it stays as it was.
pub apply_newer :
    (d : ServiceDirectory) (value : Canonical) (applied : ℕ)
    → d.known ≡ true
    → d.revision ≡ some applied
    → ((r : ℕ)
        → (from_peer_list value).revision ≡ some r
        → applied < r
        → apply_peer_list d value ≡ (true, from_peer_list value))
      × ((r : ℕ)
          → (from_peer_list value).revision ≡ some r
          → r ≤ applied
          → apply_peer_list d value ≡ (false, d))
      × ((from_peer_list value).revision ≡ none → apply_peer_list d value ≡ (false, d))
unfolding apply_peer_list from_peer_list
apply_newer d value applied k e = (λ r v h. ground arith, λ r v h. ground arith, λ v. ground arith)

unfoldable pub apply_all : ServiceDirectory → List Canonical → ServiceDirectory
apply_all d [] = d
apply_all d (v ∷ vs) = apply_all (apply_peer_list d v).1 vs

NotOlder-trans : (a b c : Option ℕ) → NotOlder a b → NotOlder b c → NotOlder a c
NotOlder-trans none b c h k = tt
NotOlder-trans (some a) none c h k = absurd h
NotOlder-trans (some a) (some b) none h k = absurd k
NotOlder-trans (some a) (some b) (some c) h k = omega arith

-- A revision comes only with a snapshot.
abbrev IsPlain : ServiceDirectory → Type 0
IsPlain d = (d.known ≡ true) ⊎ (d.revision ≡ none)

NotOlder-apply :
    (d : ServiceDirectory) (value : Canonical)
    → IsPlain d
    → NotOlder d.revision (apply_peer_list d value).1.revision × IsPlain (apply_peer_list d value).1
unfolding apply_peer_list from_peer_list
NotOlder-apply d value h = ground arith

apply_all-IsPlain :
    (d : ServiceDirectory) (vs : List Canonical)
    → IsPlain d
    → NotOlder d.revision (apply_all d vs).revision × IsPlain (apply_all d vs)
unfolding apply_all
apply_all-IsPlain d [] h = (same d.revision, h)
  where
    same : (r : Option ℕ) → NotOlder r r
    same none = tt
    same (some r) = omega arith
apply_all-IsPlain d (v ∷ vs) h =
    let (step, plain) = NotOlder-apply d v h in
    let (rest, plain') = apply_all-IsPlain (apply_peer_list d v).1 vs plain in
    (NotOlder-trans d.revision (apply_peer_list d v).1.revision _ step rest, plain')

-- A directory that has seen any snapshots keeps its revision, or takes a larger one, through all
-- snapshots that follow: no retransmitted or unversioned snapshot takes it back.
pub apply_all_never_older :
    (seen later : List Canonical)
    → NotOlder (apply_all unknown seen).revision (apply_all (apply_all unknown seen) later).revision
apply_all_never_older seen later =
    (apply_all-IsPlain (apply_all unknown seen) later
      (apply_all-IsPlain unknown seen (inr refl)).1).0
