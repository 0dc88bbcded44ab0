-- ===== src/Node/Select/Choice.antt =====
-- crates/wsnet-node/src/select.rs: which candidate `select_hub` returns, on every input.
use my_websocket_net.Prelude.{
  ℕ, ◌≡◌, refl, ap, ◌∙◌, ◌⊎◌, inl, inr, Bool, Bool-cases, true, false, Option, none, some, List, [],
  ◌∷◌, ◌++◌, All,
}
use my_websocket_net.Prelude.Text.{Text}
use my_websocket_net.Routing.Destination.{Destination}
use my_websocket_net.Node.Select.{
  Candidate, find, viable, advertises, uninformed, select_hub, or_else,
}

-- The candidate passes the test, and none in front of it does.
pub record IsFirst (test : Candidate → Bool) (c : Candidate) (cs : List Candidate) : Type 0 where
  pub front : List Candidate
  pub back : List Candidate
  pub split : cs ≡ front ++ c ∷ back
  pub passes : test c ≡ true
  pub before : All (λ x. test x ≡ false) front

abbrev pub NonePasses : (Candidate → Bool) → List Candidate → Type 0
NonePasses test cs = All (λ x. test x ≡ false) cs

abbrev pub Finds : (Candidate → Bool) → List Candidate → Option Candidate → Type 0
Finds test cs r =
    ((c : Candidate) × (r ≡ some c) × IsFirst test c cs) ⊎ ((r ≡ none) × NonePasses test cs)

find-Finds : (test : Candidate → Bool) (cs : List Candidate) → Finds test cs (find test cs)
unfolding find
find-Finds test [] = inr (refl, tt)
find-Finds test (c ∷ cs) = elim (Bool-cases (test c)) [
  | inl e ↦ inl (c, rw e, record { front = []; back = cs; split = refl; passes = e; before = tt })
  | inr e ↦ later e (rw e) (find-Finds test cs)
]
  where
    later :
        test c ≡ false
        → find test (c ∷ cs) ≡ find test cs
        → Finds test cs (find test cs)
        → Finds test (c ∷ cs) (find test (c ∷ cs))
    later e skip (inl (d, found, f)) = inl (
      d,
      skip ∙ found,
      record {
        front = c ∷ f.front;
        back = f.back;
        split = ap (◌∷◌ c) f.split;
        passes = f.passes;
        before = (e, f.before);
      },
    )
    later e skip (inr (missing, all)) = inr (skip ∙ missing, (e, all))

-- For a service the result is the first ready and healthy Hub that advertises it; only if there is
-- none, the first ready and healthy Hub that has sent no directory; and nothing only if there is
-- neither. A Hub whose directory lacks the service is never picked.
pub select_service :
    (cs : List Candidate) (node name : Text) (revision : Option ℕ)
    → ((c : Candidate) × (select_hub cs (Destination.service node name revision) ≡ some c)
        × IsFirst (advertises node name) c cs)
      ⊎ (NonePasses (advertises node name) cs
          × Finds uninformed cs (select_hub cs (Destination.service node name revision)))
unfolding select_hub
select_service cs node name revision = go (find-Finds (advertises node name) cs)
  where
    go :
        Finds (advertises node name) cs (find (advertises node name) cs)
        → ((c : Candidate) × (or_else (find (advertises node name) cs) (find uninformed cs)
              ≡ some c)
            × IsFirst (advertises node name) c cs)
          ⊎ (NonePasses (advertises node name) cs
              × Finds uninformed cs (or_else (find (advertises node name) cs) (find uninformed cs)))
    go (inl (c, found, first)) = inl (c, rw found, first)
    go (inr (missing, all)) = inr (all, rw missing (find-Finds uninformed cs))

-- For a plain address, and for one in the view of a node, the result is the first ready and healthy
-- Hub, and nothing only if there is none.
pub select_address :
    (cs : List Candidate) (node host : Text) (port : ℕ)
    → Finds viable cs (select_hub cs (Destination.address host port))
      × Finds viable cs (select_hub cs (Destination.node_address node host port))
unfolding select_hub
select_address cs node host port = (find-Finds viable cs, find-Finds viable cs)
