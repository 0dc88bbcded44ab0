-- ===== src/Routing/Router/Chain.antt =====
-- Which chains `validate_chain` accepts.
use my_websocket_net.Prelude.{
  ◌≡◌, ◌≢◌, ◌≤◌, ◌↔◌, refl, sym, true, false, Option, none, some, List, [], ◌∷◌, ◌++◌, arith, ltb,
  length, All, All-append, Bool-cases, tests, inl, inr, ltb→le,
}
use my_websocket_net.Prelude.Text.{Text, same_text, same_text_iff}
use my_websocket_net.Prelude.Result.{ok, ◌>>=◌, >>=-eq-ok}
use my_websocket_net.Limits.{max_chain_hops}
use my_websocket_net.Routing.Destination.{Destination, is_slug, named_node}
use my_websocket_net.Routing.Router.{
  check_hops, contains, check_repeats, check_publisher, validate_chain,
}

-- A name is none of these.
abbrev pub NotIn : Text → List Text → Type 0
NotIn name names = All (λ other. name ≢ other) names

-- No name stands twice.
abbrev pub Distinct : List Text → Type 0
Distinct [] = Unit {0}
Distinct (name ∷ names) = NotIn name names × Distinct names

-- What the node that a destination names must not be.
abbrev pub NotNamed : Option Text → List Text → Type 0
NotNamed none via = Unit {0}
NotNamed (some publisher) via = NotIn publisher via

contains-NotIn : (names : List Text) (hop : Text) → contains names hop ≡ false → NotIn hop names
unfolding contains
contains-NotIn [] hop h = tt
contains-NotIn (name ∷ names) hop h =
    (λ e. ground (arith, same_text_iff name hop, sym e), contains-NotIn names hop (ground arith))

NotIn-contains : (names : List Text) (hop : Text) → NotIn hop names → contains names hop ≡ false
unfolding contains
NotIn-contains [] hop h = refl
NotIn-contains (name ∷ names) hop (other, others) = elim (Bool-cases (same_text name hop)) [
  | inl same ↦ absurd (other (sym ((same_text_iff name hop).0 same)))
  | inr differs ↦ rw differs (NotIn-contains names hop others)
]

contains-or : (names : List Text) (hop : Text) → (contains names hop ≡ false) ↔ NotIn hop names
contains-or names hop = (contains-NotIn names hop, NotIn-contains names hop)

All-append_last {ℓ κ} :
    {A : Type ℓ} (P : A → Type κ) (front : List A) (a : A)
    → All P (front ++ a ∷ [])
    → All P front × P a
All-append_last P [] a h = (tt, h.0)
All-append_last P (b ∷ front) a h =
    let (rest, last) = All-append_last P front a h.1 in ((h.0, rest), last)

-- The hops, one after the other, are none of those that were seen before.
abbrev Fresh : List Text → List Text → Type 0
Fresh seen [] = Unit {0}
Fresh seen (hop ∷ via) = NotIn hop seen × Fresh (seen ++ hop ∷ []) via

check_repeats_iff : (seen via : List Text) → (check_repeats seen via ≡ ok tt) ↔ Fresh seen via
unfolding check_repeats
check_repeats_iff seen [] = (λ _. tt, λ _. refl)
check_repeats_iff seen (hop ∷ via) =
    let ih = check_repeats_iff (seen ++ hop ∷ []) via in
    elim (Bool-cases (contains seen hop)) [
      | inl old ↦ (
        λ h. absurd (ground (arith, h, old)),
        λ h. absurd (cc (NotIn-contains seen hop h.0, old)),
      )
      | inr new ↦ (
        λ h. (contains-NotIn seen hop new, ih.0 (ground (arith, h, new))),
        λ h. rw new (ih.1 h.1),
      )
    ]

split_unseen :
    (seen : List Text) (hop : Text) (via : List Text)
    → All (λ name. NotIn name (seen ++ hop ∷ [])) via
    → All (λ name. NotIn name seen) via × NotIn hop via
split_unseen seen hop [] h = (tt, tt)
split_unseen seen hop (name ∷ via) h =
    let (unseen, others) = split_unseen seen hop via h.1 in
    let (front, last) = All-append_last (λ other. name ≢ other) seen hop h.0 in
    ((front, unseen), (λ e. last (sym e), others))

join_unseen :
    (seen : List Text) (hop : Text) (via : List Text)
    → All (λ name. NotIn name seen) via
    → NotIn hop via
    → All (λ name. NotIn name (seen ++ hop ∷ [])) via
join_unseen seen hop [] unseen others = tt
join_unseen seen hop (name ∷ via) unseen others = (
  All-append (λ other. name ≢ other) seen (hop ∷ []) unseen.0 (λ e. others.0 (sym e), tt),
  join_unseen seen hop via unseen.1 others.1,
)

-- Behind `seen`, hops are fresh if none of them was seen and none of them stands twice.
Fresh-Distinct :
    (seen via : List Text) → Fresh seen via → All (λ hop. NotIn hop seen) via × Distinct via
Fresh-Distinct seen [] h = (tt, tt)
Fresh-Distinct seen (hop ∷ via) (new, others) =
    let (all, distinct) = Fresh-Distinct (seen ++ hop ∷ []) via others in
    let (unseen, alone) = split_unseen seen hop via all in ((new, unseen), (alone, distinct))

Distinct-Fresh :
    (seen via : List Text) → All (λ hop. NotIn hop seen) via → Distinct via → Fresh seen via
Distinct-Fresh seen [] unseen distinct = tt
Distinct-Fresh seen (hop ∷ via) unseen distinct = (
  unseen.0,
  Distinct-Fresh (seen ++ hop ∷ []) via (join_unseen seen hop via unseen.1 distinct.0) distinct.1,
)

-- A hop that may stand in a chain of this caller.
abbrev IsHop : Text → Text → Type 0
IsHop caller hop = (is_slug hop ≡ true) × (same_text hop caller ≡ false)

check_hops_iff :
    (caller : Text) (via : List Text) → (check_hops caller via ≡ ok tt) ↔ All (IsHop caller) via
unfolding check_hops
check_hops_iff caller [] = (λ _. tt, λ _. refl)
check_hops_iff caller (hop ∷ via) =
    let ih = check_hops_iff caller via in
    elim (Bool-cases (is_slug hop)) [
      | inr bad ↦ (λ h. absurd (ground (arith, h, bad)), λ h. absurd (cc bad))
      | inl slug ↦ elim (Bool-cases (same_text hop caller)) [
        | inl loops ↦ (λ h. absurd (ground (arith, h, slug, loops)), λ h. absurd (cc loops))
        | inr other ↦ (
          λ h. ((slug, other), ih.0 (ground (arith, h, slug, other))),
          λ h. rw (slug, other) (ih.1 h.1),
        )
      ]
    ]

check_publisher_iff :
    (via : List Text) (named : Option Text)
    → (check_publisher via named ≡ ok tt) ↔ NotNamed named via
unfolding check_publisher
check_publisher_iff via none = (λ _. tt, λ _. refl)
check_publisher_iff via (some publisher) = elim (Bool-cases (contains via publisher)) [
  | inl there ↦ (
    λ h. absurd (ground (arith, h, there)),
    λ h. absurd (cc (NotIn-contains via publisher h, there)),
  )
  | inr missing ↦ (λ h. contains-NotIn via publisher missing, λ h. rw missing refl)
]

slugs :
    (caller : Text) (via : List Text) → All (IsHop caller) via → All (λ hop. is_slug hop ≡ true) via
slugs caller [] h = tt
slugs caller (hop ∷ via) h = (h.0.0, slugs caller via h.1)

alone :
    (caller : Text) (via : List Text) → All (λ hop. NotIn hop (caller ∷ [])) via → NotIn caller via
alone caller [] h = tt
alone caller (hop ∷ via) h = (λ e. h.0.0 (sym e), alone caller via h.1)

unseen_caller :
    (caller : Text) (via : List Text) → NotIn caller via → All (λ hop. NotIn hop (caller ∷ [])) via
unseen_caller caller [] h = tt
unseen_caller caller (hop ∷ via) h = ((λ e. h.0 (sym e), tt), unseen_caller caller via h.1)

hops :
    (caller : Text) (via : List Text)
    → All (λ hop. is_slug hop ≡ true) via
    → NotIn caller via
    → All (IsHop caller) via
hops caller [] h k = tt
hops caller (hop ∷ via) h k = ((h.0, differs), hops caller via h.1 k.1)
  where
    differs : same_text hop caller ≡ false
    differs = elim (Bool-cases (same_text hop caller)) [
      | inl same ↦ absurd (k.0 (sym ((same_text_iff hop caller).0 same)))
      | inr other ↦ other
    ]

-- A chain is accepted exactly if it has at most four hops, each hop is a slug, the caller and the hops
-- are all different, and the node that the destination names, if it names one, is no hop.
pub validate_chain_iff :
    (caller : Text) (via : List Text) (d : Destination)
    → (validate_chain caller via d ≡ ok tt) ↔ (
        (length via ≤ max_chain_hops)
        × All (λ hop. is_slug hop ≡ true) via
        × Distinct (caller ∷ via)
        × NotNamed (named_node d) via)
unfolding validate_chain
validate_chain_iff caller via d = elim (Bool-cases (ltb max_chain_hops (length via))) [
  | inl long ↦ (λ h. absurd (ground (arith, h, long)), λ h. absurd (omega (tests, long, h.0)))
  | inr short ↦ (
    λ h.
        let (_, a, h') =
          >>=-eq-ok (check_hops caller via)
            (λ _. check_repeats (caller ∷ []) via >>= λ _. check_publisher via (named_node d))
            (rw short at h) in
        let (_, b, c) =
          >>=-eq-ok (check_repeats (caller ∷ []) via) (λ _. check_publisher via (named_node d))
            h' in
        let (all, distinct) =
          Fresh-Distinct (caller ∷ []) via ((check_repeats_iff (caller ∷ []) via).0 b) in
        (
          ltb→le max_chain_hops (length via) short,
          slugs caller via ((check_hops_iff caller via).0 a),
          (alone caller via all, distinct),
          (check_publisher_iff via (named_node d)).0 c,
        ),
    λ h.
        rw
          (
            short,
            (check_hops_iff caller via).1 (hops caller via h.1 h.2.0),
            (check_repeats_iff (caller ∷ []) via).1
                (Distinct-Fresh (caller ∷ []) via (unseen_caller caller via h.2.0) h.2.1),
          )
          ((check_publisher_iff via (named_node d)).1 h.3),
  )
]
