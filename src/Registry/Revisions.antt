-- ===== src/Registry/Revisions.antt =====
-- The revisions of services, and of the registry.
use my_websocket_net.Prelude.Text.{Text, same_text, same_text_iff, text_eq}
use my_websocket_net.Prelude.{
  ℕ, ◌+◌, ◌-◌, ◌^◌, min, ◌≡◌, ◌≢◌, ◌⊎◌, ◌↔◌, refl, sym, ap, ◌∙◌, Bool-cases, true, inl, inr, Option,
  Option-cases, none, some, arith,
}
use my_websocket_net.Prelude.Map
use my_websocket_net.Prelude.Map.{Map, lookup-insert}
use my_websocket_net.Prelude.Result.{ok}
use my_websocket_net.Routing.Destination.{Proto, tcp, udp}
use my_websocket_net.Routing.Acl.{same_proto}
use my_websocket_net.Routing.Destination.{is_slug}
use my_websocket_net.Registry.{
  is_some, parse_target, ServiceLease, NodeLease, Registry, is_lease_of, owns, with_node,
  next_revision, one_more, publish, publish_on, lookup, service_of,
}

abbrev published : Registry → Text → ℕ → ℕ → Text → Proto → Text → ℕ → ServiceLease
published r n s e name proto target revision = record {
  hub_id = r.hub_id;
  node_id = n;
  service_name = name;
  proto = proto;
  revision = revision;
  target = target;
  session_id = s;
  epoch = e;
}

-- A lease that was just stored, and a service in it.
lookup-stored :
    (r : Registry) (n name : Text) (lease : NodeLease) (service : ServiceLease)
    → let r' = with_node r n (record lease { services = Map.insert name service lease.services }) in
      (lookup r' n name ≡ some service)
      × ((s e : ℕ) → is_lease_of s e (some lease) ≡ true → owns r' n s e ≡ true)
unfolding lookup owns
lookup-stored r n name lease service =
    let lease' : NodeLease = record lease { services = Map.insert name service lease.services } in
    let stored : Map.lookup n (Map.insert n lease' r.nodes) ≡ some lease' =
      lookup-insert n n lease' r.nodes ∙ rw ((same_text_iff n n).1 refl) refl in
    (
      ap (service_of name) stored
          ∙ lookup-insert name name service lease.services
          ∙ rw ((same_text_iff name name).1 refl) refl,
      λ s e own. ap (is_lease_of s e) stored ∙ own,
    )

-- What an accepted publication stores, with the revision that the code computes.
publish-stores :
    (r : Registry) (n : Text) (s e : ℕ) (name : Text) (proto : Proto) (target : Text) (revision : ℕ)
    → (publish r n s e name proto target).0 ≡ some (ok revision)
    → let r' = (publish r n s e name proto target).1 in
      (lookup r' n name
        ≡ some (record {
          hub_id = r.hub_id;
          node_id = n;
          service_name = name;
          proto = proto;
          revision = revision;
          target = target;
          session_id = s;
          epoch = e;
        }))
      × (revision ≡ next_revision (lookup r n name) target proto)
      × (owns r' n s e ≡ true)
      × (r'.revision ≡ one_more r.revision)
unfolding publish publish_on lookup owns
publish-stores r n s e name proto target revision h = elim (Option-cases (Map.lookup n r.nodes)) [
  | inl gone ↦ absurd (ground (arith, gone, h))
  | inr (lease, found) ↦ elim (Bool-cases (is_lease_of s e (some lease))) [
    | inr stale ↦ absurd (ground (arith, found, stale, h))
    | inl own ↦ elim (Bool-cases (is_slug name)) [
      | inr bad ↦ absurd (ground (arith, found, own, bad, h))
      | inl slug ↦ elim (Bool-cases (is_some (parse_target target))) [
        | inr bad ↦ absurd (ground (arith, found, own, slug, bad, h))
        | inl fine ↦
            let revision' = next_revision (Map.lookup name lease.services) target proto in
            let service = published r n s e name proto target revision' in
            let lease' : NodeLease = record lease {
              services = Map.insert name service lease.services;
            } in
            let whole : publish r n s e name proto target
                ≡ (some (ok revision'), with_node r n lease') =
              rw (found, own, slug, fine) refl in
            let same : revision ≡ revision' = ground (arith, h, whole) in
            let (there, owned) = lookup-stored r n name lease service in
            (
              ap (λ x. lookup x.1 n name) whole
                  ∙ there
                  ∙ ap (λ k. some (published r n s e name proto target k)) (sym same),
              same ∙ ap (λ l. next_revision (service_of name l) target proto) (sym found),
              ap (λ x. owns x.1 n s e) whole ∙ owned s e own,
              ap (λ x. x.1.revision) whole,
            )
      ]
    ]
  ]
]

-- The revision of a publication against the service that was there before.
abbrev pub Revised : Option ServiceLease → Text → Proto → ℕ → Type 0
Revised none target proto revision = revision ≡ 1
Revised (some old) target proto revision =
    ((old.target ≡ target) × (old.proto ≡ proto) × (revision ≡ old.revision))
    ⊎ (((old.target ≢ target) ⊎ (old.proto ≢ proto))
        × (revision ≡ min (old.revision + 1) (2 ^ 64 - 1)))

same_proto_iff : (a b : Proto) → (same_proto a b ≡ true) ↔ (a ≡ b)
same_proto_iff tcp tcp = ground arith
same_proto_iff tcp udp = ground arith
same_proto_iff udp tcp = ground arith
same_proto_iff udp udp = ground arith

next_revision-Revised :
    (before : Option ServiceLease) (target : Text) (proto : Proto)
    → Revised before target proto (next_revision before target proto)
next_revision-Revised none target proto = refl
next_revision-Revised (some old) target proto = elim (Bool-cases (same_text old.target target)) [
  | inr differs ↦ inr (
    inl (λ e. ground (arith, differs, (same_text_iff old.target target).1 e)),
    ground (arith, differs),
  )
  | inl same ↦ elim (Bool-cases (same_proto old.proto proto)) [
    | inr differs ↦ inr (
      inr (λ e. ground (arith, differs, (same_proto_iff old.proto proto).1 e)),
      ground (arith, same, differs),
    )
    | inl same_too ↦ inl (
      (same_text_iff old.target target).0 same,
      (same_proto_iff old.proto proto).0 same_too,
      ground (arith, same, same_too),
    )
  ]
]

-- A publication that is accepted is what a lookup finds: with the target and the protocol, owned by the
-- session, and with the revision that was returned. That is 1 for a new service and the old revision
-- for the same target and protocol; for another target or another protocol it is one more than the old
-- one, up to the largest u64. The registry's own revision is one more as well, up to the same bound.
pub publish-lookup :
    (r : Registry) (n : Text) (s e : ℕ) (name : Text) (proto : Proto) (target : Text) (revision : ℕ)
    → (publish r n s e name proto target).0 ≡ some (ok revision)
    → let r' = (publish r n s e name proto target).1 in
      (lookup r' n name
        ≡ some (record {
          hub_id = r.hub_id;
          node_id = n;
          service_name = name;
          proto = proto;
          revision = revision;
          target = target;
          session_id = s;
          epoch = e;
        }))
      × Revised (lookup r n name) target proto revision
      × (owns r' n s e ≡ true)
      × (r'.revision ≡ min (r.revision + 1) (2 ^ 64 - 1))
publish-lookup r n s e name proto target revision h =
    let (there, revised, owned, counted) = publish-stores r n s e name proto target revision h in
    (there, rw revised (next_revision-Revised (lookup r n name) target proto), owned, counted)

-- `publish` never meets the missing lease that it takes for impossible: it always answers.
pub publish_answers :
    (r : Registry) (n : Text) (s e : ℕ) (name : Text) (proto : Proto) (target : Text)
    → (publish r n s e name proto target).0 ≢ none
unfolding publish publish_on owns
publish_answers r n s e name proto target h = elim (Option-cases (Map.lookup n r.nodes)) [
  | inl gone ↦ ground (arith, gone, h)
  | inr (lease, found) ↦ ground (arith, found, h)
]
