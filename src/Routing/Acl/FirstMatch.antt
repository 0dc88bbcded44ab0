-- ===== src/Routing/Acl/FirstMatch.antt =====
-- When an access is allowed, in terms of the rules as written.
use my_websocket_net.Prelude.Text.{Text, same_text_iff}
use my_websocket_net.Prelude.{
  ℕ, ◌≡◌, ◌↔◌, refl, sym, ap, ◌∙◌, Bool, Bool-cases, true, false, ◌&&◌, inl, inr, ◌⊎◌, subst,
  Option, Option-cases, none, some, List, [], ◌∷◌, ◌==◌, ==→eq, arith,
}
use my_websocket_net.Prelude.Result.{ok, Result-cases}
use my_websocket_net.Routing.Destination.{Proto}
use my_websocket_net.Routing.Acl.{
  Networks, AclAction, AclRule, AclQuery, CompiledRule, AclTable, allowed, same_action, same_proto,
  has_port, compile, compile_all, new, name_fits, port_fits, proto_fits, net_fits, matches,
  check_rules, check,
}

-- What a rule states of `a`, if it states anything.
abbrev pub Stated : {A : Type 0} → Option A → (A → Type 0) → Type 0
Stated none P = Unit {0}
Stated (some a) P = P a

abbrev pub IsAmong : ℕ → List ℕ → Type 0
IsAmong port [] = ⊥
IsAmong port (p ∷ ports) = (p ≡ port) ⊎ IsAmong port ports

has_port_iff : (port : ℕ) (ports : List ℕ) → (has_port port ports ≡ true) ↔ IsAmong port ports
unfolding has_port
has_port_iff port [] = (λ h. absurd (ground arith), λ h. absurd h)
has_port_iff port (p ∷ ports) =
    let (to, from) = has_port_iff port ports in
    (
      λ h. elim (Bool-cases (p == port)) [
        | inl same ↦ inl (==→eq p port same)
        | inr other ↦ inr (to (ground (arith, h, other)))
      ],
      λ m. elim m [ inl same ↦ ground (arith, same) | inr later ↦ ground (arith, from later) ],
    )

same_action_iff : (a b : AclAction) → (same_action a b ≡ true) ↔ (a ≡ b)
same_action_iff a b = (λ h. ground arith, λ h. ground arith)

same_proto_iff : (a b : Proto) → (same_proto a b ≡ true) ↔ (a ≡ b)
same_proto_iff a b = (λ h. ground arith, λ h. ground arith)

and_split : (a b : Bool) → (a && b) ≡ true → (a ≡ true) × (b ≡ true)
and_split true b h = (refl, h)
and_split false b h = absurd (ground (arith, h))

module _ (networks : Networks) where
  -- The address lies in the network that is written.
  abbrev pub Lies : Text → Option networks.IpAddr → Type 0
  Lies text asked =
      (net : networks.IpNet) × (ip : networks.IpAddr) × (networks.parse_net text ≡ some net)
      × (asked ≡ some ip)
      × (networks.net_contains net ip ≡ true)

  -- An access meets a rule as it is written: the caller and the action are the rule's, and so is
  -- everything else that the rule states; the address lies in the network that is written.
  pub record Meets (rule : AclRule) (query : AclQuery networks) : Type 0 where
    pub caller : rule.caller ≡ query.caller
    pub action : rule.action ≡ query.action
    pub node : Stated rule.node (λ n. query.node ≡ some n)
    pub service : Stated rule.service (λ s. query.service ≡ some s)
    pub ports : Stated rule.ports (λ ps. (p : ℕ) × (query.port ≡ some p) × IsAmong p ps)
    pub proto : Stated rule.proto (λ p. p ≡ query.proto)
    pub host_cidr : Stated rule.host_cidr (λ text. Lies text query.ip)

  name_fits_iff :
      (rule asked : Option Text)
      → (name_fits networks rule asked ≡ true) ↔ Stated rule (λ n. asked ≡ some n)
  name_fits_iff none asked = (λ h. tt, λ h. refl)
  name_fits_iff (some n) none = (λ h. absurd (ground arith), λ h. absurd (ground (arith, h)))
  name_fits_iff (some n) (some m) =
      (λ h. ap some ((same_text_iff m n).0 h), λ h. (same_text_iff m n).1 (ground (arith, h)))

  port_fits_iff :
      (rule : Option (List ℕ)) (asked : Option ℕ)
      → (port_fits networks rule asked ≡ true)
        ↔ Stated rule (λ ps. (p : ℕ) × (asked ≡ some p) × IsAmong p ps)
  port_fits_iff none asked = (λ h. tt, λ h. refl)
  port_fits_iff (some ps) none =
      (λ h. absurd (ground arith), λ (p, h, m). absurd (ground (arith, h)))
  port_fits_iff (some ps) (some q) = (
    λ h. (q, refl, (has_port_iff q ps).0 h),
    λ (p, h, m).
        let same : q ≡ p = ground (arith, h) in
        ap (λ x. has_port x ps) same ∙ (has_port_iff p ps).1 m,
  )

  proto_fits_iff :
      (rule : Option Proto) (asked : Proto)
      → (proto_fits networks rule asked ≡ true) ↔ Stated rule (λ p. p ≡ asked)
  proto_fits_iff none asked = (λ h. tt, λ h. refl)
  proto_fits_iff (some p) asked = same_proto_iff p asked

  net_fits-Lies :
      (text : Text) (net : networks.IpNet) (asked : Option networks.IpAddr)
      → networks.parse_net text ≡ some net
      → (net_fits networks (some net) asked ≡ true) ↔ Lies text asked
  net_fits-Lies text net none is =
      (λ h. absurd (ground arith), λ (n, ip, p, h, c). absurd (ground (arith, h)))
  net_fits-Lies text net (some ip) is = (
    λ h. (net, ip, is, refl, h),
    λ (n, ip', p, h, c).
        let same_net : net ≡ n = ground (arith, is, p) in
        let same_ip : ip ≡ ip' = ground (arith, h) in
        ap (λ x. networks.net_contains x ip) same_net ∙ ap (networks.net_contains n) same_ip ∙ c,
  )

  net_fits_iff :
      (text : Option Text) (net : Option networks.IpNet) (asked : Option networks.IpAddr)
      → compile networks text ≡ ok net
      → (net_fits networks net asked ≡ true) ↔ Stated text (λ t. Lies t asked)
  net_fits_iff none none asked h = (λ _. tt, λ _. refl)
  net_fits_iff none (some net) asked h = absurd (ground (arith, h))
  net_fits_iff (some text) net asked h = elim (Option-cases (networks.parse_net text)) [
    | inl bad ↦ absurd (ground (arith, bad, h))
    | inr (n, is) ↦
        let same : net ≡ some n = ground (arith, is, h) in
        subst (λ m. (net_fits networks m asked ≡ true) ↔ Lies text asked) (sym same)
          (net_fits-Lies text n asked is)
  ]

  -- The Boolean test of a compiled rule says what the rule states.
  matches_iff :
      (rule : AclRule) (net : Option networks.IpNet) (query : AclQuery networks)
      → compile networks rule.host_cidr ≡ ok net
      → (matches networks (record { rule = rule; net = net }) query ≡ true) ↔ Meets rule query
  unfolding matches
  matches_iff rule net query h =
      let caller = same_text_iff rule.caller query.caller in
      let action = same_action_iff rule.action query.action in
      let node = name_fits_iff rule.node query.node in
      let service = name_fits_iff rule.service query.service in
      let ports = port_fits_iff rule.ports query.port in
      let proto = proto_fits_iff rule.proto query.proto in
      let net_iff = net_fits_iff rule.host_cidr net query.ip h in
      (
        λ m.
            let (m, g) = and_split _ (net_fits networks net query.ip) m in
            let (m, f) = and_split _ (proto_fits networks rule.proto query.proto) m in
            let (m, e) = and_split _ (port_fits networks rule.ports query.port) m in
            let (m, d) = and_split _ (name_fits networks rule.service query.service) m in
            let (m, c) = and_split _ (name_fits networks rule.node query.node) m in
            let (a, b) = and_split _ (same_action rule.action query.action) m in
            record {
              caller = caller.0 a;
              action = action.0 b;
              node = node.0 c;
              service = service.0 d;
              ports = ports.0 e;
              proto = proto.0 f;
              host_cidr = net_iff.0 g;
            },
        λ m. rw (
          caller.1 m.caller,
          action.1 m.action,
          node.1 m.node,
          service.1 m.service,
          ports.1 m.ports,
          proto.1 m.proto,
          net_iff.1 m.host_cidr,
        ),
      )

  -- The first rule that an access meets, and whether it allows.
  pub FirstAllows : List AclRule → AclQuery networks → Type 0
  FirstAllows [] query = ⊥
  FirstAllows (rule ∷ rules) query =
      (Meets rule query × (rule.allow ≡ true)) ⊎ ((Meets rule query → ⊥) × FirstAllows rules query)

  check_rules_iff :
      (rules : List AclRule) (compiled : List (CompiledRule networks)) (query : AclQuery networks)
      → compile_all networks rules ≡ ok compiled
      → (check_rules networks compiled query ≡ allowed) ↔ FirstAllows rules query
  unfolding check_rules compile_all FirstAllows
  check_rules_iff [] compiled query h =
      let none_left : compiled ≡ [] = ground (arith, h) in
      (λ a. absurd (ground (arith, a, none_left)), λ b. absurd b)
  check_rules_iff (rule ∷ rules) compiled query h =
      elim (Result-cases (compile networks rule.host_cidr)) [
        | inr (e, bad) ↦ absurd (ground (arith, bad, h))
        | inl (net, is_net) ↦ elim (Result-cases (compile_all networks rules)) [
          | inr (e, bad) ↦ absurd (ground (arith, is_net, bad, h))
          | inl (later, is_later) ↦
              let first : CompiledRule networks = record { rule = rule; net = net } in
              let whole : compiled ≡ first ∷ later = ground (arith, is_net, is_later, h) in
              let here = matches_iff rule net query is_net in
              let there = check_rules_iff rules later query is_later in
              rw whole (elim (Bool-cases (matches networks first query)) [
                | inl fits ↦ rw fits (
                  λ a. inl (here.0 fits, ground (arith, a)),
                  λ b. elim b [
                    | inl (m, grants) ↦ rw grants refl
                    | inr (never, _) ↦ absurd (never (here.0 fits))
                  ],
                )
                | inr misses ↦ rw misses (
                  λ a. inr (λ m. ground (arith, misses, here.1 m), there.0 a),
                  λ b. elim b [
                    | inl (m, _) ↦ absurd (ground (arith, misses, here.1 m))
                    | inr (_, next) ↦ there.1 next
                  ],
                )
              ])
        ]
      ]

  -- A table that was compiled from rules allows an access exactly when the first rule that the access
  -- meets, read as it is written, is one that allows: with no such rule the access is denied.
  pub allowed_iff :
      (rules : List AclRule) (table : AclTable networks) (query : AclQuery networks)
      → new networks rules ≡ ok table
      → (check networks table query ≡ allowed) ↔ FirstAllows rules query
  unfolding new check
  allowed_iff rules table query h = elim (Result-cases (compile_all networks rules)) [
    | inr (e, bad) ↦ absurd (ground (arith, bad, h))
    | inl (compiled, is) ↦
        let whole : table.rules ≡ compiled = ground (arith, is, h) in
        rw whole (check_rules_iff rules compiled query is)
  ]
