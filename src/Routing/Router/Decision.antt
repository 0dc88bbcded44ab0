-- ===== src/Routing/Router/Decision.antt =====
-- Which route is decided on, in terms of the rules as written.
use my_websocket_net.Prelude.{
  ◌≡◌, ◌⊎◌, refl, sym, ap, ◌∙◌, subst, true, false, ◌||◌, List, [], ◌∷◌, ◌++◌, arith, All,
  Bool-cases, inl, inr,
}
use my_websocket_net.Prelude.Text.{Text}
use my_websocket_net.Prelude.Result.{Result, ok, ◌>>=◌, >>=-eq-ok}
use my_websocket_net.Routing.Destination.{Destination}
use my_websocket_net.Routing.Router.{
  Addresses, Pattern, RouteRule, Router, RouteError, RouteDecision, RouterTable, parse, matches,
  parse_all, compile_all, new, any_matches, decide_from, decide, FinalRoute,
}

module _ (addresses : Addresses) where
  -- One of the texts is a pattern that matches the destination.
  abbrev pub Selects : List Text → Destination → Type 0
  Selects [] d = ⊥
  Selects (matcher ∷ matchers) d =
      ((p : Pattern addresses) × (parse addresses matcher ≡ ok p) × (matches addresses p d ≡ true))
      ⊎ Selects matchers d

  -- The first rule that selects the destination gives the hops; without one there are none.
  abbrev pub FirstMatch : List RouteRule → Destination → List Text → Type 0
  FirstMatch rules d via =
      ((front : List RouteRule) × (rule : RouteRule) × (back : List RouteRule) × (rules
          ≡ front ++ rule ∷ back)
        × All (λ other. Selects other.matchers d → ⊥) front
        × Selects rule.matchers d
        × (via ≡ rule.via))
      ⊎ (All (λ other. Selects other.matchers d → ⊥) rules × (via ≡ []))

  any_matches_cons :
      (p : Pattern addresses) (ps : List (Pattern addresses)) (d : Destination)
      → (matches addresses p d || any_matches addresses ps d) ≡ any_matches addresses (p ∷ ps) d
  unfolding any_matches
  any_matches_cons p ps d = refl

  ok_injective :
      {p q : Pattern addresses}
      → ◌≡◌ {A = Result (Pattern addresses) RouteError} (ok p) (ok q)
      → p ≡ q
  ok_injective h = cc

  -- What compiling the texts of a rule, or of several rules, has made.
  parsed :
      (matcher : Text) (matchers : List Text) (patterns : List (Pattern addresses))
      → parse_all addresses (matcher ∷ matchers) ≡ ok patterns
      → (p : Pattern addresses) × (ps : List (Pattern addresses)) × (parse addresses matcher ≡ ok p)
        × (parse_all addresses matchers ≡ ok ps)
        × (patterns ≡ p ∷ ps)
  unfolding parse_all
  parsed matcher matchers patterns h =
      let (p, one, h') =
        >>=-eq-ok (parse addresses matcher)
          (λ q. parse_all addresses matchers >>= λ qs. ok (q ∷ qs)) h in
      let (ps, others, same) = >>=-eq-ok (parse_all addresses matchers) (λ qs. ok (p ∷ qs)) h' in
      (p, ps, one, others, cc same)

  no_patterns :
      (patterns : List (Pattern addresses)) → parse_all addresses [] ≡ ok patterns → patterns ≡ []
  unfolding parse_all
  no_patterns patterns h = cc h

  compiled :
      (rule : RouteRule) (rules : List RouteRule)
      (table : List (List (Pattern addresses) × RouteRule))
      → compile_all addresses (rule ∷ rules) ≡ ok table
      → (ps : List (Pattern addresses)) × (others : List (List (Pattern addresses) × RouteRule))
        × (parse_all addresses rule.matchers ≡ ok ps)
        × (compile_all addresses rules ≡ ok others)
        × (table ≡ (ps, rule) ∷ others)
  unfolding compile_all
  compiled rule rules table h =
      let (ps, one, h') =
        >>=-eq-ok (parse_all addresses rule.matchers)
          (λ qs. compile_all addresses rules >>= λ rest. ok ((qs, rule) ∷ rest)) h in
      let (rest, others, same) =
        >>=-eq-ok (compile_all addresses rules) (λ rest. ok ((ps, rule) ∷ rest)) h' in
      (ps, rest, one, others, cc same)

  selects :
      (matchers : List Text) (patterns : List (Pattern addresses)) (d : Destination)
      → parse_all addresses matchers ≡ ok patterns
      → any_matches addresses patterns d ≡ true
      → Selects matchers d
  selects [] patterns d h k = unfold any_matches in cc (no_patterns patterns h, k)
  selects (matcher ∷ matchers) patterns d h k =
      let (p, ps, one, others, same) = parsed matcher matchers patterns h in
      let k' : (matches addresses p d || any_matches addresses ps d) ≡ true =
        any_matches_cons p ps d ∙ (ap (λ qs. any_matches addresses qs d) (sym same) ∙ k) in
      elim (Bool-cases (matches addresses p d)) [
        | inl yes_matches ↦ inl (p, one, yes_matches)
        | inr no_match ↦ inr (selects matchers ps d others (ground (arith, k', no_match)))
      ]

  Selects-not :
      (matchers : List Text) (patterns : List (Pattern addresses)) (d : Destination)
      → parse_all addresses matchers ≡ ok patterns
      → any_matches addresses patterns d ≡ false
      → Selects matchers d
      → ⊥
  Selects-not [] patterns d h k s = s
  Selects-not (matcher ∷ matchers) patterns d h k s =
      let (p, ps, one, others, same) = parsed matcher matchers patterns h in
      let k' : (matches addresses p d || any_matches addresses ps d) ≡ false =
        any_matches_cons p ps d ∙ (ap (λ qs. any_matches addresses qs d) (sym same) ∙ k) in
      elim s [
        | inl (q, this, yes_matches) ↦ absurd (
            ground (
              arith,
              k',
              yes_matches,
              ap (λ x. matches addresses x d) (ok_injective (sym one ∙ this)),
            ))
        | inr later ↦ Selects-not matchers ps d others (ground (arith, k')) later
      ]

  -- A rule that does not select the destination may stand in front.
  FirstMatch-later :
      (rule : RouteRule) (rules : List RouteRule) (d : Destination) (via : List Text)
      → (Selects rule.matchers d → ⊥)
      → FirstMatch rules d via
      → FirstMatch (rule ∷ rules) d via
  FirstMatch-later rule rules d via skips (inl (front, chosen, back, split, before, here, same)) =
      inl (rule ∷ front, chosen, back, ap (◌∷◌ rule) split, (skips, before), here, same)
  FirstMatch-later rule rules d via skips (inr (nowhere, same)) = inr ((skips, nowhere), same)

  abbrev Decided : FinalRoute → List RouteRule → Destination → RouteDecision addresses → Type 0
  Decided final rules d r = FirstMatch rules d r.via × (r.exit ≡ final)

  decide_from-nil :
      (final : FinalRoute) (d : Destination) → Decided final [] d (decide_from addresses final [] d)
  unfolding decide_from
  decide_from-nil final d = (inr (tt, refl), refl)

  decide_from-cons :
      (final : FinalRoute) (rule : RouteRule) (rules : List RouteRule)
      (ps : List (Pattern addresses)) (others : List (List (Pattern addresses) × RouteRule))
      (d : Destination)
      → parse_all addresses rule.matchers ≡ ok ps
      → Decided final rules d (decide_from addresses final others d)
      → Decided final (rule ∷ rules) d (decide_from addresses final ((ps, rule) ∷ others) d)
  unfolding decide_from
  decide_from-cons final rule rules ps others d one ih =
      elim (Bool-cases (any_matches addresses ps d)) [
        | inl here ↦
            rw here
              (inl ([], rule, rules, refl, tt, selects rule.matchers ps d one here, refl), refl)
        | inr elsewhere ↦ rw elsewhere (
          FirstMatch-later rule rules d (decide_from addresses final others d).via
              (Selects-not rule.matchers ps d one elsewhere) ih.0,
          ih.1,
        )
      ]

  decide_from-FirstMatch :
      (final : FinalRoute) (rules : List RouteRule)
      (table : List (List (Pattern addresses) × RouteRule)) (d : Destination)
      → compile_all addresses rules ≡ ok table
      → Decided final rules d (decide_from addresses final table d)
  decide_from-FirstMatch final [] table d h =
      subst (λ t. Decided final [] d (decide_from addresses final t d)) (nothing h)
        (decide_from-nil final d)
    where
      nothing :
          compile_all addresses [] ≡ ok table
          → ◌≡◌ {A = List (List (Pattern addresses) × RouteRule)} [] table
      nothing h = unfold compile_all in cc h
  decide_from-FirstMatch final (rule ∷ rules) table d h =
      let (ps, others, one, rest, same) = compiled rule rules table h in
      subst (λ t. Decided final (rule ∷ rules) d (decide_from addresses final t d)) (sym same)
        (decide_from-cons final rule rules ps others d one
          (decide_from-FirstMatch final rules others d rest))

  -- Once a router has compiled, the decision for a destination has the hops of the first rule that has
  -- a pattern which matches it, and no hops if no rule has one; and its exit is always the final route.
  pub decide-FirstMatch :
      (router : Router) (table : RouterTable addresses) (d : Destination)
      → new addresses router ≡ ok table
      → FirstMatch router.rules d (decide addresses table d).via
        × ((decide addresses table d).exit ≡ router.final_route)
  unfolding new decide
  decide-FirstMatch router table d h =
      let final = router.final_route in
      let (rules, all, same) =
        >>=-eq-ok (compile_all addresses router.rules)
          (λ rs. ok (record { final_route = final; rules = rs })) h in
      let is : ◌≡◌ {A = RouterTable addresses} (record { final_route = final; rules = rules })
          table =
        cc same in
      subst (λ t. Decided final router.rules d (decide_from addresses t.final_route t.rules d)) is
        (decide_from-FirstMatch final router.rules rules d all)
