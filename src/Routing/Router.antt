-- ===== src/Routing/Router.antt =====
-- crates/wsnet-routing/src/router.rs: routes and chains. IP addresses and networks are those of the
-- standard library and of the `ipnet` crate.
pub mod Chain
pub mod Patterns
pub mod Decision
mod Tests
use my_websocket_net.Prelude.{
  ℕ, ◌+◌, ◌-◌, ◌≡◌, Bool, true, false, not, ◌&&◌, ◌||◌, Option, none, some, List, [], ◌∷◌, ◌++◌,
  ltb, leb, ◌==◌, if◌then◌else◌, length, drop,
}
use my_websocket_net.Prelude.Text.{Text, text, same_text}
use my_websocket_net.Prelude.Result.{Result, ok, err, ◌>>=◌}
use my_websocket_net.Limits.{max_chain_hops}
use my_websocket_net.Bytes.{ok_or}
use my_websocket_net.Routing.Destination.{Destination, is_slug, is_empty, named_node, host_port}

-- `IpNet`, `IpAddr`, their parsers, and `IpNet::contains`.
pub record Addresses : Type 1 where
  pub IpNet : Type 0
  pub IpAddr : Type 0
  pub parse_net : Text → Option IpNet
  pub parse_ip : Text → Option IpAddr
  pub net_contains : IpNet → IpAddr → Bool

pub data FinalRoute : Type 0 where
  direct server : FinalRoute

pub record RouteRule : Type 0 where
  pub matchers : List Text
  pub via : List Text

pub record Router : Type 0 where
  pub final_route : FinalRoute
  pub rules : List RouteRule

abbrev pub default_router : Router
default_router = record { final_route = server; rules = [] }

pub data RouteError : Type 0 where
  invalid_pattern : Text → RouteError
  too_many_hops : ℕ → ℕ → RouteError
  duplicate_hop self_loop destination_in_path not_a_slug : Text → RouteError

-- `split_once`
unfoldable pub split_once : ℕ → Text → Option (Text × Text)
split_once sep [] = none
split_once sep (b ∷ bytes) = elim (b == sep) [
  | true ↦ some ([], bytes)
  | false ↦ elim (split_once sep bytes) [
    | none ↦ none
    | some (front, back) ↦ some (b ∷ front, back)
  ]
]

-- `strip_prefix`
unfoldable pub strip_prefix : Text → Text → Option Text
strip_prefix [] bytes = some bytes
strip_prefix (p ∷ front) [] = none
strip_prefix (p ∷ front) (b ∷ bytes) =
    let rest = strip_prefix front bytes in if p == b then rest else none

abbrev pub lower : ℕ → ℕ
lower b = if leb b'A' b && leb b b'Z' then b + 32 else b

unfoldable pub to_ascii_lowercase : Text → Text
to_ascii_lowercase [] = []
to_ascii_lowercase (b ∷ bytes) = lower b ∷ to_ascii_lowercase bytes

-- `eq_ignore_ascii_case`
unfoldable pub eq_ignore_ascii_case : Text → Text → Bool
eq_ignore_ascii_case [] [] = true
eq_ignore_ascii_case (x ∷ xs) (y ∷ ys) = lower x == lower y && eq_ignore_ascii_case xs ys
eq_ignore_ascii_case _ _ = false

-- `ends_with`
unfoldable pub ends_with : Text → Text → Bool
ends_with bytes suffix =
    leb (length suffix) (length bytes)
    && same_text (drop (length bytes - length suffix) bytes) suffix

-- The host is the suffix, or ends with a dot and the suffix.
unfoldable pub in_suffix : Text → Text → Bool
in_suffix suffix host =
    let host' = to_ascii_lowercase host in same_text host' suffix || ends_with host' (b'.' ∷ suffix)

module _ (addresses : Addresses) where
  pub data Pattern : Type 0 where
    any : Pattern
    domain domain_suffix : Text → Pattern
    cidr : addresses.IpNet → Pattern
    service : Text → Text → Pattern
    node : Text → Pattern

  parse_domain : Text → Text → Result Pattern RouteError
  parse_domain whole value = elim (strip_prefix (text "*.") value) [
    | some suffix ↦
        if is_empty suffix
        then err (invalid_pattern whole)
        else ok (domain_suffix (to_ascii_lowercase suffix))
    | none ↦
        if is_empty value
        then err (invalid_pattern whole)
        else ok (domain (to_ascii_lowercase value))
  ]

  parse_service : Text → Text → Result Pattern RouteError
  parse_service whole value = elim (split_once b'/' value) [
    | none ↦ err (invalid_pattern whole)
    | some (n, name) ↦
        if not (is_slug n) || not (same_text name (text "*")) && not (is_slug name)
        then err (invalid_pattern whole)
        else ok (service n name)
  ]

  parse_kind : Text → Text → Text → Result Pattern RouteError
  parse_kind whole prefix value =
      if same_text prefix (text "domain")
      then parse_domain whole value
      else if same_text prefix (text "cidr")
      then elim (addresses.parse_net value) [
        | some net ↦ ok (cidr net)
        | none ↦ err (invalid_pattern whole)
      ]
      else if same_text prefix (text "node")
      then (if is_slug value then ok (node value) else err (invalid_pattern whole))
      else if same_text prefix (text "service")
      then parse_service whole value
      else err (invalid_pattern whole)

  unfoldable pub parse : Text → Result Pattern RouteError
  unfolding parse_domain parse_service parse_kind split_once strip_prefix to_ascii_lowercase
  parse whole = if same_text whole (text "*") then ok any else elim (split_once b':' whole) [
    | none ↦ err (invalid_pattern whole)
    | some (prefix, value) ↦ parse_kind whole prefix value
  ]

  -- `destination.host_port().is_some_and(|(host, _)| …)`
  abbrev pub host_is : Destination → (Text → Bool) → Bool
  host_is d test = elim (host_port d) [ none ↦ false | some (host, port) ↦ test host ]

  in_net : addresses.IpNet → Text → Bool
  in_net net host = elim (addresses.parse_ip host) [
    | none ↦ false
    | some ip ↦ addresses.net_contains net ip
  ]

  is_service : Text → Text → Destination → Bool
  is_service want_node want_name (Destination.service n name revision) =
      same_text n want_node && (same_text want_name (text "*") || same_text name want_name)
  is_service want_node want_name _ = false

  unfoldable pub matches : Pattern → Destination → Bool
  unfolding in_suffix in_net is_service host_port
  matches any d = true
  matches (domain expected) d = host_is d (λ host. eq_ignore_ascii_case host expected)
  matches (domain_suffix suffix) d = host_is d (in_suffix suffix)
  matches (cidr net) d = host_is d (in_net net)
  matches (service want_node want_name) d = is_service want_node want_name d
  matches (node want) d = elim (named_node d) [ none ↦ false | some name ↦ same_text name want ]

  pub record RouteDecision : Type 0 where
    pub via : List Text
    pub exit : FinalRoute

  pub record RouterTable : Type 0 where
    pub final_route : FinalRoute
    pub rules : List (List Pattern × RouteRule)

  unfoldable pub parse_all : List Text → Result (List Pattern) RouteError
  parse_all [] = ok []
  parse_all (matcher ∷ matchers) =
      parse matcher >>= λ pattern'. parse_all matchers >>= λ patterns. ok (pattern' ∷ patterns)

  unfoldable pub compile_all : List RouteRule → Result (List (List Pattern × RouteRule)) RouteError
  compile_all [] = ok []
  compile_all (rule ∷ rules) = parse_all rule.matchers >>= λ patterns.
      compile_all rules >>= λ compiled. ok ((patterns, rule) ∷ compiled)

  unfoldable pub new : Router → Result RouterTable RouteError
  new router = compile_all router.rules >>= λ compiled.
      ok (record { final_route = router.final_route; rules = compiled })

  -- `patterns.iter().any(…)`
  unfoldable pub any_matches : List Pattern → Destination → Bool
  any_matches [] d = false
  any_matches (p ∷ patterns) d = matches p d || any_matches patterns d

  unfoldable pub decide_from :
      FinalRoute → List (List Pattern × RouteRule) → Destination → RouteDecision
  decide_from final [] d = record { via = []; exit = final }
  decide_from final ((patterns, rule) ∷ rules) d =
      if any_matches patterns d
      then record { via = rule.via; exit = final }
      else decide_from final rules d

  unfoldable pub decide : RouterTable → Destination → RouteDecision
  decide table d = decide_from table.final_route table.rules d

-- The first hop that is no slug or is the caller.
unfoldable pub check_hops : Text → List Text → Result (Unit {0}) RouteError
check_hops caller [] = ok tt
check_hops caller (hop ∷ via) =
    let rest = check_hops caller via in
    if not (is_slug hop)
    then err (not_a_slug hop)
    else if same_text hop caller
    then err (self_loop hop)
    else rest

-- `seen.contains(hop)`
unfoldable pub contains : List Text → Text → Bool
contains [] hop = false
contains (name ∷ names) hop = same_text name hop || contains names hop

unfoldable pub check_repeats : List Text → List Text → Result (Unit {0}) RouteError
check_repeats seen [] = ok tt
check_repeats seen (hop ∷ via) =
    let rest = check_repeats (seen ++ hop ∷ []) via in
    if contains seen hop then err (duplicate_hop hop) else rest

unfoldable pub check_publisher : List Text → Option Text → Result (Unit {0}) RouteError
check_publisher via none = ok tt
check_publisher via (some publisher) =
    if contains via publisher then err (destination_in_path publisher) else ok tt

unfoldable pub validate_chain : Text → List Text → Destination → Result (Unit {0}) RouteError
validate_chain caller via d =
    if ltb max_chain_hops (length via)
    then err (too_many_hops (length via) max_chain_hops)
    else (check_hops caller via >>= λ _.
        check_repeats (caller ∷ []) via >>= λ _. check_publisher via (named_node d))
