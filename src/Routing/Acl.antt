-- ===== src/Routing/Acl.antt =====
-- crates/wsnet-routing/src/acl.rs: the access list and the relay switch. IP addresses and networks are
-- those of the standard library and of the `ipnet` crate.
pub mod FirstMatch
mod Tests
use my_websocket_net.Prelude.Text.{Text, text, same_text}
use my_websocket_net.Prelude.{
  ℕ, Bool, true, false, ◌&&◌, ◌||◌, not, Option, none, some, List, [], ◌∷◌, ◌==◌, if◌then◌else◌,
  length,
}
use my_websocket_net.Prelude.Result.{Result, ok, err, ◌>>=◌}
use my_websocket_net.Routing.Destination.{Proto, tcp, udp}

-- `IpNet`, `IpAddr`, the parser of networks, and `IpNet::contains`.
pub record Networks : Type 1 where
  pub IpNet : Type 0
  pub IpAddr : Type 0
  pub parse_net : Text → Option IpNet
  pub net_contains : IpNet → IpAddr → Bool

pub data AclAction : Type 0 where
  connect_service connect_node_address connect_address relay : AclAction

abbrev pub same_action : AclAction → AclAction → Bool
same_action connect_service connect_service = true
same_action connect_node_address connect_node_address = true
same_action connect_address connect_address = true
same_action relay relay = true
same_action _ _ = false

abbrev pub same_proto : Proto → Proto → Bool
same_proto tcp tcp = true
same_proto udp udp = true
same_proto _ _ = false

-- `TooBroad` is never made.
pub data AclError : Type 0 where
  invalid_cidr : Text → AclError
  too_broad : AclAction → AclError

pub record AclRule : Type 0 where
  pub caller : Text
  pub action : AclAction
  pub allow : Bool
  pub node : Option Text
  pub service : Option Text
  pub host_cidr : Option Text
  pub ports : Option (List ℕ)
  pub proto : Option Proto

pub data AclDecision : Type 0 where
  allowed denied : AclDecision

unfoldable pub is_allowed : AclDecision → Bool
is_allowed allowed = true
is_allowed denied = false

-- `ports.contains(&port)`.
pub has_port : ℕ → List ℕ → Bool
has_port port [] = false
has_port port (p ∷ ports) = p == port || has_port port ports

module _ (networks : Networks) where
  pub record AclQuery : Type 0 where
    pub caller : Text
    pub action : AclAction
    pub node : Option Text
    pub service : Option Text
    pub ip : Option networks.IpAddr
    pub port : Option ℕ
    pub proto : Proto

  pub record CompiledRule : Type 0 where
    pub rule : AclRule
    pub net : Option networks.IpNet

  pub record AclTable : Type 0 where
    pub rules : List CompiledRule

  abbrev pub deny_all : AclTable
  deny_all = record { rules = [] }

  abbrev pub parsed : Text → Option networks.IpNet → Result (Option networks.IpNet) AclError
  parsed text none = err (invalid_cidr text)
  parsed text (some net) = ok (some net)

  abbrev pub compile : Option Text → Result (Option networks.IpNet) AclError
  compile none = ok none
  compile (some text) = parsed text (networks.parse_net text)

  pub compile_all : List AclRule → Result (List CompiledRule) AclError
  compile_all [] = ok []
  compile_all (rule ∷ rules) = do
    net ← compile rule.host_cidr
    compiled ← compile_all rules
    ok (record { rule = rule; net = net } ∷ compiled)

  pub new : List AclRule → Result AclTable AclError
  new rules = do compiled ← compile_all rules; ok (record { rules = compiled })

  -- The five constraints that a rule may state: each is passed over if the rule does not state it.
  abbrev pub name_fits : Option Text → Option Text → Bool
  name_fits none asked = true
  name_fits (some name) none = false
  name_fits (some name) (some asked) = same_text asked name

  abbrev pub port_fits : Option (List ℕ) → Option ℕ → Bool
  port_fits none asked = true
  port_fits (some ports) none = false
  port_fits (some ports) (some port) = has_port port ports

  abbrev pub proto_fits : Option Proto → Proto → Bool
  proto_fits none asked = true
  proto_fits (some proto) asked = same_proto proto asked

  abbrev pub net_fits : Option networks.IpNet → Option networks.IpAddr → Bool
  net_fits none asked = true
  net_fits (some net) none = false
  net_fits (some net) (some ip) = networks.net_contains net ip

  unfoldable pub matches : CompiledRule → AclQuery → Bool
  matches compiled query =
      same_text compiled.rule.caller query.caller
      && same_action compiled.rule.action query.action
      && name_fits compiled.rule.node query.node
      && name_fits compiled.rule.service query.service
      && port_fits compiled.rule.ports query.port
      && proto_fits compiled.rule.proto query.proto
      && net_fits compiled.net query.ip

  unfoldable pub check_rules : List CompiledRule → AclQuery → AclDecision
  check_rules [] query = denied
  check_rules (compiled ∷ rules) query =
      let rest = check_rules rules query in
      if matches compiled query then (if compiled.rule.allow then allowed else denied) else rest

  unfoldable pub check : AclTable → AclQuery → AclDecision
  check table query = check_rules table.rules query

pub record RelayAllow : Type 0 where
  pub allowed_nodes : List Text

pub any_is : Text → List Text → Bool
any_is node [] = false
any_is node (candidate ∷ candidates) = same_text candidate node || any_is node candidates

unfoldable pub relay_is_allowed : RelayAllow → Text → Bool
relay_is_allowed switch node = any_is node switch.allowed_nodes

unfoldable pub relay_is_enabled : RelayAllow → Bool
relay_is_enabled switch = not (length switch.allowed_nodes == 0)
