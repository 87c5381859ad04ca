-- ===== src/Proxy/Ports.antt =====
-- The ports of a service import: service_import.go, from BaseServicePortInfo to
-- serviceImportToServiceMap, and ServicePortName of types.go.
use fleetboard.Prelude.{
  subst, ltb→le, refl, ap, Bool-cases, inl, inr, ◌≤◌, ℕ, zero, suc, ◌+◌, ◌/◌, ◌%◌, ltb, ◌==◌, ◌≡◌,
  ◌↔◌, Bool, true, false, not, ◌&&◌, ◌||◌, List, [], ◌∷◌, ◌++◌, Option, none, some, if◌then◌else◌,
  is_nil, arith,
}
use fleetboard.Prelude.Text.{Text, text_eq, text_eq_iff}
use fleetboard.Prelude.Keyed.{Equal, Keyed, put}

-- types.NamespacedName
pub record NamespacedName : Type 0 where
  pub namespace : Text
  pub name : Text

-- ServicePortName
pub record ServicePortName : Type 0 where
  pub service : NamespacedName
  pub port : Text
  pub protocol : Text

abbrev pub same_service : NamespacedName → NamespacedName → Bool
same_service a b = text_eq a.namespace b.namespace && text_eq a.name b.name

abbrev pub same_port : ServicePortName → ServicePortName → Bool
same_port a b =
    same_service a.service b.service && (text_eq a.port b.port && text_eq a.protocol b.protocol)

pub same_service_iff : (a b : NamespacedName) → (same_service a b ≡ true) ↔ (a ≡ b)
same_service_iff a b =
    ground (arith, text_eq_iff a.namespace b.namespace, text_eq_iff a.name b.name)

pub same_port_iff : (a b : ServicePortName) → (same_port a b ≡ true) ↔ (a ≡ b)
same_port_iff a b = ground (
  arith,
  same_service_iff a.service b.service,
  text_eq_iff a.port b.port,
  text_eq_iff a.protocol b.protocol,
)

instance unfoldable pub service_equal : Equal NamespacedName
service_equal = record { same = same_service; same_iff = same_service_iff }

instance unfoldable pub port_equal : Equal ServicePortName
port_equal = record { same = same_port; same_iff = same_port_iff }

-- v1alpha1.ServicePort: name, protocol and number.
pub record ImportPort : Type 0 where
  pub name : Text
  pub protocol : Text
  pub port : ℕ

-- v1.ServicePort
pub record ServicePort : Type 0 where
  pub name : Text
  pub protocol : Text
  pub port : ℕ
  pub node_port : ℕ

-- v1alpha1.ServiceImport, as the proxy reads it.
pub record ServiceImport : Type 0 where
  pub name : Text
  pub namespace : Text
  pub ips : List Text
  pub ports : List ImportPort

-- BaseServicePortInfo. Addresses are numbers, as for networks; of the load balancer's status only the
-- addresses of its ingress points are kept.
pub record BaseServicePortInfo : Type 0 where
  pub cluster_ip : Option ℕ
  pub port : ℕ
  pub protocol : Text
  pub node_port : ℕ
  pub load_balancer_ips : List Text
  pub session_affinity : Text
  pub sticky_max_age : ℕ
  pub external_ips : List Text
  pub load_balancer_source_ranges : List Text
  pub health_check_node_port : ℕ
  pub external_policy_local : Bool
  pub internal_policy_local : Bool
  pub internal_traffic_policy : Option Text
  pub hints_annotation : Text

-- ExternallyAccessible
abbrev pub externally_accessible : BaseServicePortInfo → Bool
externally_accessible p =
    not (p.node_port == 0) || (not (is_nil p.load_balancer_ips) || not (is_nil p.external_ips))

-- UsesClusterEndpoints
unfoldable pub uses_cluster_endpoints : BaseServicePortInfo → Bool
uses_cluster_endpoints p = not p.internal_policy_local || externally_accessible p

-- UsesLocalEndpoints
unfoldable pub uses_local_endpoints : BaseServicePortInfo → Bool
uses_local_endpoints p =
    p.internal_policy_local || p.external_policy_local && externally_accessible p

-- The decimal digits of a number, at most `fuel` and one.
unfoldable pub decimal : ℕ → ℕ → Text
decimal zero n = (b'0' + n % 10) ∷ []
decimal (suc fuel) n =
    let front = decimal fuel (n / 10) in
    if ltb n 10 then (b'0' + n) ∷ [] else front ++ (b'0' + n % 10) ∷ []

-- strconv.Itoa: a number has no more digits than its value.
abbrev pub itoa : ℕ → Text
itoa n = decimal n n

none_left : (n : ℕ) → n ≤ 0 → 0 ≡ n
none_left n h = omega arith

shorter : (fuel n : ℕ) → n ≤ suc fuel → 10 ≤ n → n / 10 ≤ fuel
shorter fuel n h le = omega arith

-- More rounds than the number's value change nothing.
decimal_enough : (fuel n : ℕ) → n ≤ fuel → decimal (suc fuel) n ≡ decimal fuel n
unfolding decimal
decimal_enough zero n h = subst (λ x. decimal 1 x ≡ decimal 0 x) (none_left n h) refl
decimal_enough (suc fuel) n h = elim (Bool-cases (ltb n 10)) [
  | inl e ↦ rw e refl
  | inr e ↦ rw e (
      ap (λ front. front ++ (b'0' + n % 10) ∷ [])
        (decimal_enough fuel (n / 10) (shorter fuel n h (ltb→le n 10 e))))
]

-- svcImportPortToV1Port
unfoldable pub service_port : ImportPort → ServicePort
service_port p = record { name = p.name; protocol = p.protocol; port = p.port; node_port = 0 }

-- How an address is parsed (ParseIPSloppy), and what the proxier makes of a port (makeServiceInfo;
-- without it, the third argument).
pub record Factory (V : Type 0) : Type 0 where
  pub parse_ip_sloppy : Text → Option ℕ
  pub make_service_info : ServicePort → ServiceImport → BaseServicePortInfo → V

abbrev pub import_name : ServiceImport → NamespacedName
import_name si = record { namespace = si.namespace; name = si.name }

module _ {V : Type 0} (factory : Factory V) where
  -- newBaseServiceInfo, for the first address. What it does not set is zero.
  unfoldable pub new_base_service_info : ServicePort → Text → BaseServicePortInfo
  new_base_service_info p ip = record {
    cluster_ip = factory.parse_ip_sloppy ip;
    port = p.port;
    protocol = p.protocol;
    node_port = p.node_port;
    load_balancer_ips = [];
    session_affinity = [];
    sticky_max_age = 0;
    external_ips = [];
    load_balancer_source_ranges = [];
    health_check_node_port = 0;
    external_policy_local = false;
    internal_policy_local = false;
    internal_traffic_policy = none;
    hints_annotation = [];
  }

  -- The loop over the ports, from index `i` on: a port's name is its index.
  unfoldable pub add_ports :
      ServiceImport → Text → ℕ → List ImportPort → Keyed ServicePortName V → Keyed ServicePortName V
  add_ports si ip i [] m = m
  add_ports si ip i (p ∷ ports) m = add_ports si ip (suc i) ports (
      put (record { service = import_name si; port = itoa i; protocol = p.protocol })
        (factory.make_service_info (service_port p) si (new_base_service_info (service_port p) ip))
        m)

  abbrev pub map_of_ip : ServiceImport → List Text → Option (Keyed ServicePortName V)
  map_of_ip si [] = none
  map_of_ip si (ip ∷ ips) = if is_nil ip then none else some (add_ports si ip 0 si.ports [])

  -- serviceImportToServiceMap; `none` is the nil map.
  unfoldable pub service_import_to_service_map :
      Option ServiceImport → Option (Keyed ServicePortName V)
  unfolding add_ports new_base_service_info service_port decimal
  service_import_to_service_map none = none
  service_import_to_service_map (some si) = map_of_ip si si.ips
