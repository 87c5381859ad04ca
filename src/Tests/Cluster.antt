-- ===== src/Tests/Cluster.antt =====
-- The handler of pkg/controller/tunnels/innertunnel_controller.go at concrete inputs.
use fleetboard.Prelude.{
  ℕ, ◌∙◌, sym, ap, subst, arith, ◌≡◌, refl, true, false, ◌&&◌, if◌then◌else◌, is_nil, List, [], ◌∷◌,
  Option, none, some, done, ok, err, external, Error,
}
use fleetboard.Prelude.Text.{Text, codes, text_eq, split, join}
use fleetboard.Prelude.Dict.{lookup, insert}
use fleetboard.Net.Range.{range_of_contains}
use fleetboard.Net.Addr.{IpNet, shr, shl, prefix, masked, contains}
use fleetboard.Net.Format.{
  parse_octet, from_octets, parse_parts, parse_ip, digits_value, parse_bits, parse_cidr_parts,
  parse_cidr, cidr_text, octets, octet_text, ip_text,
}
use fleetboard.Cidr.Divide.{divide_cluster_network, cluster_bits}
use fleetboard.Cidr.Blocks.{
  overlapping_nets, is_overlapping_cidr, trimmed_text, existing_cidr_set, block_text, big_ip_text,
  overlaps_any, first_free, find_in_network, find_available_cidr, find_cluster_available_cidr,
}
use fleetboard.Pods.{
  Pod, running, always, is_pod_alive, is_pod_status_phase_alive, first_ip, get_eth0_ip,
}
use fleetboard.Pods.Annotations.{annotate, annotate_one, get_specific_annotation}
use fleetboard.Pods.Patch.{patch_answer, patch_annotations, set_once, set_specific_annotations}
use fleetboard.Pods.ServiceCidr.{get_service_cidr_from_cnf_pod, first_service_cidr}
use fleetboard.Tunnel.Types.{DaemonConfig}
use fleetboard.Tunnel.Config.{daemon_config_from_pod}
use fleetboard.Tunnel.Connect.{
  configure_device, create_inner, replace_inner, connect_inner, add_inner_cluster_tunnel,
}
use fleetboard.Tunnel.InnerTracking.{TracksInner, SameInnerKey, add_inner_cluster_tunnel-Tracks}
use fleetboard.Controllers.Inner.{
  labelled_leader, annotate_cached, spawn_new_cidr_for_nri_pod, get_cached_pod, handle_pod,
  handle_alive, handle_service, connect_pod, should_handler_pod,
}
use fleetboard.Controllers.Inner.Existing.{State}
use fleetboard.Controllers.Inner.Allocation.{Shares, PairwiseApart, handle_pod-PairwiseApart}
use fleetboard.Controllers.Inner.Refused.{CachedWith, spawn_new_cidr_for_nri_pod-refused}
use fleetboard.Controllers.Inner.Leader.{should_handler_pod_leader}
use fleetboard.Controllers.Inner.Connected.{config}
use fleetboard.Tests.World.{wireguard_device, route_table, pod_server}
use fleetboard.Tests.Tunnels.{tunnel, own_pod}

-- A pod on another node, with its CIDRs and its key.
abbrev other_pod : Pod
other_pod = record {
  name = codes "cnf-b";
  namespace = codes "fleetboard-system";
  node_name = codes "n2";
  annotations =
      (codes "fleetboard.io/node_cidr", codes "10.0.1.0/24")
      ∷ (codes "fleetboard.io/service_cidr", codes "10.9.0.0/24")
      ∷ (codes "fleetboard.io/public_key", codes "k2")
      ∷ [];
  labels = (codes "router.fleetboard.io/leader", codes "true") ∷ [];
  deleting = false;
  phase = running;
  reason = [];
  restart_policy = always;
  pod_ips = codes "192.0.2.8" ∷ [];
}

-- A pod that has no annotation yet.
abbrev new_pod : Pod
new_pod = record other_pod { name = codes "cnf-c"; annotations = [] }

-- The leader's controller, with a server that gives some answer to a patch.
abbrev leader :
    (answer : Option Error) → State (wireguard_device true) route_table (pod_server own_pod answer)
leader answer = record {
  tunnel = tunnel true;
  existing_cidr = codes "10.0.0.0/24" ∷ codes "10.0.1.0/24" ∷ [];
  cluster_cidr = codes "10.0.0.0/16";
  global_cidr = codes "10.0.0.0/8";
  leader = codes "cnf-a";
  pods = other_pod ∷ new_pod ∷ [];
  table = [];
  server = codes "s";
}

abbrev other_config : DaemonConfig
other_config =
    config (wireguard_device true) route_table (pod_server own_pod none) (leader none)
      (codes "fleetboard-system") (codes "cnf-b") other_pod

has_address : parse_ip other_config.endpoint_ip ≡ some 3221225992
unfolding daemon_config_from_pod get_eth0_ip first_ip parse_ip parse_parts parse_octet from_octets
    digits_value split
has_address = refl

has_key : other_config.public_key ≡ codes "k2" ∷ []
unfolding daemon_config_from_pod get_specific_annotation lookup text_eq split
has_key = refl

unconnected_node : ¬ SameInnerKey (wireguard_device true) (tunnel true) other_config (codes "k2")
unfolding lookup
unconnected_node same = impossible same.old_first same.old_rest same.found
  where
    impossible :
        (first : Text) (rest : List Text)
        → ◌≡◌ {A = Option (List Text)} none (some (first ∷ rest))
        → ⊥
    impossible first rest e = cc

connects_node :
    (add_inner_cluster_tunnel (wireguard_device true) (tunnel true) other_config).1 ≡ done
unfolding daemon_config_from_pod get_specific_annotation get_eth0_ip first_ip
    add_inner_cluster_tunnel connect_inner replace_inner create_inner configure_device text_eq
    lookup parse_ip parse_parts parse_octet from_octets digits_value split
connects_node = refl

add_inner_cluster_tunnel-Tracks_example :
    TracksInner
      (wireguard_device true)
      (add_inner_cluster_tunnel (wireguard_device true) (tunnel true) other_config).0
      other_config
      3221225992
      (codes "k2")
add_inner_cluster_tunnel-Tracks_example =
    add_inner_cluster_tunnel-Tracks (wireguard_device true) (tunnel true) other_config 3221225992
      (codes "k2") [] (codes "k2") has_address has_key refl unconnected_node connects_node

free_cidr :
    find_cluster_available_cidr
      (codes "10.0.0.0/16")
      (codes "10.0.0.0/24" ∷ codes "10.0.1.0/24" ∷ [])
    ≡ ok (codes "10.0.2.0/24")
unfolding find_cluster_available_cidr divide_cluster_network cluster_bits find_available_cidr
    find_in_network first_free overlaps_any block_text big_ip_text existing_cidr_set trimmed_text
    is_overlapping_cidr overlapping_nets cidr_text ip_text octets octet_text join contains
    parse_cidr parse_cidr_parts parse_ip parse_parts parse_octet from_octets digits_value parse_bits
    split masked prefix shr shl
free_cidr = refl

patch_refused :
    (spawn_new_cidr_for_nri_pod
      (wireguard_device true)
      route_table
      (pod_server own_pod (some external))
      (leader (some external))
      new_pod).1
    ≡ err external
unfolding spawn_new_cidr_for_nri_pod annotate_cached set_specific_annotations set_once
    patch_annotations patch_answer annotate annotate_one lookup insert text_eq
    find_cluster_available_cidr divide_cluster_network cluster_bits find_available_cidr
    find_in_network first_free overlaps_any block_text big_ip_text existing_cidr_set trimmed_text
    is_overlapping_cidr overlapping_nets cidr_text ip_text octets octet_text join contains
    parse_cidr parse_cidr_parts parse_ip parse_parts parse_octet from_octets digits_value parse_bits
    split masked prefix shr shl
patch_refused = refl

cached_new_pod :
    get_cached_pod (codes "fleetboard-system") (codes "cnf-c") (leader (some external)).pods
    ≡ some new_pod
unfolding get_cached_pod text_eq
cached_new_pod = refl

abbrev after_refusal :
    State (wireguard_device true) route_table (pod_server own_pod (some external))
after_refusal =
    (spawn_new_cidr_for_nri_pod (wireguard_device true) route_table
      (pod_server own_pod (some external)) (leader (some external)) new_pod).0.0

spawn_new_cidr_for_nri_pod-refused_example :
    CachedWith
      (wireguard_device true)
      route_table
      (pod_server own_pod (some external))
      after_refusal
      new_pod
      (codes "10.0.2.0/24")
    × (find_cluster_available_cidr after_refusal.cluster_cidr after_refusal.existing_cidr
        ≡ ok (codes "10.0.2.0/24"))
spawn_new_cidr_for_nri_pod-refused_example =
    spawn_new_cidr_for_nri_pod-refused (wireguard_device true) route_table
      (pod_server own_pod (some external)) (leader (some external)) new_pod (codes "10.0.2.0/24")
      external cached_new_pod free_cidr patch_refused

-- The two CIDRs in use have no address in common.
apart_nets :
    (address : ℕ)
    → contains (record { ip = 167772160; bits = 24 }) address ≡ true
    → contains (record { ip = 167772416; bits = 24 }) address ≡ true
    → ⊥
unfolding masked prefix shr shl
apart_nets address h k =
    let first = range_of_contains (record { ip = 167772160; bits = 24 }) address h in
    let second = range_of_contains (record { ip = 167772416; bits = 24 }) address k in
    omega (arith, first, second)

read_first :
    parse_cidr (codes "10.0.0.0/24") ≡ some (167772160, record { ip = 167772160; bits = 24 })
unfolding parse_cidr parse_cidr_parts parse_ip parse_parts parse_octet from_octets digits_value
    parse_bits split masked prefix shr shl
read_first = refl

read_second :
    parse_cidr (codes "10.0.1.0/24") ≡ some (167772416, record { ip = 167772416; bits = 24 })
unfolding parse_cidr parse_cidr_parts parse_ip parse_parts parse_octet from_octets digits_value
    parse_bits split masked prefix shr shl
read_second = refl

in_use-Shares : ¬ Shares (codes "10.0.0.0/24") (codes "10.0.1.0/24")
in_use-Shares both =
    apart_nets both.address
      (subst (λ n. contains n both.address ≡ true) (same_net (sym both.e_parsed ∙ read_first))
        both.in_e)
      (subst (λ n. contains n both.address ≡ true) (same_net (sym both.t_parsed ∙ read_second))
        both.in_t)
  where
    net_of : Option (ℕ × IpNet) → IpNet
    net_of none = record { ip = 0; bits = 0 }
    net_of (some (a, n)) = n

    same_net :
        {a b : ℕ} {m n : IpNet} → ◌≡◌ {A = Option (ℕ × IpNet)} (some (a, m)) (some (b, n)) → m ≡ n
    same_net e = ap net_of e

-- A third CIDR is allocated for the new pod.
third_allocated :
    (handle_pod
      (wireguard_device true)
      route_table
      (pod_server own_pod none)
      (leader none)
      (codes "fleetboard-system")
      (codes "cnf-c")).0.existing_cidr
    ≡ codes "10.0.0.0/24" ∷ codes "10.0.1.0/24" ∷ codes "10.0.2.0/24" ∷ []
unfolding handle_pod handle_alive handle_service connect_pod get_cached_pod is_pod_alive
    is_pod_status_phase_alive daemon_config_from_pod get_specific_annotation get_eth0_ip first_ip
    spawn_new_cidr_for_nri_pod annotate_cached set_specific_annotations set_once patch_annotations
    patch_answer annotate annotate_one lookup insert text_eq find_cluster_available_cidr
    divide_cluster_network cluster_bits find_available_cidr find_in_network first_free overlaps_any
    block_text big_ip_text existing_cidr_set trimmed_text is_overlapping_cidr overlapping_nets
    cidr_text ip_text octets octet_text join contains parse_cidr parse_cidr_parts parse_ip
    parse_parts parse_octet from_octets digits_value parse_bits split masked prefix shr shl
    get_service_cidr_from_cnf_pod first_service_cidr
third_allocated = refl

handle_pod-PairwiseApart_example :
    PairwiseApart
      (handle_pod
        (wireguard_device true)
        route_table
        (pod_server own_pod none)
        (leader none)
        (codes "fleetboard-system")
        (codes "cnf-c")).0.existing_cidr
handle_pod-PairwiseApart_example =
    handle_pod-PairwiseApart (wireguard_device true) route_table (pod_server own_pod none)
      (leader none) (codes "fleetboard-system") (codes "cnf-c") ((in_use-Shares, tt), (tt, tt))

should_handler_pod_leader_example :
    ((should_handler_pod
        (wireguard_device true)
        route_table
        (pod_server own_pod none)
        (leader none)
        other_pod).0.leader
      ≡ (if is_nil (leader none).leader && labelled_leader other_pod
          then other_pod.name
          else (leader none).leader))
    × ((should_handler_pod
          (wireguard_device true)
          route_table
          (pod_server own_pod none)
          (leader none)
          other_pod).0.existing_cidr
        ≡ (leader none).existing_cidr)
should_handler_pod_leader_example =
    should_handler_pod_leader (wireguard_device true) route_table (pod_server own_pod none)
      (leader none) other_pod
