-- ===== src/Tests/Tunnels.antt =====
-- pkg/tunnel, configHostRoutingRules and the annotations of pods at concrete inputs.
use fleetboard.Prelude.{
  ◌≡◌, ◌≢◌, refl, Bool, true, false, not, ◌&&◌, [], ◌∷◌, Option, none, some, All, done, failed,
  conflict, arith,
}
use fleetboard.Prelude.Text.{Lacks, Text, codes, text_eq, split}
use fleetboard.Prelude.Dict.{Dict, lookup}
use fleetboard.Net.Addr.{shr, shl, prefix, masked}
use fleetboard.Net.Format.{
  parse_octet, from_octets, parse_parts, parse_ip, digits_value, parse_bits, parse_cidr_parts,
  parse_cidr,
}
use fleetboard.Tunnel.Types.{Peer, Specification}
use fleetboard.Tunnel.Connect.{
  Wireguard, configure_device, create_inter, replace_inter, add_inter_cluster_tunnel,
}
use fleetboard.Tunnel.Tracking.{
  Tracks, SameKey, Kept, add_inter_cluster_tunnel-Tracks, add_inter_cluster_tunnel_retry,
  add_inter_cluster_tunnel-Kept,
}
use fleetboard.Controllers.Routes.{
  Routed, add, change_route, change_routes, config_host_routing_rules,
  config_host_routing_rules-Routed,
}
use fleetboard.Pods.{Pod, running, always}
use fleetboard.Pods.Annotations.{
  annotate_one, get_specific_annotation, get_specific_annotation-annotate_one, lookup-annotate_one,
}
use fleetboard.Pods.Patch.{set_once, set_specific_annotations, set_specific_annotations_once}
use fleetboard.Slices.{contains_string, remove_string, contains_string-remove_string}
use fleetboard.Tests.World.{wireguard_device, route_table, pod_server}

abbrev pub spec : Specification
spec = record {
  as_hub = true;
  as_cluster = false;
  cidr = codes "10.0.0.0/8";
  endpoint = codes "192.0.2.1";
  cluster_id = codes "hub";
  pod_name = codes "cnf-a";
  share_namespace = codes "syncer";
}

-- Another cluster, with a CIDR and an endpoint.
abbrev pub cluster : Peer
cluster = record {
  name = codes "east";
  namespace = codes "syncer";
  deleting = false;
  spec = record {
    cluster_id = codes "east";
    pod_cidr = codes "10.16.0.0/12" ∷ [];
    endpoint = codes "198.51.100.4";
    port = 31820;
    public_key = codes "k1";
    is_hub = false;
    is_public = false;
  };
}

abbrev pub tunnel : (works : Bool) → Wireguard (wireguard_device works)
tunnel works = record { inter = []; inner = []; device = []; spec = spec }

pub not_self : text_eq (codes "hub") (codes "east") ≡ false
unfolding text_eq
not_self = refl

pub unconnected :
    (works : Bool) → ¬ SameKey (wireguard_device works) (tunnel works) cluster (codes "k1")
unfolding lookup
unconnected works same = impossible same.old same.found
  where
    impossible : (old : Peer) → ◌≡◌ {A = Option Peer} none (some old) → ⊥
    impossible old e = cc

connects : (add_inter_cluster_tunnel (wireguard_device true) (tunnel true) cluster).1 ≡ done
unfolding add_inter_cluster_tunnel replace_inter create_inter configure_device text_eq lookup
connects = refl

add_inter_cluster_tunnel-Tracks_example :
    Tracks
      (wireguard_device true)
      (tunnel true)
      (add_inter_cluster_tunnel (wireguard_device true) (tunnel true) cluster).0
      cluster
      (codes "k1")
add_inter_cluster_tunnel-Tracks_example =
    add_inter_cluster_tunnel-Tracks (wireguard_device true) (tunnel true) cluster (codes "k1")
      not_self refl (unconnected true) connects

refused : (add_inter_cluster_tunnel (wireguard_device false) (tunnel false) cluster).1 ≢ done
unfolding add_inter_cluster_tunnel replace_inter create_inter configure_device text_eq lookup
refused h = cc

add_inter_cluster_tunnel_retry_example :
    add_inter_cluster_tunnel
      (wireguard_device false)
      (add_inter_cluster_tunnel (wireguard_device false) (tunnel false) cluster).0
      cluster
    ≡ ((add_inter_cluster_tunnel (wireguard_device false) (tunnel false) cluster).0, done)
add_inter_cluster_tunnel_retry_example =
    add_inter_cluster_tunnel_retry (wireguard_device false) (tunnel false) cluster (codes "k1")
      not_self refl refused

add_inter_cluster_tunnel-Kept_example :
    Kept
      (wireguard_device true)
      (tunnel true)
      (add_inter_cluster_tunnel (wireguard_device true) (tunnel true) cluster).0
      cluster
add_inter_cluster_tunnel-Kept_example =
    add_inter_cluster_tunnel-Kept (wireguard_device true) (tunnel true) cluster

routes_added : (config_host_routing_rules route_table [] (codes "10.16.0.0/12" ∷ []) add).1 ≡ done
unfolding config_host_routing_rules change_routes change_route parse_cidr parse_cidr_parts parse_ip
    parse_parts parse_octet from_octets digits_value parse_bits split masked prefix shr shl
routes_added = refl

config_host_routing_rules-Routed_example :
    All
      (Routed route_table
        (config_host_routing_rules route_table [] (codes "10.16.0.0/12" ∷ []) add).0)
      (codes "10.16.0.0/12" ∷ [])
config_host_routing_rules-Routed_example =
    config_host_routing_rules-Routed route_table [] (codes "10.16.0.0/12" ∷ []) routes_added

-- Annotations.
abbrev node_cidrs : Dict Text
node_cidrs = (codes "node", codes "10.0.0.0/24") ∷ (codes "key", codes "k0") ∷ []

no_comma : Lacks b',' (codes "10.0.1.0/24")
no_comma = omega arith

get_specific_annotation-annotate_one_example :
    contains_string
      (get_specific_annotation
        (annotate_one node_cidrs (codes "node") (codes "10.0.1.0/24") false)
        (codes "node" ∷ []))
      (codes "10.0.1.0/24")
    ≡ true
get_specific_annotation-annotate_one_example =
    get_specific_annotation-annotate_one node_cidrs (codes "node") (codes "10.0.1.0/24") false
      no_comma

other_key : text_eq (codes "node") (codes "key") ≡ false
unfolding text_eq
other_key = refl

lookup-annotate_one_example :
    lookup (codes "key") (annotate_one node_cidrs (codes "node") (codes "10.0.1.0/24") true)
    ≡ lookup (codes "key") node_cidrs
lookup-annotate_one_example =
    lookup-annotate_one node_cidrs (codes "node") (codes "10.0.1.0/24") true (codes "key") other_key

abbrev pub own_pod : Pod
own_pod = record {
  name = codes "cnf-a";
  namespace = codes "fleetboard-system";
  node_name = codes "n1";
  annotations = node_cidrs;
  labels = [];
  deleting = false;
  phase = running;
  reason = [];
  restart_policy = always;
  pod_ips = codes "192.0.2.7" ∷ [];
}

set_specific_annotations_once_example :
    (set_specific_annotations
        (pod_server own_pod (some conflict))
        (codes "s")
        own_pod
        (codes "node" ∷ [])
        (codes "x" ∷ [])
        true
      ≡ set_once
          (pod_server own_pod (some conflict))
          (codes "node" ∷ [])
          (codes "x" ∷ [])
          true
          (codes "s", own_pod))
    × ((set_specific_annotations
          (pod_server own_pod (some conflict))
          (codes "s")
          own_pod
          (codes "node" ∷ [])
          (codes "x" ∷ [])
          true).1
        ≢ failed conflict)
set_specific_annotations_once_example =
    set_specific_annotations_once (pod_server own_pod (some conflict)) (codes "s") own_pod
      (codes "node" ∷ []) (codes "x" ∷ []) true

contains_string-remove_string_example :
    contains_string (remove_string (codes "a" ∷ codes "b" ∷ codes "a" ∷ []) (codes "a")) (codes "b")
    ≡ (contains_string (codes "a" ∷ codes "b" ∷ codes "a" ∷ []) (codes "b")
        && not (text_eq (codes "a") (codes "b")))
contains_string-remove_string_example =
    contains_string-remove_string (codes "a" ∷ codes "b" ∷ codes "a" ∷ []) (codes "a") (codes "b")
