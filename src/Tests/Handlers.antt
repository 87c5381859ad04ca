-- ===== src/Tests/Handlers.antt =====
-- The handler of pkg/controller/tunnels/intertunnel_controller.go at concrete inputs.
use fleetboard.Prelude.{◌≡◌, refl, Bool, true, false, List, [], ◌∷◌, none, some, All, done, ok}
use fleetboard.Prelude.Text.{codes, text_eq}
use fleetboard.Prelude.Dict.{lookup}
use fleetboard.Net.Addr.{shr, shl, prefix, masked, contains}
use fleetboard.Net.Format.{
  parse_octet, from_octets, parse_parts, parse_ip, digits_value, parse_bits, parse_cidr_parts,
  parse_cidr, cidr_text, octets, octet_text, ip_text,
}
use fleetboard.Prelude.Text.{split, join}
use fleetboard.Cidr.Divide.{divide_tunnel_network, tunnel_bits}
use fleetboard.Cidr.Blocks.{
  overlapping_nets, is_overlapping_cidr, trimmed_text, existing_cidr_set, block_text, big_ip_text,
  overlaps_any, first_free, find_in_network, find_available_cidr, find_tunnel_available_cidr,
}
use fleetboard.Tunnel.Types.{Peer}
use fleetboard.Tunnel.Device.{Wgctrl}
use fleetboard.Tunnel.Connect.{
  Wireguard, configure_device, remove_tunnel, create_inter, replace_inter, add_inter_cluster_tunnel,
}
use fleetboard.Tunnel.Tracking.{Tracks, SameKey}
use fleetboard.Controllers.Routes.{Routed, change_route, change_routes, config_host_routing_rules}
use fleetboard.Controllers.Inter.{
  settled, get_peer, existing_cidrs, with_pod_cidr, handle, handle_live, connect_peer, write_back,
  route, recycle_peer,
}
use fleetboard.Controllers.Inter.Parts.{State}
use fleetboard.Controllers.Inter.Connected.{handle-connected, handle_write_back_once}
use fleetboard.Controllers.Inter.Recycled.{recycle_peer_readd}
use fleetboard.Tests.World.{wireguard_device, route_table, pod_server, hub_server}
use fleetboard.Tests.Tunnels.{spec, cluster, tunnel, not_self, unconnected, own_pod}

-- The hub's controller with some cached peers.
abbrev controller :
    (works : Bool)
    → List Peer
    → State (wireguard_device works) route_table (pod_server own_pod none) hub_server
controller works cache = record {
  tunnel = tunnel works;
  cache = cache;
  table = [];
  local = codes "s";
  server = [];
  spec = spec;
}

cached_cluster : get_peer (codes "syncer") (codes "east") (cluster ∷ []) ≡ some cluster
unfolding get_peer text_eq
cached_cluster = refl

handled :
    (handle
      (wireguard_device true)
      route_table
      (pod_server own_pod none)
      hub_server
      (controller true (cluster ∷ []))
      (codes "syncer")
      (codes "east")).1
    ≡ settled
unfolding handle handle_live connect_peer write_back route get_peer config_host_routing_rules
    change_routes change_route add_inter_cluster_tunnel replace_inter create_inter configure_device
    text_eq lookup parse_cidr parse_cidr_parts parse_ip parse_parts parse_octet from_octets
    digits_value parse_bits split masked prefix shr shl
handled = refl

handle-connected_example :
    Tracks
      (wireguard_device true)
      (tunnel true)
      (handle
        (wireguard_device true)
        route_table
        (pod_server own_pod none)
        hub_server
        (controller true (cluster ∷ []))
        (codes "syncer")
        (codes "east")).0.tunnel
      cluster
      (codes "k1")
    × All
        (Routed route_table
          (handle
            (wireguard_device true)
            route_table
            (pod_server own_pod none)
            hub_server
            (controller true (cluster ∷ []))
            (codes "syncer")
            (codes "east")).0.table)
        cluster.spec.pod_cidr
handle-connected_example =
    handle-connected (wireguard_device true) route_table (pod_server own_pod none) hub_server
      (controller true (cluster ∷ [])) (codes "syncer") (codes "east") cluster (codes "k1") refl
      cached_cluster refl refl not_self refl (unconnected true) handled

-- A cluster that has no CIDR yet, and a device that does not answer.
abbrev newcomer : Peer
newcomer = with_pod_cidr cluster []

cached_newcomer : get_peer (codes "syncer") (codes "east") (newcomer ∷ []) ≡ some newcomer
unfolding get_peer text_eq
cached_newcomer = refl

allocated :
    find_tunnel_available_cidr
      (codes "10.0.0.0/8")
      (existing_cidrs (codes "syncer") (newcomer ∷ []))
    ≡ ok (codes "10.0.0.0/12")
unfolding find_tunnel_available_cidr divide_tunnel_network tunnel_bits existing_cidrs text_eq
    find_available_cidr find_in_network first_free overlaps_any block_text big_ip_text
    existing_cidr_set trimmed_text is_overlapping_cidr overlapping_nets cidr_text ip_text octets
    octet_text join contains parse_cidr parse_cidr_parts parse_ip parse_parts parse_octet
    from_octets digits_value parse_bits split masked prefix shr shl
allocated = refl

handle_write_back_once_example :
    (handle
      (wireguard_device false)
      route_table
      (pod_server own_pod none)
      hub_server
      (handle
        (wireguard_device false)
        route_table
        (pod_server own_pod none)
        hub_server
        (controller false (newcomer ∷ []))
        (codes "syncer")
        (codes "east")).0
      (codes "syncer")
      (codes "east")).0.server
    ≡ (handle
        (wireguard_device false)
        route_table
        (pod_server own_pod none)
        hub_server
        (controller false (newcomer ∷ []))
        (codes "syncer")
        (codes "east")).0.server
handle_write_back_once_example =
    handle_write_back_once (wireguard_device false) route_table (pod_server own_pod none) hub_server
      (controller false (newcomer ∷ [])) (codes "syncer") (codes "east") newcomer
      (codes "10.0.0.0/12") refl cached_newcomer refl refl allocated refl

-- A controller that is connected to the cluster.
abbrev connected : State (wireguard_device true) route_table (pod_server own_pod none) hub_server
connected = record {
  tunnel = record { inter = (codes "east", cluster) ∷ []; inner = []; device = []; spec = spec };
  cache = [];
  table = [];
  local = codes "s";
  server = [];
  spec = spec;
}

connected-SameKey : SameKey (wireguard_device true) connected.tunnel cluster (codes "k1")
unfolding lookup text_eq
connected-SameKey = record {
  old = cluster;
  old_key = codes "k1";
  found = refl;
  parsed = refl;
  same = refl;
}

recycled :
    (recycle_peer
      (wireguard_device true)
      route_table
      (pod_server own_pod none)
      hub_server
      connected
      (some cluster)).1
    ≡ settled
unfolding recycle_peer route remove_tunnel configure_device config_host_routing_rules change_routes
    change_route parse_cidr parse_cidr_parts parse_ip parse_parts parse_octet from_octets
    digits_value parse_bits split masked prefix shr shl
recycled = refl

-- The cluster comes back under another name, at another endpoint, with another CIDR.
abbrev returned : Peer
returned = record {
  name = codes "east-again";
  namespace = codes "syncer";
  deleting = false;
  spec = record {
    cluster_id = codes "east";
    pod_cidr = codes "10.32.0.0/12" ∷ [];
    endpoint = codes "198.51.100.5";
    port = 31821;
    public_key = codes "k1";
    is_hub = false;
    is_public = false;
  };
}

abbrev recycled_tunnel : Wireguard (wireguard_device true)
recycled_tunnel =
    (recycle_peer (wireguard_device true) route_table (pod_server own_pod none) hub_server connected
      (some cluster)).0.tunnel

recycle_peer_readd_example :
    (Wgctrl.peer (wireguard_device true) recycled_tunnel.device (codes "k1") ≡ none)
    × (add_inter_cluster_tunnel (wireguard_device true) recycled_tunnel returned
        ≡ (recycled_tunnel, done))
recycle_peer_readd_example =
    recycle_peer_readd (wireguard_device true) route_table (pod_server own_pod none) hub_server
      connected cluster (codes "k1") refl not_self connected-SameKey recycled returned (codes "k1")
      refl refl refl
