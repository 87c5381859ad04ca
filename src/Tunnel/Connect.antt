-- ===== src/Tunnel/Connect.antt =====
-- AddInterClusterTunnel, RemoveInterClusterTunnel, AddInnerClusterTunnel, RemoveInnerClusterTunnel
-- and parseSubnets of pkg/tunnel/wireguard_tools.go, and the accessors of the connections in
-- pkg/tunnel/tunnel.go.
use fleetboard.Prelude.{
  ℕ, List, [], ◌∷◌, Option, none, some, if◌then◌else◌, external, invalid_text, Status, done, failed,
  panicked,
}
use fleetboard.Prelude.Text.{Text, text_eq}
use fleetboard.Prelude.Dict.{Dict, lookup, insert, delete}
use fleetboard.Net.Addr.{IpNet}
use fleetboard.Net.Format.{parse_ip, parse_cidr}
use fleetboard.Tunnel.Types.{Peer, Specification, DaemonConfig}
use fleetboard.Tunnel.Device.{Wgctrl, PeerConfig}

-- parseSubnets: texts that do not parse are skipped.
unfoldable pub parse_subnets : List Text → List IpNet
parse_subnets [] = []
parse_subnets (sn ∷ subnets) =
    let rest = parse_subnets subnets in
    elim (parse_cidr sn) [ none ↦ rest | some (a, n) ↦ n ∷ rest ]

module _ (wgctrl : Wgctrl) where
  open wgctrl use {Key, parse_key, key_text, Device, configure, peer}

  -- tunnel.Wireguard: the connections of interConnections and innerConnections, and the device.
  pub record Wireguard : Type 0 where
    pub inter : Dict Peer
    pub inner : Dict DaemonConfig
    pub device : Device
    pub spec : Specification

  -- A call of ConfigureDevice.
  unfoldable pub configure_device : Wireguard → Key → Option PeerConfig → Wireguard × Status
  configure_device w k c =
      let (d, succeeded) = configure w.device k c in
      (record w { device = d }, if succeeded then done else failed external)

  -- RemoveInterClusterTunnel and RemoveInnerClusterTunnel, which differ in their log lines alone.
  unfoldable pub remove_tunnel : Wireguard → Key → Wireguard × Status
  unfolding configure_device
  remove_tunnel w k = configure_device w k none

  -- A remote address as the endpoint of a peer.
  abbrev pub endpoint_of : Text → ℕ → Option (ℕ × ℕ)
  endpoint_of ip port = elim (parse_ip ip) [ none ↦ none | some a ↦ some (a, port) ]

  -- The configuration of a peer in another cluster, with a keepalive of ten seconds.
  unfoldable pub inter_config : Peer → PeerConfig
  inter_config p = record {
    endpoint = endpoint_of p.spec.endpoint p.spec.port;
    keepalive = 10;
    allowed = parse_subnets p.spec.pod_cidr;
  }

  -- From "create connection" on: the peer is put in the map before the device is configured.
  unfoldable pub create_inter : Wireguard → Peer → Key → Wireguard × Status
  unfolding configure_device inter_config
  create_inter w p k =
      configure_device (record w { inter = insert p.spec.cluster_id p w.inter }) k
        (some (inter_config p))

  -- The connection that there was is left if it has the same key, and dropped otherwise.
  unfoldable pub replace_inter : Wireguard → Peer → Key → Option Peer → Wireguard × Status
  unfolding create_inter remove_tunnel
  replace_inter w p k none = create_inter w p k
  replace_inter w p k (some old) = elim (parse_key old.spec.public_key) [
    | none ↦ create_inter (record w { inter = delete p.spec.cluster_id w.inter }) p k
    | some j ↦
        if text_eq (key_text j) (key_text k)
        then (w, done)
        else (let w' = (remove_tunnel w j).0 in
            create_inter (record w' { inter = delete p.spec.cluster_id w'.inter }) p k)
  ]

  -- AddInterClusterTunnel
  unfoldable pub add_inter_cluster_tunnel : Wireguard → Peer → Wireguard × Status
  add_inter_cluster_tunnel w p =
      if text_eq w.spec.cluster_id p.spec.cluster_id
      then (w, done)
      else (elim (parse_key p.spec.public_key) [
        | none ↦ (w, failed external)
        | some k ↦ replace_inter w p k (lookup p.spec.cluster_id w.inter)
      ])

  -- GetExistingInnerConnection
  unfoldable pub get_existing_inner_connection : Wireguard → Text → Option DaemonConfig
  get_existing_inner_connection w node = lookup node w.inner

  -- DeleteExistingInnerConnection
  unfoldable pub delete_existing_inner_connection : Wireguard → Text → Wireguard
  delete_existing_inner_connection w node = record w { inner = delete node w.inner }

  unfoldable pub inner_config : DaemonConfig → ℕ → PeerConfig
  inner_config c ip = record {
    endpoint = some (ip, c.port);
    keepalive = 10;
    allowed = parse_subnets c.secondary_cidr;
  }

  unfoldable pub create_inner : Wireguard → DaemonConfig → ℕ → Key → Wireguard × Status
  unfolding configure_device inner_config
  create_inner w c ip k =
      configure_device (record w { inner = insert c.node_id c w.inner }) k
        (some (inner_config c ip))

  -- Reading the first key of a connection that has none panics.
  unfoldable pub replace_inner :
      Wireguard → DaemonConfig → ℕ → Key → Option (List Text) → Wireguard × Status
  unfolding create_inner remove_tunnel
  replace_inner w c ip k none = create_inner w c ip k
  replace_inner w c ip k (some []) = (w, panicked)
  replace_inner w c ip k (some (old ∷ keys)) = elim (parse_key old) [
    | none ↦ create_inner (record w { inner = delete c.node_id w.inner }) c ip k
    | some j ↦
        if text_eq (key_text j) (key_text k)
        then (w, done)
        else (let w' = (remove_tunnel w j).0 in
            create_inner (record w' { inner = delete c.node_id w'.inner }) c ip k)
  ]

  -- The public keys of the connection to a node, if there is one.
  abbrev pub old_keys : Option DaemonConfig → Option (List Text)
  old_keys none = none
  old_keys (some c) = some c.public_key

  unfoldable pub connect_inner : Wireguard → DaemonConfig → ℕ → List Text → Wireguard × Status
  connect_inner w c ip [] = (w, failed invalid_text)
  connect_inner w c ip (key ∷ keys) = elim (parse_key key) [
    | none ↦ (w, failed external)
    | some k ↦ replace_inner w c ip k (old_keys (lookup c.node_id w.inner))
  ]

  -- AddInnerClusterTunnel
  unfoldable pub add_inner_cluster_tunnel : Wireguard → DaemonConfig → Wireguard × Status
  add_inner_cluster_tunnel w c = elim (parse_ip c.endpoint_ip) [
    | none ↦ (w, failed invalid_text)
    | some ip ↦ connect_inner w c ip c.public_key
  ]
