-- ===== src/Tunnel/Config.antt =====
-- DaemonConfigFromPod of pkg/tunnel/tunnel.go.
use fleetboard.Prelude.{Bool, [], ◌∷◌, if◌then◌else◌}
use fleetboard.Prelude.Text.{Text, codes}
use fleetboard.Pods.{Pod, get_eth0_ip}
use fleetboard.Pods.Annotations.{get_specific_annotation}
use fleetboard.Pods.ServiceCidr.{service_cidr_key}
use fleetboard.Tunnel.Types.{DaemonConfig, udp_port}

-- known.FleetboardNodeCIDR, known.FleetboardTunnelCIDR and known.PublicKey
abbrev pub node_cidr_key : Text
node_cidr_key = codes "fleetboard.io/node_cidr"

abbrev pub tunnel_cidr_key : Text
tunnel_cidr_key = codes "fleetboard.io/tunnel_cidr"

abbrev pub public_key_key : Text
public_key_key = codes "fleetboard.io/public_key"

-- The leader routes the CIDR of the pod's node, any other pod the whole tunnel network.
unfoldable pub daemon_config_from_pod : Pod → Bool → DaemonConfig
daemon_config_from_pod pod is_leader = record {
  node_id = pod.node_name;
  pod_id = pod.name;
  endpoint_ip = get_eth0_ip pod;
  secondary_cidr =
      get_specific_annotation pod.annotations
        ((if is_leader then node_cidr_key else tunnel_cidr_key) ∷ []);
  service_cidr = get_specific_annotation pod.annotations (service_cidr_key ∷ []);
  port = udp_port;
  public_key = get_specific_annotation pod.annotations (public_key_key ∷ []);
}
