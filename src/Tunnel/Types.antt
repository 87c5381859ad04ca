-- ===== src/Tunnel/Types.antt =====
-- The data that the tunnel code passes around: Peer of pkg/apis, Specification, DaemonCNFTunnelConfig
-- and what DaemonConfigFromPod reads of a pod.
use fleetboard.Prelude.{ℕ, Bool, List}
use fleetboard.Prelude.Text.{Text}

-- v1alpha1.PeerSpec
pub record PeerSpec : Type 0 where
  pub cluster_id : Text
  pub pod_cidr : List Text
  pub endpoint : Text
  pub port : ℕ
  pub public_key : Text
  pub is_hub : Bool
  pub is_public : Bool

-- v1alpha1.Peer: of its metadata what the code reads.
pub record Peer : Type 0 where
  pub name : Text
  pub namespace : Text
  pub deleting : Bool
  pub spec : PeerSpec

-- tunnel.Specification: the options and the environment that the controllers read.
pub record Specification : Type 0 where
  pub as_hub : Bool
  pub as_cluster : Bool
  pub cidr : Text
  pub endpoint : Text
  pub cluster_id : Text
  pub pod_name : Text
  pub share_namespace : Text

-- tunnel.DaemonCNFTunnelConfig
pub record DaemonConfig : Type 0 where
  pub node_id : Text
  pub pod_id : Text
  pub endpoint_ip : Text
  pub secondary_cidr : List Text
  pub service_cidr : List Text
  pub port : ℕ
  pub public_key : List Text

-- known.UDPPort
abbrev pub udp_port : ℕ
udp_port = 31820
