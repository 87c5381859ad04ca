-- ===== src/Controllers/Inner/Connected.antt =====
-- Handle of pkg/controller/tunnels/innertunnel_controller.go: what holds after a call that reports
-- success.
use fleetboard.Prelude.{◌≡◌, Status, done}
use fleetboard.Prelude.Text.{Text, text_eq}
use fleetboard.Pods.{Pod}
use fleetboard.Pods.Patch.{PodApi}
use fleetboard.Tunnel.Types.{DaemonConfig}
use fleetboard.Tunnel.Device.{Wgctrl}
use fleetboard.Tunnel.Config.{daemon_config_from_pod}
use fleetboard.Controllers.Routes.{Netlink, add, config_host_routing_rules}
use fleetboard.Controllers.Inner.Existing.{State}

module _ (wgctrl : Wgctrl) (netlink : Netlink) (api : PodApi) where
  -- What a settled end says of the parts.
  record Settled (v u : State wgctrl netlink api) (c : DaemonConfig) (st : Status) : Type 0 where
    added : st ≡ done
    routed : (config_host_routing_rules netlink v.table c.secondary_cidr add).1 ≡ done
    tunnel : u.tunnel ≡ v.tunnel
    table : u.table ≡ (config_host_routing_rules netlink v.table c.secondary_cidr add).0

  module _ (s : State wgctrl netlink api) (namespace name : Text) (pod : Pod) where
    abbrev pub config : DaemonConfig
    config = daemon_config_from_pod pod (text_eq s.tunnel.spec.pod_name s.leader)
