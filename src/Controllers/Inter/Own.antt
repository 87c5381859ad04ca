-- ===== src/Controllers/Inter/Own.antt =====
-- The peer of the cluster itself: ApplyPeerConfig and RecycleAllResources of
-- pkg/controller/tunnels/intertunnel_controller.go, and utils/peerManager.go. The calls of the hub, the
-- JSON patch and wait.ExponentialBackoffWithContext are the record PeerClient.
use fleetboard.Prelude.{
  Bool, true, false, not, List, [], ◌∷◌, Option, none, some, if◌then◌else◌, is_nil, Error,
  already_exists, Status, done, panicked, Result, ok, err, panic,
}
use fleetboard.Prelude.Text.{Text}
use fleetboard.Prelude.Dict.{Dict}
use fleetboard.Resync.{Operation, resource_need_resync}
use fleetboard.Tunnel.Types.{Peer, Specification, udp_port}
use fleetboard.Tunnel.Device.{Wgctrl}
use fleetboard.Pods.Patch.{PodApi}
use fleetboard.Controllers.Routes.{Netlink}
use fleetboard.Controllers.Inter.{Inter, PeerApi, Reply, reply, panics, recycle_peer}

-- A closure's answer: whether it is done, and an error that ends the retries.
abbrev pub Attempt : Type 0
Attempt = Bool × Option Error

pub record PeerClient : Type 1 where
  pub State : Type 0
  pub create : State → Peer → State × Option Error
  pub get : State → Text → Text → Result Peer
  pub update : State → Peer → State × Option Error
  pub delete : State → Text → Text → State × Option Error
  pub create_patch : Peer → Peer → Option (List Operation)
  pub exponential_backoff : (State → State × Result Attempt) → State → State × Status

-- The peer that ApplyPeerConfig makes, with the text of the public key.
unfoldable pub own_peer : Specification → Text → Peer
own_peer spec key = record {
  name = spec.cluster_id;
  namespace = spec.share_namespace;
  deleting = false;
  spec = record {
    cluster_id = spec.cluster_id;
    pod_cidr = spec.cidr ∷ [];
    endpoint = spec.endpoint;
    port = udp_port;
    public_key = key;
    is_hub = spec.as_hub;
    is_public = not (is_nil spec.endpoint);
  };
}

-- What is copied into the peer that exists: all of the spec but IsHub.
abbrev pub updated_peer : Peer → Peer → Peer
updated_peer current peer = record current {
  spec = record peer.spec { is_hub = current.spec.is_hub };
}

module _ (client : PeerClient) where
  open client use {State, create, get, update, delete, create_patch, exponential_backoff}

  abbrev pub attempted : State × Option Error → State × Result Attempt
  attempted (t, none) = (t, ok (true, none))
  attempted (t, some e) = (t, ok (false, some e))

  -- The peer exists. One that is being deleted is waited for.
  abbrev pub with_current : State → Peer → Result Peer → State × Result Attempt
  with_current t peer panic = (t, panic)
  with_current t peer (err e) = (t, ok (false, some e))
  with_current t peer (ok current) =
      if current.deleting
      then (t, ok (false, none))
      else if resource_need_resync (create_patch current peer) false
      then attempted (update t (updated_peer current peer))
      else (t, ok (true, none))

  abbrev pub after_create : Peer → State × Option Error → State × Result Attempt
  after_create peer (t, none) = (t, ok (true, none))
  after_create peer (t, some already_exists) = with_current t peer (get t peer.namespace peer.name)
  after_create peer (t, some e) = (t, ok (false, some e))

  -- ApplyPeerWithRetry
  unfoldable pub apply_peer_with_retry : State → Peer → State × Status
  apply_peer_with_retry t peer = exponential_backoff (λ u. after_create peer (create u peer)) t

  -- ApplyPeerConfig
  unfoldable pub apply_peer_config : State → Specification → Text → State × Status
  unfolding apply_peer_with_retry own_peer
  apply_peer_config t spec key = apply_peer_with_retry t (own_peer spec key)

  -- DeletePeerWithRetry: every error ends the retries, also that the peer is gone already.
  unfoldable pub delete_peer_with_retry : State → Text → Text → State × Status
  delete_peer_with_retry t name namespace =
      exponential_backoff (λ u. attempted (delete u namespace name)) t

module _ (wgctrl : Wgctrl) (netlink : Netlink) (pods : PodApi) (hub : PeerApi) where
  abbrev pub recycled :
      Inter wgctrl netlink pods hub × Reply
      → (Inter wgctrl netlink pods hub → Inter wgctrl netlink pods hub × Status)
      → Inter wgctrl netlink pods hub × Status
  recycled (s, reply after error) next = next s
  recycled (s, panics) next = (s, panicked)

  -- The loop of RecycleAllResources over the connections there are; an error is logged.
  unfoldable pub recycle_peers :
      Inter wgctrl netlink pods hub → Dict Peer → Inter wgctrl netlink pods hub × Status
  recycle_peers s [] = (s, done)
  recycle_peers s ((name, p) ∷ rest) =
      recycled (recycle_peer wgctrl netlink pods hub s (some p)) (λ t. recycle_peers t rest)

  unfoldable pub recycle_all_peers :
      Inter wgctrl netlink pods hub → Inter wgctrl netlink pods hub × Status
  unfolding recycle_peers
  recycle_all_peers s = recycle_peers s s.tunnel.inter
