-- ===== src/Controllers/Inter.antt =====
-- pkg/controller/tunnels/intertunnel_controller.go: the controller that follows the Peer resources
-- of the hub. The peers that the lister returns are those of the informer's cache, shared by every
-- call: what the handler writes into one stays there. Durations are in seconds.
use fleetboard.Prelude.{
  ℕ, Bool, true, false, not, ◌&&◌, ◌||◌, List, [], ◌∷◌, Option, none, some, if◌then◌else◌, is_nil,
  Error, unavailable, external, Status, done, failed, panicked, Result, ok, err, panic,
}
use fleetboard.Prelude.Text.{Text, codes, text_eq}
use fleetboard.Cidr.Blocks.{find_tunnel_available_cidr}
use fleetboard.Tunnel.Types.{Peer, Specification}
use fleetboard.Tunnel.Device.{Wgctrl}
use fleetboard.Tunnel.Connect.{Wireguard, remove_tunnel, add_inter_cluster_tunnel}
use fleetboard.Pods.Patch.{PodApi, add_annotation_to_self}
use fleetboard.Controllers.Routes.{Netlink, RouteOperation, add, remove, config_host_routing_rules}
pub mod Parts
pub mod Own
pub mod Recycled
pub mod Connected

-- What a handler returns: after how many seconds to come back, and the error.
pub data Reply : Type 0 where
  reply : Option ℕ → Option Error → Reply
  panics : Reply

-- Success: nothing to come back for.
abbrev pub settled : Reply
settled = reply none none

abbrev pub retry_with : Error → Reply
retry_with e = reply (some 2) (some e)

-- The client for Peer resources in the hub.
pub record PeerApi : Type 1 where
  pub Hub : Type 0
  pub update_peer : Hub → Peer → Hub × Option Error

-- known.HubClusterName and known.FleetboardNodeCIDR
abbrev pub hub_name : Text
hub_name = codes "hub"

abbrev pub node_cidr_key : Text
node_cidr_key = codes "fleetboard.io/node_cidr"

abbrev pub is_peer : Text → Text → Peer → Bool
is_peer namespace name p = text_eq p.namespace namespace && text_eq p.name name

-- peerLister.Peers(namespace).Get(name)
unfoldable pub get_peer : Text → Text → List Peer → Option Peer
get_peer namespace name [] = none
get_peer namespace name (p ∷ cache) =
    if is_peer namespace name p then some p else get_peer namespace name cache

abbrev pub with_pod_cidr : Peer → List Text → Peer
with_pod_cidr p cidrs = record p { spec = record p.spec { pod_cidr = cidrs } }

-- Writing to the spec of a cached peer.
unfoldable pub write_pod_cidr : Text → Text → List Text → List Peer → List Peer
write_pod_cidr namespace name cidrs [] = []
write_pod_cidr namespace name cidrs (p ∷ cache) =
    if is_peer namespace name p
    then with_pod_cidr p cidrs ∷ cache
    else p ∷ write_pod_cidr namespace name cidrs cache

-- Whether a peer has no CIDR: len(PodCIDR) == 0 || len(PodCIDR[0]) == 0.
abbrev pub lacks_cidr : List Text → Bool
lacks_cidr [] = true
lacks_cidr (c ∷ cs) = is_nil c

-- The first CIDRs of the peers of a namespace, the hub's left out.
unfoldable pub existing_cidrs : Text → List Peer → List Text
existing_cidrs namespace [] = []
existing_cidrs namespace (p ∷ cache) =
    let rest = existing_cidrs namespace cache in
    if text_eq p.namespace namespace && not (text_eq p.name hub_name)
    then (elim p.spec.pod_cidr [ [] ↦ rest | c ∷ cs ↦ c ∷ rest ])
    else rest

-- The enqueue filter of NewInterClusterTunnelController: the new object, or the old one of a
-- deletion.
unfoldable pub should_enqueue : Specification → Option Peer → Bool
should_enqueue spec none = false
should_enqueue spec (some p) =
    if p.spec.is_hub || not (is_nil p.spec.endpoint) && p.spec.is_public
    then not spec.as_hub
    else spec.as_hub || not (is_nil spec.endpoint)

module _ (wgctrl : Wgctrl) (netlink : Netlink) (pods : PodApi) (hub : PeerApi) where
  -- The controller's fields that change, and the outside world that it acts on.
  pub record Inter : Type 0 where
    pub tunnel : Wireguard wgctrl
    pub cache : List Peer
    pub table : Netlink.Table netlink
    pub local : PodApi.Server pods
    pub server : PeerApi.Hub hub
    pub spec : Specification

  -- The route part of a handler, and what it goes on with.
  unfoldable pub route : Inter → List Text → RouteOperation → Inter × Status
  route s cidrs op =
      let (t, status) = config_host_routing_rules netlink s.table cidrs op in
      (record s { table = t }, status)

  abbrev pub after_route : Inter × Status → Inter × Reply
  after_route (s, done) = (s, settled)
  after_route (s, failed e) = (s, retry_with e)
  after_route (s, panicked) = (s, panics)

  -- After RemoveInterClusterTunnel failed the handler returns `err`, which is nil there.
  abbrev pub after_remove : Inter → List Text → Status → Inter × Reply
  after_remove s cidrs done = after_route (route s cidrs remove)
  after_remove s cidrs (failed e) = (s, reply (some 2) none)
  after_remove s cidrs panicked = (s, panics)

  -- RecyclePeer; a nil peer is dereferenced.
  unfoldable pub recycle_peer : Inter → Option Peer → Inter × Reply
  unfolding route
  recycle_peer s none = (s, panics)
  recycle_peer s (some p) = elim (Wgctrl.parse_key wgctrl p.spec.public_key) [
    | none ↦ (s, retry_with external)
    | some k ↦
        let (w, status) = remove_tunnel wgctrl s.tunnel k in
        after_remove (record s { tunnel = w }) p.spec.pod_cidr status
  ]

  -- The last part of Handle: a CIDR that this call allocated is written back to the hub.
  unfoldable pub write_back : Inter → Peer → Bool → Inter × Reply
  write_back s p false = (s, settled)
  write_back s p true =
      let (h, answer) = PeerApi.update_peer hub s.server p in
      (record s { server = h }, elim answer [ none ↦ settled | some e ↦ retry_with e ])

  abbrev pub after_add_route : Peer → Bool → Inter × Status → Inter × Reply
  after_add_route p no_cidr (s, done) = write_back s p no_cidr
  after_add_route p no_cidr (s, failed e) = (s, retry_with e)
  after_add_route p no_cidr (s, panicked) = (s, panics)

  abbrev pub after_add : Inter → Peer → Bool → Status → Inter × Reply
  after_add s p no_cidr done = after_add_route p no_cidr (route s p.spec.pod_cidr add)
  after_add s p no_cidr (failed e) = (s, retry_with e)
  after_add s p no_cidr panicked = (s, panics)

  -- From AddInterClusterTunnel on.
  unfoldable pub connect_peer : Inter → Peer → Bool → Inter × Reply
  unfolding route write_back
  connect_peer s p no_cidr =
      let (w, status) = add_inter_cluster_tunnel wgctrl s.tunnel p in
      after_add (record s { tunnel = w }) p no_cidr status

  -- The branch of a plain cluster: a peer with no CIDR has to wait, and the first CIDR of a peer that
  -- is not the hub is put on this pod. Any error of that is answered as "unavailable".
  unfoldable pub handle_as_cluster : Inter → Peer → List Text → Inter × Reply
  unfolding connect_peer
  handle_as_cluster s p [] = (s, retry_with unavailable)
  handle_as_cluster s p (cidr ∷ cidrs) =
      if is_nil cidr
      then (s, retry_with unavailable)
      else if text_eq p.name hub_name
      then connect_peer s p false
      else (let (k, status) = add_annotation_to_self pods s.local node_cidr_key cidr true in
          let s' = record s { local = k } in
          elim status [
            | done ↦ connect_peer s' p false
            | failed e ↦ (s', retry_with unavailable)
            | panicked ↦ (s', panics)
          ])

  -- The cached peer now has `cidrs`.
  abbrev pub cached : Inter → Peer → List Text → Inter
  cached s p cidrs = record s { cache = write_pod_cidr p.namespace p.name cidrs s.cache }

  -- The allocation of the hub: the cached peer gets a list of one empty text first, which stays there
  -- if no CIDR is available.
  unfoldable pub allocate : Inter → Peer → Result Text → Inter × Reply
  unfolding connect_peer
  allocate s p panic = (cached s p ([] ∷ []), panics)
  allocate s p (err e) = (cached s p ([] ∷ []), retry_with e)
  allocate s p (ok cidr) = connect_peer (cached s p (cidr ∷ [])) (with_pod_cidr p (cidr ∷ [])) true

  unfoldable pub handle_live : Inter → Peer → Inter × Reply
  unfolding handle_as_cluster allocate
  handle_live s p =
      if s.spec.as_cluster
      then handle_as_cluster s p p.spec.pod_cidr
      else if lacks_cidr p.spec.pod_cidr
      then allocate s p
          (find_tunnel_available_cidr s.spec.cidr (existing_cidrs p.namespace s.cache))
      else connect_peer s p false

  -- Handle, for a key that splits into a namespace and a name.
  unfoldable pub handle : Inter → Text → Text → Inter × Reply
  unfolding handle_live recycle_peer
  handle s namespace name = elim (get_peer namespace name s.cache) [
    | none ↦ recycle_peer s none
    | some p ↦ if p.deleting then recycle_peer s (some p) else handle_live s p
  ]
