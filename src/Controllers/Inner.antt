-- ===== src/Controllers/Inner.antt =====
-- pkg/controller/tunnels/innertunnel_controller.go: the controller that follows the CNF pods of its
-- own cluster. The pods that the lister returns are those of the informer's cache: annotations that
-- the handler sets stay there, also when the server refuses them.
use fleetboard.Prelude.{
  ◌||◌, ◌>>=◌, Bool, true, false, not, ◌&&◌, List, [], ◌∷◌, ◌++◌, Option, none, some, if◌then◌else◌,
  is_nil, external, Status, done, failed, panicked, Result, ok, err, panic,
}
use fleetboard.Prelude.Text.{Text, codes, text_eq}
use fleetboard.Prelude.Dict.{Dict, lookup}
use fleetboard.Cidr.Blocks.{find_cluster_available_cidr}
use fleetboard.Pods.{Pod, is_pod_alive, is_running_and_has_ip}
use fleetboard.Pods.Annotations.{get_specific_annotation}
use fleetboard.Pods.Patch.{PodApi, set_specific_annotations, leader_label}
use fleetboard.Pods.ServiceCidr.{service_cidr_key, get_service_cidr_from_cnf_pod}
use fleetboard.Tunnel.Types.{DaemonConfig}
use fleetboard.Tunnel.Device.{Wgctrl}
use fleetboard.Tunnel.Config.{
  daemon_config_from_pod, node_cidr_key, tunnel_cidr_key, public_key_key,
}
use fleetboard.Tunnel.Connect.{
  Wireguard, remove_tunnel, add_inner_cluster_tunnel, get_existing_inner_connection,
  delete_existing_inner_connection,
}
use fleetboard.Controllers.Routes.{Netlink, add, remove, config_host_routing_rules}
use fleetboard.Controllers.Inter.{Reply, reply, panics, settled, retry_with}
pub mod Existing
pub mod Allocation
pub mod Connected
pub mod Leader
pub mod Refused

abbrev pub is_pod : Text → Text → Pod → Bool
is_pod namespace name p = text_eq p.namespace namespace && text_eq p.name name

-- podLister.Pods(namespace).Get(name)
unfoldable pub get_cached_pod : Text → Text → List Pod → Option Pod
get_cached_pod namespace name [] = none
get_cached_pod namespace name (p ∷ pods) =
    if is_pod namespace name p then some p else get_cached_pod namespace name pods

-- The pod as it is after its annotations were set in place.
unfoldable pub store_pod : Pod → List Pod → List Pod
store_pod q [] = []
store_pod q (p ∷ pods) = if is_pod q.namespace q.name p then q ∷ pods else p ∷ store_pod q pods

-- pod.Labels[known.LeaderCNFLabelKey] == "true"
abbrev pub labelled_leader : Pod → Bool
labelled_leader p = elim (lookup leader_label p.labels) [
  | none ↦ false
  | some v ↦ text_eq v (codes "true")
]

abbrev pub wait_again : Reply
wait_again = reply (some 2) none

-- Whose pods are followed, for the leader that is now current.
abbrev pub followed : Text → Text → Text → Bool
followed me current name =
    if text_eq me current
    then true
    else if text_eq name me || is_nil current
    then false
    else text_eq name current

module _ (wgctrl : Wgctrl) (netlink : Netlink) (api : PodApi) where
  -- The controller's fields, and the outside world that it acts on.
  pub record Inner : Type 0 where
    pub tunnel : Wireguard wgctrl
    pub existing_cidr : List Text
    pub cluster_cidr : Text
    pub global_cidr : Text
    pub leader : Text
    pub pods : List Pod
    pub table : Netlink.Table netlink
    pub server : PodApi.Server api

  -- Sets annotations of a cached pod, overriding those there are: the pod has them afterwards.
  unfoldable pub annotate_cached : Inner → Pod → List Text → List Text → (Inner × Pod) × Status
  annotate_cached s pod keys values =
      let r = set_specific_annotations api s.server pod keys values true in
      ((record s { server = r.0.0; pods = store_pod r.0.1 s.pods }, r.0.1), r.1)

  abbrev pub keep_cidr : Text → (Inner × Pod) × Status → (Inner × Pod) × Result Text
  keep_cidr cidr ((s, pod), done) =
      ((record s { existing_cidr = s.existing_cidr ++ (cidr ∷ []) }, pod), ok cidr)
  keep_cidr cidr ((s, pod), failed e) = ((s, pod), err e)
  keep_cidr cidr ((s, pod), panicked) = ((s, pod), panic)

  abbrev pub spawn : Inner → Pod → Result Text → (Inner × Pod) × Result Text
  spawn s pod panic = ((s, pod), panic)
  spawn s pod (err e) = ((s, pod), err e)
  spawn s pod (ok cidr) =
      keep_cidr cidr
        (annotate_cached s pod (tunnel_cidr_key ∷ node_cidr_key ∷ []) (s.global_cidr ∷ cidr ∷ []))

  -- SpawnNewCIDRForNRIPod
  unfoldable pub spawn_new_cidr_for_nri_pod : Inner → Pod → (Inner × Pod) × Result Text
  unfolding annotate_cached
  spawn_new_cidr_for_nri_pod s pod =
      spawn s pod (find_cluster_available_cidr s.cluster_cidr s.existing_cidr)

  abbrev pub after_remove : Inner → DaemonConfig → Status → Inner × Status
  after_remove s c done =
      let (t, status) = config_host_routing_rules netlink s.table c.secondary_cidr remove in
      (record s { table = t }, status)
  after_remove s c (failed e) = (s, failed e)
  after_remove s c panicked = (s, panicked)

  abbrev pub forget_rest : Inner → DaemonConfig → Wgctrl.Key wgctrl → List Text → Inner × Status
  forget_rest s c k [] = (s, panicked)
  forget_rest s c k (cidr ∷ cidrs) =
      let (w, status) = remove_tunnel wgctrl s.tunnel k in
      after_remove (record s { tunnel = w }) c status

  -- From the deletion of the connection on. What RemoveString returns is dropped; reading the first
  -- CIDR panics when there is none.
  unfoldable pub forget_connection : Inner → DaemonConfig → Wgctrl.Key wgctrl → Inner × Status
  forget_connection s c k =
      forget_rest (record s { tunnel = delete_existing_inner_connection wgctrl s.tunnel c.node_id })
        c k c.secondary_cidr

  abbrev pub recycle_found : Inner → DaemonConfig → List Text → Inner × Status
  recycle_found s c [] = (s, panicked)
  recycle_found s c (key ∷ keys) = elim (Wgctrl.parse_key wgctrl key) [
    | none ↦ (s, failed external)
    | some k ↦ forget_connection s c k
  ]

  -- recycleResources
  unfoldable pub recycle_resources : Inner → DaemonConfig → Inner × Status
  unfolding forget_connection
  recycle_resources s c = elim (get_existing_inner_connection wgctrl s.tunnel c.node_id) [
    | none ↦ (s, done)
    | some old ↦ recycle_found s c c.public_key
  ]

  -- Goes on with the controller unless there was a panic: an error is logged.
  abbrev pub unless_panicked : Inner × Status → (Inner → Inner × Status) → Inner × Status
  unless_panicked (s, done) f = f s
  unless_panicked (s, failed e) f = f s
  unless_panicked (s, panicked) f = (s, panicked)

  -- The loop of RecycleAllResources over the connections there are. A map is ranged over in any order.
  unfoldable pub recycle_each : Inner → Dict DaemonConfig → Inner × Status
  unfolding recycle_resources
  recycle_each s [] = (s, done)
  recycle_each s ((node, c) ∷ rest) =
      unless_panicked (recycle_resources s c) (λ v. recycle_each v rest)

  unfoldable pub recycle_all_resources : Inner → Inner × Status
  unfolding recycle_each
  recycle_all_resources s = recycle_each s s.tunnel.inner

  abbrev pub status_reply : Inner × Status → Inner × Reply
  status_reply (s, done) = (s, settled)
  status_reply (s, failed e) = (s, retry_with e)
  status_reply (s, panicked) = (s, panics)

  abbrev pub route_inner : Inner → DaemonConfig → Status → Inner × Reply
  route_inner s c done =
      let (t, status) = config_host_routing_rules netlink s.table c.secondary_cidr add in
      status_reply (record s { table = t }, status)
  route_inner s c (failed e) = (s, retry_with e)
  route_inner s c panicked = (s, panics)

  -- The last part of Handle: no tunnel to itself.
  unfoldable pub connect_pod : Inner → Pod → DaemonConfig → Inner × Reply
  connect_pod s pod c =
      if text_eq s.tunnel.spec.pod_name pod.name
      then (s, settled)
      else (let (w, status) = add_inner_cluster_tunnel wgctrl s.tunnel c in
          route_inner (record s { tunnel = w }) c status)

  abbrev pub after_service : DaemonConfig → (Inner × Pod) × Status → Inner × Reply
  after_service c ((s, pod), done) = connect_pod s pod c
  after_service c ((s, pod), failed e) = (s, retry_with e)
  after_service c ((s, pod), panicked) = (s, panics)

  abbrev pub with_service : Inner → Pod → DaemonConfig → Result Text → Inner × Reply
  with_service s pod c panic = (s, panics)
  with_service s pod c (err e) = (s, retry_with e)
  with_service s pod c (ok cidr) =
      if is_nil cidr
      then (s, wait_again)
      else after_service (record c { service_cidr = cidr ∷ [] })
          (annotate_cached s pod (service_cidr_key ∷ []) (cidr ∷ []))

  -- The part of Handle about the service CIDR.
  unfoldable pub handle_service : Inner → Pod → Bool → DaemonConfig → Inner × Reply
  unfolding annotate_cached connect_pod
  handle_service s pod is_leader c =
      if not (is_nil c.service_cidr)
      then connect_pod s pod c
      else if is_leader
      then with_service s pod c (get_service_cidr_from_cnf_pod api s.server)
      else (s, wait_again)

  abbrev pub after_spawn : DaemonConfig → (Inner × Pod) × Result Text → Inner × Reply
  after_spawn c ((s, pod), panic) = (s, panics)
  after_spawn c ((s, pod), err e) = (s, retry_with e)
  after_spawn c ((s, pod), ok cidr) =
      if text_eq c.pod_id s.tunnel.spec.pod_name
      then (s, settled)
      else handle_service s pod true (record c { secondary_cidr = cidr ∷ [] })

  -- The part of Handle for a pod that is alive.
  unfoldable pub handle_alive : Inner → Pod → Bool → DaemonConfig → Inner × Reply
  unfolding spawn_new_cidr_for_nri_pod handle_service
  handle_alive s pod is_leader c =
      if not (is_nil c.secondary_cidr)
      then handle_service s pod is_leader c
      else if is_leader
      then after_spawn c (spawn_new_cidr_for_nri_pod s pod)
      else (s, wait_again)

  -- Handle, for a key that splits into a namespace and a name.
  unfoldable pub handle_pod : Inner → Text → Text → Inner × Reply
  unfolding handle_alive recycle_resources
  handle_pod s namespace name = elim (get_cached_pod namespace name s.pods) [
    | none ↦ (s, settled)
    | some pod ↦
        let is_leader = text_eq s.tunnel.spec.pod_name s.leader in
        let c = daemon_config_from_pod pod is_leader in
        if is_pod_alive pod
        then handle_alive s pod is_leader c
        else status_reply (recycle_resources s c)
  ]

  -- ShouldHandlerPod. A new leader is used for this answer only: it is not stored.
  unfoldable pub should_handler_pod : Inner → Pod → Inner × Result Bool
  unfolding recycle_all_resources
  should_handler_pod s pod =
      let me = s.tunnel.spec.pod_name in
      if is_nil s.leader
      then (if labelled_leader pod
          then (record s { leader = pod.name }, ok (followed me pod.name pod.name))
          else (s, ok false))
      else if labelled_leader pod && not (text_eq s.leader pod.name)
      then (let r = recycle_all_resources s in
          elim r.1 [ panicked ↦ (r.0, panic) | other ↦ (r.0, ok (followed me pod.name pod.name)) ])
      else (s, ok (followed me s.leader pod.name))

  -- The enqueue filter, on a deletion (`true`) or on any other event.
  unfoldable pub should_enqueue_pod : Inner → Bool → Pod → Inner × Result Bool
  unfolding should_handler_pod
  should_enqueue_pod s true pod = should_handler_pod s pod
  should_enqueue_pod s false pod =
      let r = should_handler_pod s pod in
      (
        r.0,
        (do
          b ← r.1
          ok (
              b
              && is_running_and_has_ip pod
              && not (is_nil (get_specific_annotation pod.annotations (public_key_key ∷ []))))),
      )
