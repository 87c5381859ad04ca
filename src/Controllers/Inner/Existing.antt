-- ===== src/Controllers/Inner/Existing.antt =====
-- Which parts of pkg/controller/tunnels/innertunnel_controller.go leave the list of CIDRs in use alone.
use fleetboard.Prelude.{
  ◌≡◌, refl, ◌∙◌, List, [], ◌∷◌, Bool, true, false, Status, done, failed, panicked, Result, ok, err,
  panic, inl, inr, Bool-cases, Option-cases, not, is_nil,
}
use fleetboard.Prelude.Text.{Text, text_eq}
use fleetboard.Prelude.Dict.{Dict}
use fleetboard.Pods.{Pod}
use fleetboard.Pods.Patch.{PodApi}
use fleetboard.Pods.ServiceCidr.{service_cidr_key, get_service_cidr_from_cnf_pod}
use fleetboard.Prelude.{if◌then◌else◌}
use fleetboard.Controllers.Inner.{wait_again, forget_rest, unless_panicked}
use fleetboard.Tunnel.Types.{DaemonConfig}
use fleetboard.Tunnel.Device.{Wgctrl}
use fleetboard.Tunnel.Connect.{
  remove_tunnel, delete_existing_inner_connection, add_inner_cluster_tunnel,
  get_existing_inner_connection,
}
use fleetboard.Controllers.Routes.{Netlink, add, config_host_routing_rules}
use fleetboard.Controllers.Inner.{
  Inner, annotate_cached, after_remove, forget_connection, recycle_found, recycle_resources,
  recycle_each, recycle_all_resources, status_reply, route_inner, connect_pod, after_service,
  with_service, handle_service,
}

module _ (wgctrl : Wgctrl) (netlink : Netlink) (api : PodApi) where
  abbrev pub State : Type 0
  State = Inner wgctrl netlink api

  -- The list of CIDRs in use and the leader are those of `s`.
  pub record SameList (s v : State) : Type 0 where
    pub existing : v.existing_cidr ≡ s.existing_cidr
    pub leader : v.leader ≡ s.leader
    pub cluster : v.cluster_cidr ≡ s.cluster_cidr

  same_itself : (s : State) → SameList s s
  same_itself s = record { existing = refl; leader = refl; cluster = refl }

  same_trans : {s v u : State} → SameList s v → SameList v u → SameList s u
  same_trans a b = record {
    existing = b.existing ∙ a.existing;
    leader = b.leader ∙ a.leader;
    cluster = b.cluster ∙ a.cluster;
  }

  pub annotate_cached-SameList :
      (s : State) (pod : Pod) (keys values : List Text)
      → SameList s (annotate_cached wgctrl netlink api s pod keys values).0.0
  unfolding annotate_cached
  annotate_cached-SameList s pod keys values = record {
    existing = refl;
    leader = refl;
    cluster = refl;
  }

  pub status_reply-SameList :
      (s : State) (r : State × Status)
      → SameList s r.0
      → SameList s (status_reply wgctrl netlink api r).0
  status_reply-SameList s (v, done) same = same
  status_reply-SameList s (v, failed e) same = same
  status_reply-SameList s (v, panicked) same = same

  route_inner-SameList :
      (s v : State) (c : DaemonConfig) (st : Status)
      → SameList s v
      → SameList s (route_inner wgctrl netlink api v c st).0
  route_inner-SameList s v c done same =
      status_reply-SameList s
        (
          record v { table = (config_host_routing_rules netlink v.table c.secondary_cidr add).0 },
          (config_host_routing_rules netlink v.table c.secondary_cidr add).1,
        )
        (record { existing = same.existing; leader = same.leader; cluster = same.cluster })
  route_inner-SameList s v c (failed e) same = same
  route_inner-SameList s v c panicked same = same

  pub connect_pod-SameList :
      (s : State) (pod : Pod) (c : DaemonConfig)
      → SameList s (connect_pod wgctrl netlink api s pod c).0
  unfolding connect_pod
  connect_pod-SameList s pod c = elim (Bool-cases (text_eq s.tunnel.spec.pod_name pod.name)) [
    | inl e ↦ rw (e, connect_pod) (same_itself s)
    | inr e ↦
        rw (e, connect_pod)
          (route_inner-SameList s
            (record s { tunnel = (add_inner_cluster_tunnel wgctrl s.tunnel c).0 }) c
            (add_inner_cluster_tunnel wgctrl s.tunnel c).1
            (record { existing = refl; leader = refl; cluster = refl }))
  ]

  after_remove-SameList :
      (s v : State) (c : DaemonConfig) (st : Status)
      → SameList s v
      → SameList s (after_remove wgctrl netlink api v c st).0
  after_remove-SameList s v c done same = record {
    existing = same.existing;
    leader = same.leader;
    cluster = same.cluster;
  }
  after_remove-SameList s v c (failed e) same = same
  after_remove-SameList s v c panicked same = same

  forget_connection-SameList :
      (s : State) (c : DaemonConfig) (k : Wgctrl.Key wgctrl)
      → SameList s (forget_connection wgctrl netlink api s c k).0
  unfolding forget_connection
  forget_connection-SameList s c k = goes c.secondary_cidr
    where
      goes :
          (cidrs : List Text)
          → SameList s
              (forget_rest wgctrl netlink api
                (record s { tunnel = delete_existing_inner_connection wgctrl s.tunnel c.node_id })
                c
                k
                cidrs).0
      goes [] = record { existing = refl; leader = refl; cluster = refl }
      goes (cidr ∷ cidrs) =
          after_remove-SameList s
            (record s {
              tunnel =
                  (remove_tunnel wgctrl (delete_existing_inner_connection wgctrl s.tunnel c.node_id)
                    k).0;
            })
            c
            (remove_tunnel wgctrl (delete_existing_inner_connection wgctrl s.tunnel c.node_id) k).1
            (record { existing = refl; leader = refl; cluster = refl })

  recycle_found-SameList :
      (s : State) (c : DaemonConfig) (keys : List Text)
      → SameList s (recycle_found wgctrl netlink api s c keys).0
  recycle_found-SameList s c [] = same_itself s
  recycle_found-SameList s c (key ∷ keys) = elim (Option-cases (Wgctrl.parse_key wgctrl key)) [
    | inl e ↦ rw (e, recycle_found) (same_itself s)
    | inr (k, e) ↦ rw (e, recycle_found) (forget_connection-SameList s c k)
  ]

  pub recycle_resources-SameList :
      (s : State) (c : DaemonConfig) → SameList s (recycle_resources wgctrl netlink api s c).0
  unfolding recycle_resources
  recycle_resources-SameList s c =
      elim (Option-cases (get_existing_inner_connection wgctrl s.tunnel c.node_id)) [
        | inl e ↦ rw (e, recycle_resources) (same_itself s)
        | inr (old, e) ↦ rw (e, recycle_resources) (recycle_found-SameList s c c.public_key)
      ]

  after_service-SameList :
      (s : State) (c : DaemonConfig) (r : (State × Pod) × Status)
      → SameList s r.0.0
      → SameList s (after_service wgctrl netlink api c r).0
  after_service-SameList s c ((v, pod), done) same = same_trans same (connect_pod-SameList v pod c)
  after_service-SameList s c ((v, pod), failed e) same = same
  after_service-SameList s c ((v, pod), panicked) same = same

  with_service-SameList :
      (s : State) (pod : Pod) (c : DaemonConfig) (r : Result Text)
      → SameList s (with_service wgctrl netlink api s pod c r).0
  with_service-SameList s pod c panic = same_itself s
  with_service-SameList s pod c (err e) = same_itself s
  with_service-SameList s pod c (ok []) = same_itself s
  with_service-SameList s pod c (ok (x ∷ cidr)) =
      after_service-SameList s (record c { service_cidr = (x ∷ cidr) ∷ [] })
        (annotate_cached wgctrl netlink api s pod (service_cidr_key ∷ []) ((x ∷ cidr) ∷ []))
        (annotate_cached-SameList s pod _ _)

  pub handle_service-SameList :
      (s : State) (pod : Pod) (b : Bool) (c : DaemonConfig)
      → SameList s (handle_service wgctrl netlink api s pod b c).0
  unfolding handle_service
  handle_service-SameList s pod b c = of_test (not (is_nil c.service_cidr)) b
    where
      of_test :
          (t b : Bool)
          → SameList s
              (if t
                then connect_pod wgctrl netlink api s pod c
                else if b
                then with_service wgctrl netlink api s pod c
                    (get_service_cidr_from_cnf_pod api s.server)
                else (s, wait_again)).0
      of_test true b = connect_pod-SameList s pod c
      of_test false true =
          with_service-SameList s pod c (get_service_cidr_from_cnf_pod api s.server)
      of_test false false = same_itself s

  unless_panicked-SameList :
      (s : State) (r : State × Status) (f : State → State × Status)
      → SameList s r.0
      → SameList r.0 (f r.0).0
      → SameList s (unless_panicked wgctrl netlink api r f).0
  unless_panicked-SameList s (v, done) f same later = same_trans same later
  unless_panicked-SameList s (v, failed e) f same later = same_trans same later
  unless_panicked-SameList s (v, panicked) f same later = same

  recycle_each-SameList :
      (s : State) (m : Dict DaemonConfig) → SameList s (recycle_each wgctrl netlink api s m).0
  unfolding recycle_each
  recycle_each-SameList s [] = same_itself s
  recycle_each-SameList s ((node, c) ∷ rest) =
      unless_panicked-SameList s (recycle_resources wgctrl netlink api s c)
        (λ v. recycle_each wgctrl netlink api v rest) (recycle_resources-SameList s c)
        (recycle_each-SameList (recycle_resources wgctrl netlink api s c).0 rest)

  pub recycle_all_resources-SameList :
      (s : State) → SameList s (recycle_all_resources wgctrl netlink api s).0
  unfolding recycle_all_resources
  recycle_all_resources-SameList s = recycle_each-SameList s s.tunnel.inner
