-- ===== src/Controllers/Inner/Allocation.antt =====
-- The CIDRs that pkg/controller/tunnels/innertunnel_controller.go gives to the nodes of its cluster.
use fleetboard.Prelude.{
  ℕ, ◌≤◌, All-append, if◌then◌else◌, ◌≡◌, refl, sym, subst, List, [], ◌∷◌, ◌++◌, some, Bool, true,
  false, Status, done, failed, panicked, Result, ok, err, panic, inl, inr, Bool-cases, Option-cases,
  not, is_nil, All, Elem, arith, >>=-eq-ok,
}
use fleetboard.Prelude.Text.{Text, text_eq}
use fleetboard.Net.Addr.{IpNet, contains}
use fleetboard.Net.Format.{parse_cidr}
use fleetboard.Cidr.Divide.{divide_cluster_network, cluster_bits}
use fleetboard.Cidr.Blocks.{find_cluster_available_cidr, find_available_cidr}
use fleetboard.Cidr.Blocks.Disjoint.{find_available_cidr-disjoint}
use fleetboard.Pods.{Pod, is_pod_alive}
use fleetboard.Pods.Patch.{PodApi}
use fleetboard.Tunnel.Types.{DaemonConfig}
use fleetboard.Tunnel.Device.{Wgctrl}
use fleetboard.Tunnel.Config.{node_cidr_key, tunnel_cidr_key, daemon_config_from_pod}
use fleetboard.Controllers.Routes.{Netlink}
use fleetboard.Controllers.Inner.{
  annotate_cached, keep_cidr, spawn, spawn_new_cidr_for_nri_pod, after_spawn, handle_alive,
  handle_service, handle_pod, get_cached_pod, wait_again, recycle_resources, status_reply,
}
use fleetboard.Controllers.Inner.Existing.{
  State, annotate_cached-SameList, handle_service-SameList, recycle_resources-SameList,
  status_reply-SameList,
}

-- Two texts name networks that have an address in common.
pub record Shares (e t : Text) : Type 0 where
  pub address : ℕ
  pub e_ip : ℕ
  pub t_ip : ℕ
  pub e_net : IpNet
  pub t_net : IpNet
  pub e_parsed : parse_cidr e ≡ some (e_ip, e_net)
  pub t_parsed : parse_cidr t ≡ some (t_ip, t_net)
  pub in_e : contains e_net address ≡ true
  pub in_t : contains t_net address ≡ true

-- No two entries of a list share an address.
abbrev pub PairwiseApart : List Text → Type 0
PairwiseApart [] = Unit
PairwiseApart (e ∷ cidrs) = All (λ t. ¬ Shares e t) cidrs × PairwiseApart cidrs

PairwiseApart-append :
    (cidrs : List Text) (t : Text)
    → PairwiseApart cidrs
    → ((e : Text) → Elem e cidrs → ¬ Shares e t)
    → PairwiseApart (cidrs ++ (t ∷ []))
PairwiseApart-append [] t _ h = (tt, tt)
PairwiseApart-append (e ∷ cidrs) t (first, rest) h = (
  All-append (λ u. ¬ Shares e u) cidrs (t ∷ []) first (h e (inl refl), tt),
  PairwiseApart-append cidrs t rest (λ x m. h x (inr m)),
)

cluster_bits_le : (cluster : Text) (bits : ℕ) → divide_cluster_network cluster ≡ ok bits → bits ≤ 32
unfolding divide_cluster_network cluster_bits
cluster_bits_le cluster bits h = ground arith

-- A subnet for a node shares no address with any CIDR in use.
pub find_cluster_available_cidr-Shares :
    (cluster : Text) (existing : List Text) (t e : Text)
    → find_cluster_available_cidr cluster existing ≡ ok t
    → Elem e existing
    → ¬ Shares e t
unfolding find_cluster_available_cidr
find_cluster_available_cidr-Shares cluster existing t e h m both =
    let (bits, divided, found) =
      >>=-eq-ok (divide_cluster_network cluster) (λ bits. find_available_cidr cluster existing bits)
        h in
    let apart =
      find_available_cidr-disjoint cluster existing bits both.address e
        (cluster_bits_le cluster bits divided) found m both.e_parsed both.t_parsed both.in_e in
    clash both.in_t apart
  where
    clash : {b : Bool} → b ≡ true → b ≡ false → ⊥
    clash e f = cc

module _ (wgctrl : Wgctrl) (netlink : Netlink) (api : PodApi) where
  keep_cidr-PairwiseApart :
      (cidr : Text) (r : (State wgctrl netlink api × Pod) × Status)
      → PairwiseApart r.0.0.existing_cidr
      → ((e : Text) → Elem e r.0.0.existing_cidr → ¬ Shares e cidr)
      → PairwiseApart (keep_cidr wgctrl netlink api cidr r).0.0.existing_cidr
  keep_cidr-PairwiseApart cidr ((s, pod), done) before h =
      PairwiseApart-append s.existing_cidr cidr before h
  keep_cidr-PairwiseApart cidr ((s, pod), failed e) before h = before
  keep_cidr-PairwiseApart cidr ((s, pod), panicked) before h = before

  spawn-PairwiseApart :
      (s : State wgctrl netlink api) (pod : Pod) (r : Result Text)
      → find_cluster_available_cidr s.cluster_cidr s.existing_cidr ≡ r
      → PairwiseApart s.existing_cidr
      → PairwiseApart (spawn wgctrl netlink api s pod r).0.0.existing_cidr
  spawn-PairwiseApart s pod panic e before = before
  spawn-PairwiseApart s pod (err x) e before = before
  spawn-PairwiseApart s pod (ok cidr) e before =
      let r =
        annotate_cached wgctrl netlink api s pod (tunnel_cidr_key ∷ node_cidr_key ∷ [])
          (s.global_cidr ∷ cidr ∷ []) in
      let same =
        (annotate_cached-SameList wgctrl netlink api s pod (tunnel_cidr_key ∷ node_cidr_key ∷ [])
          (s.global_cidr ∷ cidr ∷ [])).existing in
      keep_cidr-PairwiseApart cidr r (subst PairwiseApart (sym same) before) (λ x m.
        find_cluster_available_cidr-Shares s.cluster_cidr s.existing_cidr cidr x e
          (subst (Elem x) same m))

  after_spawn-PairwiseApart :
      (c : DaemonConfig) (r : (State wgctrl netlink api × Pod) × Result Text)
      → PairwiseApart r.0.0.existing_cidr
      → PairwiseApart (after_spawn wgctrl netlink api c r).0.existing_cidr
  after_spawn-PairwiseApart c ((s, pod), panic) before = before
  after_spawn-PairwiseApart c ((s, pod), err e) before = before
  after_spawn-PairwiseApart c ((s, pod), ok cidr) before =
      elim (Bool-cases (text_eq c.pod_id s.tunnel.spec.pod_name)) [
        | inl e ↦ rw (e, after_spawn) before
        | inr e ↦
            rw (e, after_spawn)
              (subst PairwiseApart
                (sym
                  (handle_service-SameList wgctrl netlink api s pod true
                    (record c { secondary_cidr = cidr ∷ [] })).existing)
                before)
      ]

  handle_alive-PairwiseApart :
      (s : State wgctrl netlink api) (pod : Pod) (b : Bool) (c : DaemonConfig)
      → PairwiseApart s.existing_cidr
      → PairwiseApart (handle_alive wgctrl netlink api s pod b c).0.existing_cidr
  unfolding handle_alive spawn_new_cidr_for_nri_pod
  handle_alive-PairwiseApart s pod b c before = of_test (not (is_nil c.secondary_cidr)) b
    where
      of_test :
          (t d : Bool)
          → PairwiseApart
              (if t
                then handle_service wgctrl netlink api s pod b c
                else if d
                then after_spawn wgctrl netlink api c
                    (spawn_new_cidr_for_nri_pod wgctrl netlink api s pod)
                else (s, wait_again)).0.existing_cidr
      of_test true d =
          subst PairwiseApart (sym (handle_service-SameList wgctrl netlink api s pod b c).existing)
            before
      of_test false true =
          after_spawn-PairwiseApart c
            (spawn wgctrl netlink api s pod
              (find_cluster_available_cidr s.cluster_cidr s.existing_cidr))
            (spawn-PairwiseApart s pod (find_cluster_available_cidr s.cluster_cidr s.existing_cidr)
              refl before)
      of_test false false = before

  -- When no two of the CIDRs in use share an address, then none do after Handle of any pod either,
  -- however it ends.
  pub handle_pod-PairwiseApart :
      (s : State wgctrl netlink api) (namespace name : Text)
      → PairwiseApart s.existing_cidr
      → PairwiseApart (handle_pod wgctrl netlink api s namespace name).0.existing_cidr
  unfolding handle_pod
  handle_pod-PairwiseApart s namespace name before =
      elim (Option-cases (get_cached_pod namespace name s.pods)) [
        | inl e ↦ rw (e, handle_pod) before
        | inr (pod, e) ↦ elim (Bool-cases (is_pod_alive pod)) [
          | inl alive ↦ rw (e, alive, handle_pod) (handle_alive-PairwiseApart s pod _ _ before)
          | inr dead ↦ rw (e, dead, handle_pod) (recycled pod)
        ]
      ]
    where
      recycled :
          (pod : Pod)
          → PairwiseApart
              (status_reply wgctrl netlink api (
                recycle_resources wgctrl netlink api s (
                  daemon_config_from_pod pod
                    (text_eq s.tunnel.spec.pod_name s.leader)))).0.existing_cidr
      recycled pod =
          let r =
            recycle_resources wgctrl netlink api s
              (daemon_config_from_pod pod (text_eq s.tunnel.spec.pod_name s.leader)) in
          subst PairwiseApart
            (sym
              (status_reply-SameList wgctrl netlink api s r (
                recycle_resources-SameList wgctrl netlink api s
                  (daemon_config_from_pod pod (text_eq s.tunnel.spec.pod_name s.leader)))).existing)
            before
