-- ===== src/Controllers/Inner/Refused.antt =====
-- SpawnNewCIDRForNRIPod of pkg/controller/tunnels/innertunnel_controller.go when the server refuses the
-- pod's annotations.
use fleetboard.Prelude.{
  if◌then◌else◌, ◌∙◌, Bool-cases, inl, inr, List, ◌≡◌, refl, sym, ap, subst, [], ◌∷◌, some, true,
  Status, done, failed, panicked, ok, err, Error,
}
use fleetboard.Prelude.Text.{Text, text_eq_refl}
use fleetboard.Prelude.Dict.{Dict, lookup}
use fleetboard.Cidr.Blocks.{find_cluster_available_cidr}
use fleetboard.Pods.{Pod}
use fleetboard.Pods.Annotations.{annotate_one, annotate_one_override, annotate_two}
use fleetboard.Pods.Patch.{PodApi, set_specific_annotations_pod}
use fleetboard.Tunnel.Device.{Wgctrl}
use fleetboard.Tunnel.Config.{node_cidr_key, tunnel_cidr_key}
use fleetboard.Controllers.Routes.{Netlink}
use fleetboard.Controllers.Inner.{
  is_pod, get_cached_pod, store_pod, annotate_cached, keep_cidr, spawn, spawn_new_cidr_for_nri_pod,
}
use fleetboard.Controllers.Inner.Existing.{State, annotate_cached-SameList}

-- The stored pod is the one found.
get_cached_pod-store_pod :
    (q p : Pod) (pods : List Pod)
    → get_cached_pod q.namespace q.name pods ≡ some p
    → get_cached_pod q.namespace q.name (store_pod q pods) ≡ some q
unfolding get_cached_pod store_pod
get_cached_pod-store_pod q p [] h = cc
get_cached_pod-store_pod q p (x ∷ pods) h = elim (Bool-cases (is_pod q.namespace q.name x)) [
  | inl e ↦
      rw (e, store_pod) (rw (text_eq_refl q.namespace, text_eq_refl q.name, get_cached_pod) refl)
  | inr e ↦
      rw (e, store_pod)
        (rw (e, get_cached_pod)
          (get_cached_pod-store_pod q p pods (
            subst (λ b. (if b then some x else get_cached_pod q.namespace q.name pods) ≡ some p) e
              h)))
]

module _ (wgctrl : Wgctrl) (netlink : Netlink) (api : PodApi) where
  -- The controller's cache has the pod with this CIDR.
  pub record CachedWith (v : State wgctrl netlink api) (pod : Pod) (cidr : Text) : Type 0 where
    pub cached : Pod
    pub found : get_cached_pod pod.namespace pod.name v.pods ≡ some cached
    pub annotated : lookup node_cidr_key cached.annotations ≡ some cidr

  module _ (s : State wgctrl netlink api) (pod : Pod) (cidr : Text) where
    abbrev marked : (State wgctrl netlink api × Pod) × Status
    marked =
        annotate_cached wgctrl netlink api s pod (tunnel_cidr_key ∷ node_cidr_key ∷ [])
          (s.global_cidr ∷ cidr ∷ [])

    abbrev annotations : Dict Text
    annotations =
        annotate_one (annotate_one pod.annotations tunnel_cidr_key s.global_cidr true) node_cidr_key
          cidr true

    marked_pod : marked.0.1 ≡ record pod { annotations = annotations }
    unfolding annotate_cached
    marked_pod =
        set_specific_annotations_pod api s.server pod (tunnel_cidr_key ∷ node_cidr_key ∷ [])
          (s.global_cidr ∷ cidr ∷ []) true annotations
          (annotate_two pod.annotations tunnel_cidr_key node_cidr_key s.global_cidr cidr)

    marked_pods : marked.0.0.pods ≡ store_pod marked.0.1 s.pods
    unfolding annotate_cached
    marked_pods = refl

    marked-CachedWith :
        get_cached_pod pod.namespace pod.name s.pods ≡ some pod → CachedWith marked.0.0 pod cidr
    marked-CachedWith h = record {
      cached = record pod { annotations = annotations };
      found =
          subst
            (λ l.
              get_cached_pod pod.namespace pod.name l
              ≡ some (record pod { annotations = annotations }))
            (sym (marked_pods ∙ ap (λ q. store_pod q s.pods) marked_pod))
            (get_cached_pod-store_pod (record pod { annotations = annotations }) pod s.pods h);
      annotated =
          annotate_one_override (annotate_one pod.annotations tunnel_cidr_key s.global_cidr true)
            node_cidr_key cidr;
    }

    keep_cidr-err :
        (r : (State wgctrl netlink api × Pod) × Status) (e : Error)
        → (keep_cidr wgctrl netlink api cidr r).1 ≡ err e
        → (keep_cidr wgctrl netlink api cidr r).0 ≡ r.0
    keep_cidr-err ((v, q), done) e h = cc
    keep_cidr-err ((v, q), failed x) e h = refl
    keep_cidr-err ((v, q), panicked) e h = refl

    -- When the leader finds a free CIDR for a cached pod and the server refuses the pod's
    -- annotations, then the pod in the cache has the CIDR all the same, and the search finds the same
    -- CIDR again for the next pod.
    pub spawn_new_cidr_for_nri_pod-refused :
        (e : Error)
        → get_cached_pod pod.namespace pod.name s.pods ≡ some pod
        → find_cluster_available_cidr s.cluster_cidr s.existing_cidr ≡ ok cidr
        → (spawn_new_cidr_for_nri_pod wgctrl netlink api s pod).1 ≡ err e
        → CachedWith (spawn_new_cidr_for_nri_pod wgctrl netlink api s pod).0.0 pod cidr
          × (find_cluster_available_cidr
                (spawn_new_cidr_for_nri_pod wgctrl netlink api s pod).0.0.cluster_cidr
                (spawn_new_cidr_for_nri_pod wgctrl netlink api s pod).0.0.existing_cidr
              ≡ ok cidr)
    unfolding spawn_new_cidr_for_nri_pod
    spawn_new_cidr_for_nri_pod-refused e cached found h =
        let same =
          annotate_cached-SameList wgctrl netlink api s pod (tunnel_cidr_key ∷ node_cidr_key ∷ [])
            (s.global_cidr ∷ cidr ∷ []) in
        let E = spawned found in
        let kept = keep_cidr-err marked e (subst (λ r. r.1 ≡ err e) E h) in
        subst
          (λ r.
            CachedWith r.0.0 pod cidr
            × (find_cluster_available_cidr r.0.0.cluster_cidr r.0.0.existing_cidr ≡ ok cidr))
          (sym E)
          (subst
            (λ r.
              CachedWith r.0 pod cidr
              × (find_cluster_available_cidr r.0.cluster_cidr r.0.existing_cidr ≡ ok cidr))
            (sym kept)
            (
              marked-CachedWith cached,
              subst (λ l. find_cluster_available_cidr marked.0.0.cluster_cidr l ≡ ok cidr)
                  (sym same.existing)
                  (subst (λ l. find_cluster_available_cidr l s.existing_cidr ≡ ok cidr)
                    (sym same.cluster) found),
            ))
      where
        spawned :
            find_cluster_available_cidr s.cluster_cidr s.existing_cidr ≡ ok cidr
            → spawn_new_cidr_for_nri_pod wgctrl netlink api s pod
              ≡ keep_cidr wgctrl netlink api cidr marked
        spawned f = ap (spawn wgctrl netlink api s pod) f
