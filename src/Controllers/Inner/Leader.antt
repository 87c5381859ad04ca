-- ===== src/Controllers/Inner/Leader.antt =====
-- ShouldHandlerPod of pkg/controller/tunnels/innertunnel_controller.go: which pod counts as the leader.
use fleetboard.Prelude.{
  ap, ◌∙◌, ◌≡◌, refl, Bool, true, false, not, ◌&&◌, Status, done, failed, panicked, Result, ok,
  panic, is_nil, if◌then◌else◌,
}
use fleetboard.Prelude.Text.{text_eq}
use fleetboard.Pods.{Pod}
use fleetboard.Pods.Patch.{PodApi}
use fleetboard.Tunnel.Device.{Wgctrl}
use fleetboard.Controllers.Routes.{Netlink}
use fleetboard.Controllers.Inner.{
  followed, labelled_leader, recycle_all_resources, should_handler_pod,
}
use fleetboard.Controllers.Inner.Existing.{State, recycle_all_resources-SameList}

module _ (wgctrl : Wgctrl) (netlink : Netlink) (api : PodApi) where
  -- When a pod counts as the leader, that stays so, also when another pod carries the label of the
  -- leader; the list of CIDRs in use stays as it is as well. When no pod counts as the leader, a pod
  -- with the label becomes it.
  pub should_handler_pod_leader :
      (s : State wgctrl netlink api) (pod : Pod)
      → ((should_handler_pod wgctrl netlink api s pod).0.leader
          ≡ (if is_nil s.leader && labelled_leader pod then pod.name else s.leader))
        × ((should_handler_pod wgctrl netlink api s pod).0.existing_cidr ≡ s.existing_cidr)
  unfolding should_handler_pod
  should_handler_pod_leader s pod =
      of_tests (is_nil s.leader) (labelled_leader pod) (not (text_eq s.leader pod.name))
    where
      recycled : State wgctrl netlink api × Status
      recycled = recycle_all_resources wgctrl netlink api s

      answered : State wgctrl netlink api × Status → State wgctrl netlink api × Result Bool
      answered r = elim r.1 [
        | panicked ↦ (r.0, panic)
        | other ↦ (r.0, ok (followed s.tunnel.spec.pod_name pod.name pod.name))
      ]

      answered_state : (r : State wgctrl netlink api × Status) → (answered r).0 ≡ r.0
      answered_state (v, done) = refl
      answered_state (v, failed e) = refl
      answered_state (v, panicked) = refl

      of_tests :
          (a b d : Bool)
          → ((if a
                then (if b
                    then (
                      record s { leader = pod.name },
                      ok (followed s.tunnel.spec.pod_name pod.name pod.name),
                    )
                    else (s, ok false))
                else if b && d
                then answered recycled
                else (s, ok (followed s.tunnel.spec.pod_name s.leader pod.name))).0.leader
              ≡ (if a && b then pod.name else s.leader))
            × ((if a
                  then (if b
                      then (
                        record s { leader = pod.name },
                        ok (followed s.tunnel.spec.pod_name pod.name pod.name),
                      )
                      else (s, ok false))
                  else if b && d
                  then answered recycled
                  else (s, ok (followed s.tunnel.spec.pod_name s.leader pod.name))).0.existing_cidr
                ≡ s.existing_cidr)
      of_tests true true d = (refl, refl)
      of_tests true false d = (refl, refl)
      of_tests false true true =
          let same = recycle_all_resources-SameList wgctrl netlink api s in
          (
            ap (λ v. v.leader) (answered_state recycled) ∙ same.leader,
            ap (λ v. v.existing_cidr) (answered_state recycled) ∙ same.existing,
          )
      of_tests false true false = (refl, refl)
      of_tests false false d = (refl, refl)
