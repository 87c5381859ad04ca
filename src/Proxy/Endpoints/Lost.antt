-- ===== src/Proxy/Endpoints/Lost.antt =====
-- What is found in the endpoints map after changes of one service port by two trackers. The trackers go
-- by the label of package discovery, which has the name of the exporting cluster in it, and the ports by
-- the name of the import, which is the same for all clusters.
use fleetboard.Prelude.{
  ◌≡◌, ◌∙◌, refl, List, [], ◌∷◌, none, some, if◌then◌else◌, inl, inr, Bool-cases,
}
use fleetboard.Prelude.Keyed.{find, find-put, find-drop, find-cons, find-nil}
use fleetboard.Proxy.Ports.{ServicePortName, same_port, port_equal}
use fleetboard.Proxy.Slices.{BaseEndpointInfo}
use fleetboard.Proxy.Changes.{is_some}
use fleetboard.Proxy.Changes.Found.{or_else}
use fleetboard.Proxy.Endpoints.{
  EndpointsMap, EndpointsChange, merge_endpoints, unmerge_endpoints, apply_endpoints,
}

find-merge_endpoints :
    (j : ServicePortName) (m other : EndpointsMap)
    → find j (merge_endpoints m other) ≡ or_else (find j other) (find j m)
unfolding merge_endpoints port_equal
find-merge_endpoints j m [] = rw (find-nil j) refl
find-merge_endpoints j m ((k, v) ∷ other) = elim (Bool-cases (same_port k j)) [
  | inl e ↦ find-put k j v (merge_endpoints m other) ∙ rw (find-cons k j v other, e) refl
  | inr e ↦
      find-put k j v (merge_endpoints m other)
      ∙ rw (find-cons k j v other, e) (find-merge_endpoints j m other)
]

find-unmerge_endpoints :
    (j : ServicePortName) (m other : EndpointsMap)
    → find j (unmerge_endpoints m other) ≡ (if is_some (find j other) then none else find j m)
unfolding unmerge_endpoints port_equal
find-unmerge_endpoints j m [] = rw (find-nil j) refl
find-unmerge_endpoints j m ((k, v) ∷ other) = elim (Bool-cases (same_port k j)) [
  | inl e ↦ find-drop k j (unmerge_endpoints m other) ∙ rw (find-cons k j v other, e) refl
  | inr e ↦
      find-drop k j (unmerge_endpoints m other)
      ∙ rw (find-cons k j v other, e) (find-unmerge_endpoints j m other)
]

find-apply_endpoints :
    (j : ServicePortName) (m : EndpointsMap) (change : EndpointsChange)
    → find j (apply_endpoints m change)
      ≡ or_else
          (find j change.current)
          (if is_some (find j change.previous) then none else find j m)
unfolding apply_endpoints
find-apply_endpoints j m change =
    find-merge_endpoints j (unmerge_endpoints m change.previous) change.current
    ∙ rw (find-unmerge_endpoints j m change.previous) refl

module _ (j : ServicePortName) (m : EndpointsMap) (first second : EndpointsChange) where
  -- Two changes, such as those of two exporting clusters, are applied one after the other. When the
  -- second has endpoints for a service port, these are all that is found for the port afterwards; when
  -- it had some and has none any more, nothing is found for the port. In neither case the endpoints of
  -- the first make a difference.
  pub apply_endpoints_last :
      (endpoints : List BaseEndpointInfo)
      → (find j second.current ≡ some endpoints
          → find j (apply_endpoints (apply_endpoints m first) second) ≡ some endpoints)
        × (find j second.current ≡ none
            → find j second.previous ≡ some endpoints
            → find j (apply_endpoints (apply_endpoints m first) second) ≡ none)
  apply_endpoints_last endpoints = (
    (λ e. find-apply_endpoints j (apply_endpoints m first) second ∙ rw e refl),
    (λ e p. find-apply_endpoints j (apply_endpoints m first) second ∙ rw (e, p) refl),
  )
