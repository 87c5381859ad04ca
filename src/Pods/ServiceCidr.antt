-- ===== src/Pods/ServiceCidr.antt =====
-- GetServiceCIDRFromCNFPod of utils/endpointslice.go.
use fleetboard.Prelude.{List, [], ◌∷◌, if◌then◌else◌, is_nil, Result, ok, err, panic, external}
use fleetboard.Prelude.Text.{Text, codes}
use fleetboard.Pods.{Pod}
use fleetboard.Pods.Annotations.{get_specific_annotation}
use fleetboard.Pods.Patch.{PodApi}

-- known.FleetboardServiceCIDR, known.FleetboardSystemNamespace and known.LabelCNFPod
abbrev pub service_cidr_key : Text
service_cidr_key = codes "fleetboard.io/service_cidr"

abbrev pub system_namespace : Text
system_namespace = codes "fleetboard-system"

abbrev pub cnf_pod_label : Text
cnf_pod_label = codes "app=cnf-fleetboard"

abbrev pub first_or_empty : List Text → Text
first_or_empty [] = []
first_or_empty (t ∷ ts) = t

-- The loop: the first CIDR of the first pod that has one.
unfoldable pub first_service_cidr : List Pod → Text
first_service_cidr [] = []
first_service_cidr (pod ∷ pods) =
    let rest = first_service_cidr pods in
    let cidr = first_or_empty (get_specific_annotation pod.annotations (service_cidr_key ∷ [])) in
    if is_nil cidr then rest else cidr

abbrev service_cidr_of : Result (List Pod) → Result Text
service_cidr_of panic = panic
service_cidr_of (err e) = err external
service_cidr_of (ok pods) = ok (first_service_cidr pods)

unfoldable pub get_service_cidr_from_cnf_pod : (api : PodApi) → PodApi.Server api → Result Text
get_service_cidr_from_cnf_pod api s =
    service_cidr_of (PodApi.list_pods api s system_namespace cnf_pod_label)
