-- ===== src/Services/Imports/Handler.antt =====
-- Handle of pkg/controller/mcs/serviceimport_controller.go, for a key that names a namespace and a name,
-- and for a schedule of its goroutines.
use fleetboard.Prelude.{
  ℕ, Bool, true, false, List, [], ◌∷◌, Option, none, some, if◌then◌else◌, Error, not_found, Status,
  done, failed, panicked, Result, ok, err, panic,
}
use fleetboard.Prelude.Text.{Text, codes}
use fleetboard.Prelude.Dict.{Dict}
use fleetboard.Controllers.Inter.{Reply, reply, panics, settled}
use fleetboard.Services.Api.{SliceApi, Slice}
use fleetboard.Services.Sync.{sync_slices}
use fleetboard.Services.Imports.{
  Import, Cluster, fork_endpoint_slice, add_initial_info, recycle_service_import,
}

-- known.LabelServiceName and known.LabelServiceNameSpace
abbrev pub label_service_name : Text
label_service_name = codes "services.fleetboard.io/multi-cluster-service-name"

abbrev pub label_service_namespace : Text
label_service_namespace = codes "services.fleetboard.io/multi-cluster-service-LocalNamespace"

-- srcLabelMap and dstLabelMap
abbrev pub import_labels : Import → Dict Text
import_labels si = (label_service_name, si.name) ∷ (label_service_namespace, si.namespace) ∷ []

-- Of the controller: the lister of the slices that were synced into the cluster, and their namespace.
pub record Origin : Type 0 where
  pub operator_namespace : Text
  pub slices : Text → Dict Text → Result (List Slice)

abbrev pub fork_into : Text → Slice → Slice
fork_into namespace s = fork_endpoint_slice s namespace

module _ (cluster : Cluster) (api : SliceApi (Cluster.State cluster)) (origin : Origin)
    (schedule : List ℕ) where
  open cluster use {State, update_import}

  abbrev pub recycled : State × Status → State × Reply
  recycled (t, done) = (t, settled)
  recycled (t, failed e) = (t, reply (some 1) (some e))
  recycled (t, panicked) = (t, panics)

  abbrev pub sync_import : State → Text → Import → State × Reply
  sync_import t namespace si =
      sync_slices api schedule t (origin.slices origin.operator_namespace (import_labels si)) []
        false namespace (import_labels si) (fork_into namespace)

  abbrev pub if_updated : Text → Import → State × Option Error → State × Reply
  if_updated namespace si (t, none) = sync_import t namespace si
  if_updated namespace si (t, some e) = (t, reply (some 1) (some e))

  -- What follows AddInitialInfoToServiceImport. The error that it answers with is not the one that
  -- is returned.
  abbrev pub if_initialised : Text → (State × Import) × Result Bool → State × Reply
  if_initialised namespace ((t, si), panic) = (t, panics)
  if_initialised namespace ((t, si), err e) = (t, reply (some 1) none)
  if_initialised namespace ((t, si), ok true) = if_updated namespace si (update_import t si)
  if_initialised namespace ((t, si), ok false) = sync_import t namespace si

  -- Handle, for what the lister answers.
  unfoldable pub handle_import : State → Text → Result Import → State × Reply
  unfolding sync_slices add_initial_info recycle_service_import
  handle_import t namespace panic = (t, panics)
  handle_import t namespace (err not_found) = (t, settled)
  handle_import t namespace (err e) = (t, reply none (some e))
  handle_import t namespace (ok si) =
      if si.deleting
      then recycled (recycle_service_import cluster t si)
      else if_initialised namespace (add_initial_info cluster t si)
