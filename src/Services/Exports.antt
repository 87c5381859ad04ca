-- ===== src/Services/Exports.antt =====
-- Handle and constructEndpointSlice of pkg/controller/mcs/serviceexport_controller.go, for a key that
-- names a namespace and a name, and DerivedName of utils/slice.go.
pub mod Synced
pub mod Labelled
use fleetboard.Prelude.{
  ℕ, Bool, true, false, not, ◌&&◌, List, [], ◌∷◌, ◌++◌, Option, none, some, if◌then◌else◌, Error,
  not_found, Result, ok, err, panic,
}
use fleetboard.Prelude.Text.{Text, codes, text_eq}
use fleetboard.Prelude.Dict.{Dict, insert, lookup}
use fleetboard.Slices.{contains_string, remove_string}
use fleetboard.Controllers.Inter.{Reply, reply, panics, settled}
use fleetboard.Services.Api.{SliceApi, Slice}
use fleetboard.Services.Sync.{dashed, sync_slices}
use fleetboard.Services.Imports.{app_finalizer}
use fleetboard.Services.Imports.Handler.{label_service_name, label_service_namespace}

-- v1alpha1.ServiceExport
pub record Export : Type 0 where
  pub name : Text
  pub namespace : Text
  pub labels : Dict Text
  pub finalizers : List Text
  -- It has a time of deletion.
  pub deleting : Bool

-- Of the controller: its cluster, its namespace in the hub, and the lister of the local slices. With
-- them, two labels of package discovery and the hash of DerivedName: SHA-256 in base 32, in lower
-- case, its first ten characters.
pub record Exporter : Type 0 where
  pub local_cluster_id : Text
  pub operator_namespace : Text
  pub slices : Text → Dict Text → Result (List Slice)
  pub label_service : Text
  pub label_managed_by : Text
  pub hash_name : Text → Text

-- The two API servers: deleting the hub's slices with these labels, and updating a service export.
pub record ExportApi : Type 1 where
  pub State : Type 0
  pub delete_collection : State → Text → Dict Text → State × Option Error
  pub update_export : State → Export → State × Option Error

-- known.LabelClusterID, known.IsHeadlessKey and known.LabelValueManagedBy
abbrev pub label_cluster_id : Text
label_cluster_id = codes "services.fleetboard.io/multi-cluster-cluster-ID"

abbrev pub is_headless_key : Text
is_headless_key = codes "services.fleetboard.io/is-headless"

abbrev pub managed_by : Text
managed_by = codes "mcs.fleetboard.io"

-- The value of a label that may be missing.
abbrev label_value : Option Text → Text
label_value none = []
label_value (some v) = v

module _ (exporter : Exporter) where
  open exporter use {local_cluster_id, operator_namespace, label_service, label_managed_by}

  -- DerivedName
  abbrev pub derived_name : Text → Text → Text → Text
  derived_name cluster namespace name =
      codes "derived" ++ b'-' ∷ dashed cluster namespace (exporter.hash_name name)

  -- srcLabelMap and dstLabelMap
  abbrev pub source_labels : Export → Dict Text
  source_labels se = (label_service, se.name) ∷ (label_managed_by, managed_by) ∷ []

  abbrev pub target_labels : Text → Text → Dict Text
  target_labels namespace name = (label_service, derived_name local_cluster_id namespace name) ∷ []

  -- The labels of constructEndpointSlice, in the order in which they are set.
  unfoldable pub new_labels : Export → Text → Dict Text
  new_labels se cluster = insert is_headless_key (label_value (lookup is_headless_key se.labels)) (
      insert label_service (derived_name cluster se.namespace se.name) (
        insert label_service_namespace se.namespace
          (insert label_cluster_id cluster (insert label_service_name se.name []))))

  -- constructEndpointSlice
  unfoldable pub construct_endpoint_slice : Export → Text → Text → Slice → Slice
  unfolding new_labels
  construct_endpoint_slice se namespace cluster slice = record {
    name = dashed cluster se.namespace slice.name;
    namespace = namespace;
    labels = new_labels se cluster;
    content = slice.content;
  }

  module _ (cluster : ExportApi) (api : SliceApi (ExportApi.State cluster))
      (schedule : List ℕ) where
    open cluster use {State, delete_collection, update_export}

    abbrev pub if_removed : State × Option Error → State × Reply
    if_removed (t, none) = (t, settled)
    if_removed (t, some e) = (t, reply (some 1) (some e))

    -- The finalizer is removed behind the slices.
    abbrev pub if_collected : Export → State × Option Error → State × Reply
    if_collected se (t, none) =
        if_removed
          (update_export t (record se { finalizers = remove_string se.finalizers app_finalizer }))
    if_collected se (t, some e) = (t, reply (some 1) (some e))

    abbrev pub sync_export : Text → Text → Export → State → State × Reply
    sync_export namespace name se t =
        sync_slices api schedule t (exporter.slices namespace (source_labels se)) local_cluster_id
          true operator_namespace (target_labels namespace name)
          (construct_endpoint_slice se operator_namespace local_cluster_id)

    abbrev pub if_finalized : Text → Text → Export → State × Option Error → State × Reply
    if_finalized namespace name se (t, none) = sync_export namespace name se t
    if_finalized namespace name se (t, some e) = (t, reply (some 1) (some e))

    abbrev pub with_headless : Export → Text → Export
    with_headless se ip = record se {
      labels =
          insert is_headless_key (if text_eq ip (codes "None") then codes "true" else codes "false")
            se.labels;
    }

    abbrev pub finalized : Export → Export
    finalized se = record se { finalizers = se.finalizers ++ (app_finalizer ∷ []) }

    abbrev pub handle_found : State → Text → Text → Export → State × Reply
    handle_found t namespace name se =
        if se.deleting
        then if_collected se (delete_collection t operator_namespace (target_labels namespace name))
        else if contains_string se.finalizers app_finalizer
        then sync_export namespace name se t
        else if_finalized namespace name (finalized se) (update_export t (finalized se))

    -- The service of the same name: its cluster address.
    abbrev pub if_service : State → Text → Text → Export → Result Text → State × Reply
    if_service t namespace name se panic = (t, panics)
    if_service t namespace name se (err not_found) = (t, settled)
    if_service t namespace name se (err e) = (t, reply none (some e))
    if_service t namespace name se (ok ip) = handle_found t namespace name (with_headless se ip)

    -- Handle, for what the two listers answer.
    unfoldable pub handle_export : State → Text → Text → Result Export → Result Text → State × Reply
    unfolding sync_slices construct_endpoint_slice
    handle_export t namespace name panic service = (t, panics)
    handle_export t namespace name (err not_found) service = (t, settled)
    handle_export t namespace name (err e) service = (t, reply none (some e))
    handle_export t namespace name (ok se) service = if_service t namespace name se service
