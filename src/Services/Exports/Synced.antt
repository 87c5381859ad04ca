-- ===== src/Services/Exports/Synced.antt =====
-- What Handle of pkg/controller/mcs/serviceexport_controller.go achieves when it reports success.
use fleetboard.Prelude.{
  ℕ, ◌≡◌, refl, ap, All, sym, subst, Bool, true, false, List, [], ◌∷◌, Option, none, some, map,
  if◌then◌else◌, Error, ok,
}
use fleetboard.Prelude.Text.{Text}
use fleetboard.Slices.{contains_string}
use fleetboard.Controllers.Inter.{settled}
use fleetboard.Services.Api.{SliceApi, Slice}
use fleetboard.Services.Apply.{goroutine, unraced, started}
use fleetboard.Services.Sync.{source_names, dashed}
use fleetboard.Services.Sync.Synced.{Synced, Names, Distinct, sync_slices-Synced, Synced-view}
use fleetboard.Services.Imports.{app_finalizer}
use fleetboard.Services.Exports.{
  sync_slices, Export, Exporter, ExportApi, source_labels, target_labels, construct_endpoint_slice,
  with_headless, finalized, sync_export, if_finalized, if_collected, handle_export,
}

module _ (exporter : Exporter) (cluster : ExportApi)
    (api : SliceApi (ExportApi.State cluster)) where
  -- The wanted slices, when updating an export leaves the slices alone and the hub can always list
  -- those that the export's labels select.
  pub record Ready (se : Export) (slices : List Slice) : Type 0 where
    pub keeps :
        (t : ExportApi.State cluster) (e : Export) (n m : Text)
        → api.view (ExportApi.update_export cluster t e).0 n m ≡ api.view t n m
    pub found : exporter.slices se.namespace (source_labels exporter se) ≡ ok slices
    pub local : All (λ s. s.namespace ≡ se.namespace) slices
    pub distinct : Distinct (source_names exporter.local_cluster_id true slices)
    pub listable :
        (u : ExportApi.State cluster)
        → (items : List Slice) × (api.list u exporter.operator_namespace
              (target_labels exporter se.namespace se.name)
            ≡ ok items)

  -- The hub's slices behind the call, for the export with this name and this namespace.
  abbrev pub SyncedExport :
      ExportApi.State cluster → ExportApi.State cluster → Export → List Slice → Type 0
  SyncedExport t u se slices =
      Synced api t u exporter.local_cluster_id true exporter.operator_namespace
        (target_labels exporter se.namespace se.name) slices

  construct-Names :
      (se : Export) (slices : List Slice)
      → All (λ s. s.namespace ≡ se.namespace) slices
      → Names
          (construct_endpoint_slice exporter se exporter.operator_namespace
            exporter.local_cluster_id)
          exporter.local_cluster_id
          true
          exporter.operator_namespace
          slices
  unfolding construct_endpoint_slice
  construct-Names se [] h = tt
  construct-Names se (s ∷ slices) (e, h) = (
    (refl, ap (λ n. dashed exporter.local_cluster_id n s.name) (sym e), refl),
    construct-Names se slices h,
  )

  module _ (se : Export) (slices : List Slice) (ready : Ready se slices)
      (t : ExportApi.State cluster) (schedule : List ℕ)
      (fair : (u : ExportApi.State cluster) (sent : Export)
        → unraced api schedule (started api u) (
            map goroutine (
              map
                (construct_endpoint_slice exporter sent exporter.operator_namespace
                  exporter.local_cluster_id)
                slices))
          ≡ true) where
    sync_export-Synced :
        (v : ExportApi.State cluster) (sent : Export)
        → ((n m : Text) → api.view v n m ≡ api.view t n m)
        → sent.namespace ≡ se.namespace
        → source_labels exporter sent ≡ source_labels exporter se
        → (sync_export exporter cluster api schedule se.namespace se.name sent v).1 ≡ settled
        → SyncedExport t
            (sync_export exporter cluster api schedule se.namespace se.name sent v).0
            se
            slices
    sync_export-Synced v sent h a b =
        let (items, l) = ready.listable v in
        let local = subst (λ n. All (λ s. s.namespace ≡ n) slices) (sym a) ready.local in
        rw (b, ready.found)
          (λ k.
            Synced-view api t v
              (sync_slices api schedule v (ok slices) exporter.local_cluster_id true
                exporter.operator_namespace (target_labels exporter se.namespace se.name)
                (construct_endpoint_slice exporter sent exporter.operator_namespace
                  exporter.local_cluster_id)).0
              h
              (sync_slices-Synced api schedule exporter.local_cluster_id true
                exporter.operator_namespace (target_labels exporter se.namespace se.name)
                (construct_endpoint_slice exporter sent exporter.operator_namespace
                  exporter.local_cluster_id)
                slices (construct-Names sent slices local) ready.distinct (λ u. fair u sent) v items
                l k))

    if_finalized-Synced :
        (sent : Export) (r : ExportApi.State cluster × Option Error)
        → ((n m : Text) → api.view r.0 n m ≡ api.view t n m)
        → sent.namespace ≡ se.namespace
        → source_labels exporter sent ≡ source_labels exporter se
        → (if_finalized exporter cluster api schedule se.namespace se.name sent r).1 ≡ settled
        → SyncedExport t
            (if_finalized exporter cluster api schedule se.namespace se.name sent r).0
            se
            slices
    if_finalized-Synced sent (v, none) h a b k = sync_export-Synced v sent h a b k
    if_finalized-Synced sent (v, some e) h a b k = cc

    -- Suppose that updating an export leaves the slices alone, that the hub can always list slices, and
    -- that no goroutine of the call assigns the shared `err` while another has assigned it and not
    -- tested it yet. When Handle reports success for an export that is not being deleted, whose service
    -- is there and whose local slices can be listed, are of its namespace and have different names,
    -- then the hub has a slice with the same content for every one of them, under its name there, and
    -- no other slice that had the export's label before.
    pub handle_export-Synced :
        (ip : Text)
        → se.deleting ≡ false
        → (handle_export exporter cluster api schedule t se.namespace se.name (ok se) (ok ip)).1
          ≡ settled
        → SyncedExport t
            (handle_export exporter cluster api schedule t se.namespace se.name (ok se) (ok ip)).0
            se
            slices
    unfolding handle_export
    handle_export-Synced ip d = of_tests se.deleting (contains_string se.finalizers app_finalizer) d
      where
        sent : Export
        sent = with_headless exporter cluster api schedule se ip

        more : Export
        more = finalized exporter cluster api schedule sent

        of_tests :
            (x y : Bool)
            → x ≡ false
            → (if x
                then if_collected exporter cluster api schedule sent (
                    ExportApi.delete_collection cluster t exporter.operator_namespace
                      (target_labels exporter se.namespace se.name))
                else if y
                then sync_export exporter cluster api schedule se.namespace se.name sent t
                else if_finalized exporter cluster api schedule se.namespace se.name more
                    (ExportApi.update_export cluster t more)).1
              ≡ settled
            → SyncedExport t
                (if x
                  then if_collected exporter cluster api schedule sent (
                      ExportApi.delete_collection cluster t exporter.operator_namespace
                        (target_labels exporter se.namespace se.name))
                  else if y
                  then sync_export exporter cluster api schedule se.namespace se.name sent t
                  else if_finalized exporter cluster api schedule se.namespace se.name more
                      (ExportApi.update_export cluster t more)).0
                se
                slices
        of_tests true y e h = cc
        of_tests false true e h = sync_export-Synced t sent (λ n m. refl) refl refl h
        of_tests false false e h =
            if_finalized-Synced more (ExportApi.update_export cluster t more) (ready.keeps t more)
              refl refl h
