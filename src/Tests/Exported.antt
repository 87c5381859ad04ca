-- ===== src/Tests/Exported.antt =====
-- The controller of service exports, and the labels that it sets, at a server that keeps its slices in a
-- list.
use fleetboard.Prelude.{map, ◌≡◌, refl, true, false, List, [], ◌∷◌, none, ok}
use fleetboard.Prelude.Text.{codes, text_eq, has_prefix}
use fleetboard.Prelude.Dict.{lookup, insert}
use fleetboard.Slices.{contains_string, contains_prefix}
use fleetboard.Resync.{any_change, should_patch_be_ignored, resource_need_resync}
use fleetboard.Controllers.Inter.{settled}
use fleetboard.Services.Api.{Slice, selects}
use fleetboard.Services.Apply.{
  apply_once, apply_slice, apply_all, run, turn, wait, assign, unraced, starts, quiet, started,
  goroutine,
}
use fleetboard.Services.Sync.{delete_others, remove_nonexistent, source_names, sync_slices}
use fleetboard.Services.Imports.{app_finalizer, fork_endpoint_slice}
use fleetboard.Services.Imports.Handler.{import_labels}
use fleetboard.Services.Exports.{
  Export, Exporter, ExportApi, target_labels, new_labels, construct_endpoint_slice, handle_export,
}
use fleetboard.Services.Exports.Synced.{Ready, SyncedExport, handle_export-Synced}
use fleetboard.Services.Exports.Labelled.{OwnLabel, construct_endpoint_slice-selects}
use fleetboard.Tests.Server.{server, view, without, selected, texts_eq}
use fleetboard.Tests.Synced.{some_content, other_content, turns, slice_of, web}

abbrev exported : Export
exported = record {
  name = codes "web";
  namespace = codes "shop";
  labels = [];
  finalizers = app_finalizer ∷ [];
  deleting = false;
}

abbrev locals : List Slice
locals =
    slice_of (codes "shop") (codes "a") some_content
    ∷ slice_of (codes "shop") (codes "c") other_content
    ∷ []

abbrev exporter : Exporter
exporter = record {
  local_cluster_id = codes "c1";
  operator_namespace = codes "op";
  slices = λ namespace selector. ok locals;
  label_service = codes "kubernetes.io/service-name";
  label_managed_by = codes "endpointslice.kubernetes.io/managed-by";
  hash_name = λ name. codes "0123456789";
}

abbrev servers : ExportApi
servers = record {
  State = List Slice;
  delete_collection = λ t namespace selector. (t, none);
  update_export = λ t se. (t, none);
}

-- A slice of the same export whose source is gone.
abbrev in_hub : List Slice
in_hub =
    construct_endpoint_slice exporter exported (codes "op") (codes "c1")
      (slice_of (codes "shop") (codes "b") some_content)
    ∷ []

ready : Ready exporter servers server exported locals
unfolding source_names contains_string server text_eq
ready = record {
  keeps = λ t e n m. refl;
  found = refl;
  local = (refl, (refl, tt));
  distinct = (refl, (refl, tt));
  listable = λ u. (selected u (target_labels exporter (codes "shop") (codes "web")), refl);
}

fair :
    (u : List Slice) (sent : Export)
    → unraced server turns (started server u) (
        map goroutine
          (map (construct_endpoint_slice exporter sent (codes "op") (codes "c1")) locals))
      ≡ true
unfolding unraced turn starts quiet
fair u sent = refl

handled :
    (handle_export exporter servers server turns in_hub
      (codes "shop")
      (codes "web")
      (ok exported)
      (ok (codes "10.96.0.7"))).1
    ≡ settled
unfolding handle_export sync_slices remove_nonexistent delete_others source_names apply_all run turn
    wait assign apply_slice apply_once server view without selected selects lookup insert texts_eq
    new_labels construct_endpoint_slice resource_need_resync any_change should_patch_be_ignored
    contains_string contains_prefix has_prefix text_eq
handled = refl

handle_export-Synced_example :
    SyncedExport exporter servers server in_hub
      (handle_export exporter servers server turns in_hub
        (codes "shop")
        (codes "web")
        (ok exported)
        (ok (codes "10.96.0.7"))).0
      exported
      locals
handle_export-Synced_example =
    handle_export-Synced exporter servers server exported locals ready in_hub turns fair
      (codes "10.96.0.7") refl handled

own : OwnLabel exporter
unfolding text_eq
own = record { headless = refl; service = refl; namespaced = refl }

construct_endpoint_slice-selects_example :
    (selects
        (target_labels exporter (codes "shop") (codes "web"))
        (construct_endpoint_slice exporter exported
          (codes "op")
          (codes "c1")
          (slice_of (codes "shop") (codes "a") some_content)).labels
      ≡ true)
    × (selects
          (import_labels web)
          (fork_endpoint_slice
            (construct_endpoint_slice exporter exported
              (codes "op")
              (codes "c1")
              (slice_of (codes "shop") (codes "a") some_content))
            (codes "shop")).labels
        ≡ true)
construct_endpoint_slice-selects_example =
    construct_endpoint_slice-selects exporter own exported web (codes "op")
      (slice_of (codes "shop") (codes "a") some_content) refl refl
