-- ===== src/Services/Exports/Labelled.antt =====
-- The labels of the slices that a service export sends, across the two controllers.
use fleetboard.Prelude.{[], ◌∷◌, ap, sym, ◌≡◌, ◌∙◌, refl, true, false, some}
use fleetboard.Prelude.Text.{Text, text_eq, text_eq_refl}
use fleetboard.Prelude.Dict.{
  Dict, lookup, delete, lookup-insert_self, lookup-insert_other, lookup-delete_other,
}
use fleetboard.Services.Api.{Slice, selects}
use fleetboard.Services.Imports.{Import, fork_endpoint_slice, created_by_label}
use fleetboard.Services.Imports.Handler.{label_service_name, label_service_namespace, import_labels}
use fleetboard.Services.Exports.{
  Export, Exporter, label_cluster_id, is_headless_key, new_labels, construct_endpoint_slice,
  target_labels,
}

-- The label of package discovery is none of those of the repository.
pub record OwnLabel (exporter : Exporter) : Type 0 where
  pub headless : text_eq is_headless_key exporter.label_service ≡ false
  pub service : text_eq exporter.label_service label_service_name ≡ false
  pub namespaced : text_eq exporter.label_service label_service_namespace ≡ false

constants :
    (text_eq is_headless_key label_service_name ≡ false)
    × (text_eq is_headless_key label_service_namespace ≡ false)
    × (text_eq label_cluster_id label_service_name ≡ false)
    × (text_eq label_service_namespace label_service_name ≡ false)
    × (text_eq created_by_label label_service_name ≡ false)
    × (text_eq created_by_label label_service_namespace ≡ false)
unfolding text_eq
constants = (refl, refl, refl, refl, refl, refl)

none_selected : (labels : Dict Text) → selects [] labels ≡ true
unfolding selects
none_selected labels = refl

selects-step :
    (k v : Text) (selector labels : Dict Text)
    → lookup k labels ≡ some v
    → selects selector labels ≡ true
    → selects ((k, v) ∷ selector) labels ≡ true
unfolding selects
selects-step k v selector labels e h = rw (e, text_eq_refl v, h) refl

module _ (exporter : Exporter) (own : OwnLabel exporter) where
  named :
      (se : Export) (cluster : Text)
      → lookup label_service_name (new_labels exporter se cluster) ≡ some se.name
  unfolding new_labels
  named se cluster =
      lookup-insert_other is_headless_key label_service_name _ _ constants.0
      ∙ lookup-insert_other exporter.label_service label_service_name _ _ own.service
      ∙ lookup-insert_other label_service_namespace label_service_name _ _ constants.3
      ∙ lookup-insert_other label_cluster_id label_service_name _ _ constants.2
      ∙ lookup-insert_self label_service_name se.name []

  namespaced :
      (se : Export) (cluster : Text)
      → lookup label_service_namespace (new_labels exporter se cluster) ≡ some se.namespace
  unfolding new_labels
  namespaced se cluster =
      lookup-insert_other is_headless_key label_service_namespace _ _ constants.1
      ∙ lookup-insert_other exporter.label_service label_service_namespace _ _ own.namespaced
      ∙ lookup-insert_self label_service_namespace se.namespace _

  -- When the label of package discovery is none of those of this repository, a slice that a service
  -- export sends is selected by the label that the export's next call lists and deletes by; and the
  -- copy that an import of the same name and namespace makes of it is selected by the labels that the
  -- import's next call lists by.
  pub construct_endpoint_slice-selects :
      (se : Export) (si : Import) (namespace : Text) (slice : Slice)
      → si.name ≡ se.name
      → si.namespace ≡ se.namespace
      → (selects
            (target_labels exporter se.namespace se.name)
            (construct_endpoint_slice exporter se namespace exporter.local_cluster_id slice).labels
          ≡ true)
        × (selects
              (import_labels si)
              (fork_endpoint_slice
                (construct_endpoint_slice exporter se namespace exporter.local_cluster_id slice)
                si.namespace).labels
            ≡ true)
  unfolding construct_endpoint_slice fork_endpoint_slice
  construct_endpoint_slice-selects se si namespace slice a b =
      let labels = new_labels exporter se exporter.local_cluster_id in
      (
        selects-step exporter.label_service _ [] labels
            (lookup-insert_other is_headless_key exporter.label_service _ _ own.headless
              ∙ lookup-insert_self exporter.label_service _ _)
            (none_selected labels),
        selects-step label_service_name si.name ((label_service_namespace, si.namespace) ∷ [])
            (delete created_by_label labels)
            (lookup-delete_other created_by_label label_service_name labels constants.4
              ∙ named se exporter.local_cluster_id
              ∙ ap some (sym a))
            (selects-step label_service_namespace si.namespace [] (delete created_by_label labels)
              (lookup-delete_other created_by_label label_service_namespace labels constants.5
                ∙ namespaced se exporter.local_cluster_id
                ∙ ap some (sym b))
              (none_selected (delete created_by_label labels))),
      )
