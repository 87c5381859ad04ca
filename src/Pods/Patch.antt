-- ===== src/Pods/Patch.antt =====
-- SetSpecificAnnotations and AddAnnotationToSelf of utils/utils.go, against the API
-- server of the cluster.
use fleetboard.Prelude.{
  refl, sym, subst, Bool, List, [], ◌∷◌, Option, none, some, Result, ok, err, panic, Error,
  not_found, external, conflict, Status, done, failed, panicked, ◌≡◌, ◌≢◌,
}
use fleetboard.Prelude.Text.{Text, codes}
use fleetboard.Prelude.Dict.{Dict}
use fleetboard.Pods.{arith, Pod}
use fleetboard.Pods.Annotations.{annotate}

-- What is called of the API server about pods, and of client-go's retry package.
pub record PodApi : Type 1 where
  pub Server : Type 0
  pub get_pod : Server → Text → Text → Result Pod
  -- The pods of a namespace that a label selector picks.
  pub list_pods : Server → Text → Text → Result (List Pod)
  -- The merge patch between two versions of a pod; computing the patch is part of it.
  pub patch_pod : Server → Pod → Pod → Server × Option Error
  pub update_pod : Server → Pod → Server × Option Error
  -- RetryOnConflict of a closure over the server and a pod that the closure may mutate.
  pub retry_on_conflict :
      (Server × Pod → (Server × Pod) × Status) → Server × Pod → (Server × Pod) × Status
  -- It calls the closure once if that does not end in a conflict.
  pub retry_once :
      (f : Server × Pod → (Server × Pod) × Status) (s : Server × Pod)
      → (f s).1 ≢ failed conflict
      → retry_on_conflict f s ≡ f s
  -- The environment variables that name this pod.
  pub own_name : Text
  pub own_namespace : Text

-- known.LeaderCNFLabelKey
abbrev pub leader_label : Text
leader_label = codes "router.fleetboard.io/leader"

module _ (api : PodApi) where
  open api use {Server, get_pod, patch_pod, update_pod, retry_on_conflict, own_name, own_namespace}

  -- An error of the patch is wrapped by its text, so it is no conflict any more.
  unfoldable pub patch_answer : Server × Pod → Option Error → (Server × Pod) × Status
  patch_answer s none = (s, done)
  patch_answer s (some e) = (s, failed external)

  unfoldable pub patch_annotations : Server → Pod → Result (Dict Text) → (Server × Pod) × Status
  patch_annotations s pod panic = ((s, pod), panicked)
  patch_annotations s pod (err e) = ((s, pod), failed external)
  patch_annotations s pod (ok m) =
      let pod' = record pod { annotations = m } in
      let (s', answer) = patch_pod s pod pod' in patch_answer (s', pod') answer

  -- The closure: the pod keeps its new annotations, also when the patch fails.
  unfoldable pub set_once : List Text → List Text → Bool → Server × Pod → (Server × Pod) × Status
  set_once keys values override (s, pod) =
      patch_annotations s pod (annotate pod.annotations keys values override)

  -- SetSpecificAnnotations
  unfoldable pub set_specific_annotations :
      Server → Pod → List Text → List Text → Bool → (Server × Pod) × Status
  set_specific_annotations s pod keys values override =
      retry_on_conflict (set_once keys values override) (s, pod)

  unfoldable pub annotate_pod : Server → Result Pod → Text → Text → Bool → Server × Status
  annotate_pod s panic key value override = (s, panicked)
  annotate_pod s (err not_found) key value override = (s, done)
  annotate_pod s (err e) key value override = (s, failed external)
  annotate_pod s (ok pod) key value override =
      let r = set_specific_annotations s pod (key ∷ []) (value ∷ []) override in (r.0.0, r.1)

  -- AddAnnotationToSelf
  unfoldable pub add_annotation_to_self : Server → Text → Text → Bool → Server × Status
  add_annotation_to_self s key value override =
      annotate_pod s (get_pod s own_namespace own_name) key value override

  set_once-ne-conflict :
      (keys values : List Text) (override : Bool) (s : Server) (pod : Pod)
      → (set_once keys values override (s, pod)).1 ≢ failed conflict
  unfolding set_once patch_annotations patch_answer
  set_once-ne-conflict keys values override s pod = ground arith

  -- The retry is never made: whatever error the server answers with, also a conflict, the one
  -- attempt is the whole call.
  pub set_specific_annotations_once :
      (s : Server) (pod : Pod) (keys values : List Text) (override : Bool)
      → (set_specific_annotations s pod keys values override
          ≡ set_once keys values override (s, pod))
        × ((set_specific_annotations s pod keys values override).1 ≢ failed conflict)
  unfolding set_specific_annotations
  set_specific_annotations_once s pod keys values override =
      let once =
        api.retry_once (set_once keys values override) (s, pod)
          (set_once-ne-conflict keys values override s pod) in
      (once, rw once (set_once-ne-conflict keys values override s pod))

  -- The pod has the new annotations and is the same otherwise, whatever the server answers.
  pub set_specific_annotations_pod :
      (s : Server) (pod : Pod) (keys values : List Text) (override : Bool) (m : Dict Text)
      → annotate pod.annotations keys values override ≡ ok m
      → (set_specific_annotations s pod keys values override).0.1 ≡ record pod { annotations = m }
  unfolding set_once patch_annotations patch_answer
  set_specific_annotations_pod s pod keys values override m h =
      subst (λ r. r.0.1 ≡ record pod { annotations = m })
        (sym (set_specific_annotations_once s pod keys values override).0)
        (subst (λ r. (patch_annotations s pod r).0.1 ≡ record pod { annotations = m }) (sym h)
          (answered (record pod { annotations = m })))
    where
      of_answer : (v : Server) (q : Pod) (a : Option Error) → (patch_answer (v, q) a).0.1 ≡ q
      of_answer v q none = refl
      of_answer v q (some e) = refl

      answered : (q : Pod) → (patch_answer ((patch_pod s pod q).0, q) (patch_pod s pod q).1).0.1 ≡ q
      answered q = of_answer (patch_pod s pod q).0 q (patch_pod s pod q).1
