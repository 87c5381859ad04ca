-- ===== src/Services/Imports/Synced.antt =====
-- What Handle of pkg/controller/mcs/serviceimport_controller.go achieves when it reports success.
use fleetboard.Prelude.{
  ℕ, ◌≡◌, ◌∙◌, refl, sym, subst, Bool, true, false, List, [], ◌∷◌, Option, none, some, map, not,
  if◌then◌else◌, Error, Result, ok, err, panic, inl, inr, Bool-cases,
}
use fleetboard.Prelude.Text.{Text}
use fleetboard.Controllers.Inter.{settled}
use fleetboard.Slices.{contains_string}
use fleetboard.Services.Api.{SliceApi, Slice}
use fleetboard.Services.Apply.{goroutine, unraced, started}
use fleetboard.Services.Sync.{sync_slices, source_names}
use fleetboard.Services.Sync.Synced.{Synced, Names, Distinct, sync_slices-Synced, Synced-view}
use fleetboard.Services.Imports.{
  lacks_ip, clear_ip, allocated, app_finalizer, with_finalizer, Import, Cluster,
  fork_endpoint_slice, add_initial_info, recycle_service_import,
}
use fleetboard.Services.Imports.Handler.{
  import_labels, Origin, fork_into, recycled, sync_import, if_updated, if_initialised,
  handle_import,
}

-- Allocating an address and updating the import leave the slices alone.
pub record Separate (cluster : Cluster) (api : SliceApi (Cluster.State cluster)) : Type 0 where
  pub acquire_keeps :
      (t : Cluster.State cluster) (n m : Text)
      → api.view (Cluster.acquire_ip cluster t).0 n m ≡ api.view t n m
  pub update_keeps :
      (t : Cluster.State cluster) (si : Import) (n m : Text)
      → api.view (Cluster.update_import cluster t si).0 n m ≡ api.view t n m

module _ (cluster : Cluster) (api : SliceApi (Cluster.State cluster))
    (separate : Separate cluster api) where
  -- The slices and the labels of the import are those of the start.
  abbrev Same : Cluster.State cluster → Import → (Cluster.State cluster × Import) → Type 0
  Same t si r =
      ((n m : Text) → api.view r.0 n m ≡ api.view t n m) × (import_labels r.1 ≡ import_labels si)

  with_finalizer-labels : (si : Import) → import_labels (with_finalizer si) ≡ import_labels si
  with_finalizer-labels si = elim (Bool-cases (contains_string si.finalizers app_finalizer)) [
    | inl e ↦ rw (e, with_finalizer) refl
    | inr e ↦ rw (e, with_finalizer) refl
  ]

  allocated-Same :
      (t : Cluster.State cluster) (si sj : Import) (b : Bool)
      (r : Cluster.State cluster × Result Text)
      → import_labels sj ≡ import_labels si
      → ((n m : Text) → api.view r.0 n m ≡ api.view t n m)
      → Same t si (allocated cluster sj b r).0
  allocated-Same t si sj b (u, panic) e h = (h, e)
  allocated-Same t si sj b (u, err x) e h = (h, e)
  allocated-Same t si sj b (u, ok ip) e h = (h, e)

  clear_ip-Same :
      (t : Cluster.State cluster) (si sj : Import) (b : Bool) (ips : List Text)
      → import_labels sj ≡ import_labels si
      → Same t si (clear_ip cluster t sj b ips).0
  clear_ip-Same t si sj b [] e = ((λ n m. refl), e)
  clear_ip-Same t si sj b (ip ∷ ips) e = ((λ n m. refl), e)

  add_initial_info-Same :
      (t : Cluster.State cluster) (si : Import) → Same t si (add_initial_info cluster t si).0
  unfolding add_initial_info
  add_initial_info-Same t si = of_tests si.headless (lacks_ip si.ips)
    where
      changed : Bool
      changed = not (contains_string si.finalizers app_finalizer)

      of_tests :
          (x y : Bool)
          → Same t si
              (if x
                then clear_ip cluster t (with_finalizer si) changed si.ips
                else if y
                then allocated cluster (with_finalizer si) changed (Cluster.acquire_ip cluster t)
                else ((t, with_finalizer si), ok changed)).0
      of_tests true y =
          clear_ip-Same t si (with_finalizer si) changed si.ips (with_finalizer-labels si)
      of_tests false true =
          allocated-Same t si (with_finalizer si) changed (Cluster.acquire_ip cluster t)
            (with_finalizer-labels si) (separate.acquire_keeps t)
      of_tests false false = ((λ n m. refl), with_finalizer-labels si)

  -- The wanted slices, when the server can always list those that the import's labels select.
  pub record Ready (origin : Origin) (si : Import) (namespace : Text) (slices : List Slice)
      : Type 0 where
    pub found : origin.slices origin.operator_namespace (import_labels si) ≡ ok slices
    pub distinct : Distinct (source_names [] false slices)
    pub listable :
        (u : Cluster.State cluster)
        → (items : List Slice) × (api.list u namespace (import_labels si) ≡ ok items)

  abbrev pub SyncedImport :
      Cluster.State cluster → Cluster.State cluster → Text → Import → List Slice → Type 0
  SyncedImport t u namespace si slices = Synced api t u [] false namespace (import_labels si) slices

  module _ (origin : Origin) (si : Import) (namespace : Text) (slices : List Slice)
      (ready : Ready origin si namespace slices) (t : Cluster.State cluster) (schedule : List ℕ)
      (fair : (u : Cluster.State cluster)
        → unraced api schedule (started api u) (map goroutine (map (fork_into namespace) slices))
          ≡ true) where
    fork_into-Names : (l : List Slice) → Names (fork_into namespace) [] false namespace l
    unfolding fork_endpoint_slice
    fork_into-Names [] = tt
    fork_into-Names (s ∷ l) = ((refl, refl, refl), fork_into-Names l)

    sync_import-Synced :
        (v : Cluster.State cluster) (sj : Import)
        → Same t si (v, sj)
        → (sync_import cluster api origin schedule v namespace sj).1 ≡ settled
        → SyncedImport t
            (sync_import cluster api origin schedule v namespace sj).0
            namespace
            si
            slices
    sync_import-Synced v sj (h, e) =
        let (items, l) = ready.listable v in
        rw (e, ready.found)
          (λ k.
            Synced-view api t v
              (sync_slices api schedule v (ok slices) [] false namespace (import_labels si)
                (fork_into namespace)).0
              h
              (sync_slices-Synced api schedule [] false namespace (import_labels si)
                (fork_into namespace) slices (fork_into-Names slices) ready.distinct fair v items l
                k))

    if_updated-Synced :
        (sj : Import) (r : Cluster.State cluster × Option Error)
        → Same t si (r.0, sj)
        → (if_updated cluster api origin schedule namespace sj r).1 ≡ settled
        → SyncedImport t
            (if_updated cluster api origin schedule namespace sj r).0
            namespace
            si
            slices
    if_updated-Synced sj (v, none) h k = sync_import-Synced v sj h k
    if_updated-Synced sj (v, some e) h k = cc

    if_initialised-Synced :
        (r : (Cluster.State cluster × Import) × Result Bool)
        → Same t si r.0
        → (if_initialised cluster api origin schedule namespace r).1 ≡ settled
        → SyncedImport t
            (if_initialised cluster api origin schedule namespace r).0
            namespace
            si
            slices
    if_initialised-Synced ((v, sj), panic) h k = cc
    if_initialised-Synced ((v, sj), err e) h k = cc
    if_initialised-Synced ((v, sj), ok true) (h, e) k =
        if_updated-Synced sj (Cluster.update_import cluster v sj)
          ((λ n m. separate.update_keeps v sj n m ∙ h n m), e) k
    if_initialised-Synced ((v, sj), ok false) h k = sync_import-Synced v sj h k

    -- Suppose that allocating an address and updating an import leave the slices alone, that the
    -- server can always list slices, and that no goroutine of the call assigns the shared `err` while
    -- another has assigned it and not tested it yet. When Handle reports success for an import that
    -- is not being deleted, whose synced slices can be listed and have different names, then the
    -- import's namespace has a slice of the same name and with the same content for every one of them,
    -- and no other slice that had the import's labels before.
    pub handle_import-Synced :
        si.deleting ≡ false
        → (handle_import cluster api origin schedule t namespace (ok si)).1 ≡ settled
        → SyncedImport t
            (handle_import cluster api origin schedule t namespace (ok si)).0
            namespace
            si
            slices
    unfolding handle_import
    handle_import-Synced d =
        subst
          (λ x.
            (if x
                then recycled cluster api origin schedule (recycle_service_import cluster t si)
                else if_initialised cluster api origin schedule namespace
                    (add_initial_info cluster t si)).1
              ≡ settled
            → SyncedImport t
                (if x
                  then recycled cluster api origin schedule (recycle_service_import cluster t si)
                  else if_initialised cluster api origin schedule namespace
                      (add_initial_info cluster t si)).0
                namespace si slices)
          (sym d)
          (if_initialised-Synced (add_initial_info cluster t si) (add_initial_info-Same t si))
