-- ===== src/Services/Imports.antt =====
-- AddInitialInfoToServiceImport, recycleServiceImport and forkEndpointSlice of
-- pkg/controller/mcs/serviceimport_controller.go.
pub mod Handler
pub mod Synced
use fleetboard.Prelude.{
  ◌≡◌, ◌∙◌, refl, subst, Bool, true, false, not, ◌||◌, List, [], ◌∷◌, ◌++◌, Option, none, some,
  if◌then◌else◌, is_nil, Error, Status, done, failed, panicked, Result, ok, err, panic, inl, inr,
  Bool-cases, arith,
}
use fleetboard.Prelude.Text.{Text, codes, text_eq_refl}
use fleetboard.Prelude.Dict.{Dict, delete}
use fleetboard.Services.Api.{Slice}
use fleetboard.Slices.{contains_string, contains_string-append, remove_string}

-- v1alpha1.ServiceImport
pub record Import : Type 0 where
  pub name : Text
  pub namespace : Text
  pub headless : Bool
  -- It has a time of deletion.
  pub deleting : Bool
  pub ips : List Text
  pub finalizers : List Text

-- known.AppFinalizer and known.ObjectCreatedByLabel
abbrev pub app_finalizer : Text
app_finalizer = codes "apps.fleetboard.io/finalizer"

abbrev pub created_by_label : Text
created_by_label = codes "fleetboard.io/created-by"

-- The addresses that go-ipam keeps, and the API server: deleting the slices of a service, and updating
-- a service import.
pub record Cluster : Type 1 where
  pub State : Type 0
  pub acquire_ip : State → State × Result Text
  pub release_ip : State → Text → State × Option Error
  pub delete_slices : State → Text → Text → State × Option Error
  pub update_import : State → Import → State × Option Error

abbrev pub lacks_ip : List Text → Bool
lacks_ip [] = true
lacks_ip (ip ∷ ips) = is_nil ip

abbrev pub with_finalizer : Import → Import
with_finalizer si =
    if contains_string si.finalizers app_finalizer
    then si
    else record si { finalizers = si.finalizers ++ (app_finalizer ∷ []) }

-- forkEndpointSlice
unfoldable pub fork_endpoint_slice : Slice → Text → Slice
fork_endpoint_slice slice namespace = record slice {
  namespace = namespace;
  labels = delete created_by_label slice.labels;
}

module _ (cluster : Cluster) where
  open cluster use {State, acquire_ip, release_ip, delete_slices, update_import}

  abbrev pub allocated : Import → Bool → State × Result Text → (State × Import) × Result Bool
  allocated si changed (s, ok ip) = ((s, record si { ips = ip ∷ [] }), ok true)
  allocated si changed (s, err e) = ((s, si), err e)
  allocated si changed (s, panic) = ((s, si), panic)

  abbrev pub clear_ip : State → Import → Bool → List Text → (State × Import) × Result Bool
  clear_ip s si changed [] = ((s, si), ok changed)
  clear_ip s si changed (ip ∷ ips) = ((s, record si { ips = [] ∷ ips }), ok true)

  -- AddInitialInfoToServiceImport: the import as it is changed, and whether it is.
  unfoldable pub add_initial_info : State → Import → (State × Import) × Result Bool
  add_initial_info s si =
      let changed = not (contains_string si.finalizers app_finalizer) in
      let si' = with_finalizer si in
      if si.headless
      then clear_ip s si' changed si.ips
      else if lacks_ip si.ips
      then allocated si' changed (acquire_ip s)
      else ((s, si'), ok changed)

  abbrev pub answer : State × Option Error → State × Status
  answer (s, none) = (s, done)
  answer (s, some e) = (s, failed e)

  abbrev pub go_on : State × Option Error → (State → State × Status) → State × Status
  go_on (s, none) f = f s
  go_on (s, some e) f = (s, failed e)

  -- The last part: the finalizer is removed.
  abbrev pub drop_finalizer : Import → State → State × Status
  drop_finalizer si s =
      answer
        (update_import s (record si { finalizers = remove_string si.finalizers app_finalizer }))

  -- The address of an import that is not headless is given back; reading it panics when there is none.
  abbrev pub release : Import → List Text → State → State × Status
  release si [] s = (s, panicked)
  release si (ip ∷ ips) s =
      if is_nil ip then drop_finalizer si s else go_on (release_ip s ip) (drop_finalizer si)

  -- recycleServiceImport
  unfoldable pub recycle_service_import : State → Import → State × Status
  recycle_service_import s si =
      go_on (delete_slices s si.namespace si.name)
        (λ t. if si.headless then drop_finalizer si t else release si si.ips t)

single : (t : Text) → contains_string (t ∷ []) t ≡ true
unfolding contains_string
single t = rw (text_eq_refl t) refl

or_true : (a b : Bool) → b ≡ true → (a || b) ≡ true
or_true a b e = ground arith

-- What an import has that is not headless and was initialised.
abbrev Initial : Import → Type 0
Initial si = (contains_string si.finalizers app_finalizer ≡ true) × (si.headless ≡ false)

with_finalizer-Initial : (si : Import) → si.headless ≡ false → Initial (with_finalizer si)
with_finalizer-Initial si h = elim (Bool-cases (contains_string si.finalizers app_finalizer)) [
  | inl e ↦ rw (e, with_finalizer) (e, h)
  | inr e ↦
      rw (e, with_finalizer)
        (
          contains_string-append si.finalizers (app_finalizer ∷ []) app_finalizer
              ∙ or_true _ _ (single app_finalizer),
          h,
        )
]

module _ (cluster : Cluster) where
  allocated-Initial :
      (si : Import) (b : Bool) (r : Cluster.State cluster × Result Text)
      → Initial si
      → Initial (allocated cluster si b r).0.1
  allocated-Initial si b (s, ok ip) h = h
  allocated-Initial si b (s, err e) h = h
  allocated-Initial si b (s, panic) h = h

  add_initial_info-Initial :
      (s : Cluster.State cluster) (si : Import)
      → si.headless ≡ false
      → Initial (add_initial_info cluster s si).0.1
  unfolding add_initial_info
  add_initial_info-Initial s si h = of_tests si.headless h (lacks_ip si.ips)
    where
      of_tests :
          (x : Bool)
          → x ≡ false
          → (y : Bool)
          → Initial
              (if x
                then clear_ip cluster s
                    (with_finalizer si)
                    (not (contains_string si.finalizers app_finalizer))
                    si.ips
                else if y
                then allocated cluster
                    (with_finalizer si)
                    (not (contains_string si.finalizers app_finalizer))
                    (Cluster.acquire_ip cluster s)
                else (
                  (s, with_finalizer si),
                  ok (not (contains_string si.finalizers app_finalizer)),
                )).0.1
      of_tests true e y = cc
      of_tests false e true =
          allocated-Initial (with_finalizer si) (not (contains_string si.finalizers app_finalizer))
            (Cluster.acquire_ip cluster s) (with_finalizer-Initial si h)
      of_tests false e false = with_finalizer-Initial si h

  kept :
      (v : Cluster.State cluster) (sj : Import)
      → Initial sj
      → lacks_ip sj.ips ≡ false
      → add_initial_info cluster v sj ≡ ((v, sj), ok false)
  unfolding add_initial_info
  kept v sj (f, h) e = simp (f, h, e, add_initial_info, with_finalizer)

  -- An import that is not headless and that was initialised with an address is not changed when it is
  -- initialised again, and no second address is acquired for it.
  pub add_initial_info_again :
      (s v : Cluster.State cluster) (si sj : Import) (b : Bool)
      → si.headless ≡ false
      → add_initial_info cluster s si ≡ ((v, sj), ok b)
      → lacks_ip sj.ips ≡ false
      → add_initial_info cluster v sj ≡ ((v, sj), ok false)
  add_initial_info_again s v si sj b h e filled =
      kept v sj (subst (λ r. Initial r.0.1) e (add_initial_info-Initial s si h)) filled
