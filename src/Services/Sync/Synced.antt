-- ===== src/Services/Sync/Synced.antt =====
-- What both service controllers achieve when they report success: the target's slices with the labels
-- are those of the source.
use fleetboard.Prelude.{
  ℕ, if◌then◌else◌, ◌≡◌, ◌∙◌, refl, sym, subst, Bool, true, false, ◌&&◌, List, [], ◌∷◌, Option,
  none, some, map, Error, Result, ok, err, panic, All, arith,
}
use fleetboard.Prelude.Text.{Text, text_eq}
use fleetboard.Prelude.Dict.{Dict}
use fleetboard.Slices.{contains_string}
use fleetboard.Controllers.Inter.{settled, reply, panics}
use fleetboard.Services.Api.{SliceApi, Slice, selects, is_slice}
use fleetboard.Services.Sync.{
  apply_rest, finish, sync_slices, source_names, target_name, remove_nonexistent, any_error,
}
use fleetboard.Services.Apply.{apply_all, goroutine, unraced, started}
use fleetboard.Services.Sync.Applied.{Applied}
use fleetboard.Services.Sync.Turns.{DistinctKeys}
use fleetboard.Services.Sync.Collected.{apply_all-Applied, apply_all-kept}
use fleetboard.Services.Sync.Removed.{Cleared, remove_nonexistent-Cleared}

abbrev pub Distinct : List Text → Type 0
Distinct [] = Unit
Distinct (name ∷ names) = (contains_string names name ≡ false) × Distinct names

-- What `fork` makes of the slices stands in the target under the names that they have there, with
-- their content.
abbrev pub Names : (Slice → Slice) → Text → Bool → Text → List Slice → Type 0
Names fork cluster name_changed namespace slices =
    All
      (λ s.
        ((fork s).namespace ≡ namespace)
        × ((fork s).name ≡ target_name cluster name_changed s)
        × ((fork s).content ≡ s.content))
      slices

module _ (fork : Slice → Slice) (cluster : Text) (name_changed : Bool) (namespace : Text) where
  other_keys :
      (name n : Text) (slices : List Slice)
      → Names fork cluster name_changed namespace slices
      → contains_string (source_names cluster name_changed slices) name ≡ false
      → All (λ u. is_slice n name u ≡ false) (map fork slices)
  unfolding contains_string source_names
  other_keys name n [] named h = tt
  other_keys name n (s ∷ slices) ((a, b, c), named) h = (
    subst (λ x. (text_eq (fork s).namespace n && text_eq x name) ≡ false) (sym b) (ground arith),
    other_keys name n slices named (ground arith),
  )

  Distinct-DistinctKeys :
      (slices : List Slice)
      → Names fork cluster name_changed namespace slices
      → Distinct (source_names cluster name_changed slices)
      → DistinctKeys (map fork slices)
  unfolding source_names
  Distinct-DistinctKeys [] named d = tt
  Distinct-DistinctKeys (s ∷ slices) ((a, b, c), named) (d, ds) = (
    other_keys (fork s).name (fork s).namespace slices named (
        subst (λ x. contains_string (source_names cluster name_changed slices) x ≡ false) (sym b)
          d),
    Distinct-DistinctKeys slices named ds,
  )

module _ {State : Type 0} (api : SliceApi State) where
  -- The slice of the source is in the target, under the name that it has there and with its content.
  pub record Landed (u : State) (cluster : Text) (name_changed : Bool) (namespace : Text)
      (s : Slice) : Type 0 where
    pub there : Slice
    pub found : api.view u namespace (target_name cluster name_changed s) ≡ some there
    pub same : there.content ≡ s.content

  pub record Synced (t u : State) (cluster : Text) (name_changed : Bool) (namespace : Text)
      (selector : Dict Text) (slices : List Slice) : Type 0 where
    -- Every slice of the source is there.
    pub there : All (Landed u cluster name_changed namespace) slices
    -- Whatever else had the labels is gone.
    pub gone :
        (s : Slice)
        → api.view t namespace s.name ≡ some s
        → selects selector s.labels ≡ true
        → contains_string (source_names cluster name_changed slices) s.name ≡ false
        → api.view u namespace s.name ≡ none

  Applied-Landed :
      (u : State) (fork : Slice → Slice) (cluster : Text) (name_changed : Bool) (namespace : Text)
      (slices : List Slice)
      → Names fork cluster name_changed namespace slices
      → All (Applied api u) (map fork slices)
      → All (Landed u cluster name_changed namespace) slices
  Applied-Landed u fork cluster name_changed namespace [] named h = tt
  Applied-Landed u fork cluster name_changed namespace (s ∷ slices) ((a, b, c), named) (h, hs) = (
    record {
      there = h.there;
      found =
          subst (λ n. api.view u n (target_name cluster name_changed s) ≡ some h.there) a
            (subst (λ n. api.view u (fork s).namespace n ≡ some h.there) b h.found);
      same = h.same ∙ c;
    },
    Applied-Landed u fork cluster name_changed namespace slices named hs,
  )

  -- Where it started makes no difference as long as the slices are the same.
  pub Synced-view :
      (t v u : State) {cluster : Text} {name_changed : Bool} {namespace : Text}
      {selector : Dict Text} {slices : List Slice}
      → ((n m : Text) → api.view v n m ≡ api.view t n m)
      → Synced v u cluster name_changed namespace selector slices
      → Synced t u cluster name_changed namespace selector slices
  Synced-view t v u {namespace = namespace} h a = record {
    there = a.there;
    gone = λ s e. a.gone s (h namespace s.name ∙ e);
  }

  of_finish :
      (r : State × Result (List (Option Error) × Option Error))
      → (finish api r).1 ≡ settled
      → (last : Option Error) × (r.1 ≡ ok ([], last)) × ((finish api r).0 ≡ r.0)
  of_finish (u, panic) h = cc
  of_finish (u, err e) h = cc
  of_finish (u, ok (e ∷ sent, last)) h = of_test (any_error (e ∷ sent)) h
    where
      of_test :
          (b : Bool)
          → (if b then reply (some 1) last else panics) ≡ settled
          → (l : Option Error) × (◌≡◌ {A = Result (List (Option Error) × Option Error)}
              (ok (e ∷ sent, last))
              (ok ([], l)))
            × (u ≡ u)
      of_test true k = cc
      of_test false k = cc
  of_finish (u, ok ([], last)) h = (last, refl, refl)

  of_rest :
      (schedule : List ℕ) (fork : Slice → Slice) (r : State × Result (List Slice))
      → (apply_rest api schedule fork r).1 ≡ settled
      → (slices : List Slice) × (r.1 ≡ ok slices)
        × ((finish api (apply_all api schedule r.0 (map fork slices))).1 ≡ settled)
        × ((apply_rest api schedule fork r).0
            ≡ (finish api (apply_all api schedule r.0 (map fork slices))).0)
  of_rest schedule fork (u, panic) h = cc
  of_rest schedule fork (u, err e) h = cc
  of_rest schedule fork (u, ok slices) h = (slices, refl, h, refl)

  module _ (schedule : List ℕ) (cluster : Text) (name_changed : Bool) (namespace : Text)
      (selector : Dict Text) (fork : Slice → Slice) (slices : List Slice)
      (named : Names fork cluster name_changed namespace slices)
      (distinct : Distinct (source_names cluster name_changed slices))
      (fair : (u : State)
        → unraced api schedule (started api u) (map goroutine (map fork slices)) ≡ true) where
    -- Applying the slices behind the removal.
    applied-Synced :
        (t u : State) (last : Option Error)
        → Cleared api t u namespace selector (source_names cluster name_changed slices)
        → (apply_all api schedule u (map fork slices)).1 ≡ ok ([], last)
        → Synced t
            (apply_all api schedule u (map fork slices)).0
            cluster
            name_changed
            namespace
            selector
            slices
    applied-Synced t u last c h = record {
      there =
          Applied-Landed (apply_all api schedule u (map fork slices)).0 fork cluster name_changed
            namespace slices named
            (apply_all-Applied api schedule u (map fork slices) last (fair u)
              (Distinct-DistinctKeys fork cluster name_changed namespace slices named distinct) h);
      gone = λ s v b k.
          apply_all-kept api schedule u (map fork slices) namespace s.name
            (other_keys fork cluster name_changed namespace s.name namespace slices named k)
          ∙ c.gone s v b k;
    }

    -- When the slices of the source have different names in the target, the target can be listed, no
    -- goroutine assigns `err` between the assignment and the test of another, and the handler's part
    -- for slices reports success, then every one of them is in the target, with its content, and the
    -- target's other slices with the labels are gone.
    pub sync_slices-Synced :
        (t : State) (items : List Slice)
        → api.list t namespace selector ≡ ok items
        → (sync_slices api schedule t (ok slices) cluster name_changed namespace selector fork).1
          ≡ settled
        → Synced t
            (sync_slices api schedule t (ok slices) cluster name_changed namespace selector fork).0
            cluster
            name_changed
            namespace
            selector
            slices
    unfolding sync_slices
    sync_slices-Synced t items l h =
        let r = remove_nonexistent api t (ok slices) cluster name_changed namespace selector in
        let (sources, e, f, g) = of_rest schedule fork r h in
        let (c, same) =
          remove_nonexistent-Cleared api t cluster name_changed namespace selector slices items
            sources l e in
        let f' =
          subst (λ xs. (finish api (apply_all api schedule r.0 (map fork xs))).1 ≡ settled) same
            f in
        let g' =
          subst
            (λ xs.
              (apply_rest api schedule fork r).0
              ≡ (finish api (apply_all api schedule r.0 (map fork xs))).0)
            same g in
        let (last, i, j) = of_finish (apply_all api schedule r.0 (map fork slices)) f' in
        subst (λ w. Synced t w cluster name_changed namespace selector slices) (sym (g' ∙ j))
          (applied-Synced t r.0 last c i)
