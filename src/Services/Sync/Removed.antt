-- ===== src/Services/Sync/Removed.antt =====
-- What RemoveNonexistentEndpointslice deletes, and what it leaves alone.
use fleetboard.Prelude.{
  ◌≡◌, ◌∙◌, refl, sym, subst, Bool, true, false, ◌&&◌, List, [], ◌∷◌, Option, none, some, Error, ok,
  Elem, inl, inr, Bool-cases, arith,
}
use fleetboard.Prelude.Text.{Text, text_eq, text_eq_iff}
use fleetboard.Prelude.Dict.{Dict}
use fleetboard.Slices.{contains_string}
use fleetboard.Services.Api.{SliceApi, Slice, selects}
use fleetboard.Services.Sync.{
  delete_others, if_deleted, removal, delete_listed, remove_nonexistent, source_names,
}

other_name :
    (names : List Text) (a b namespace : Text)
    → contains_string names a ≡ false
    → contains_string names b ≡ true
    → (text_eq namespace namespace && text_eq a b) ≡ false
other_name names a b namespace h k = elim (Bool-cases (text_eq a b)) [
  | inl e ↦ absurd (cc (subst (λ x. contains_string names x ≡ false) ((text_eq_iff a b).0 e) h))
  | inr e ↦ ground arith
]

module _ {State : Type 0} (api : SliceApi State) where
  if_deleted-view :
      (r : State × Option Error) (next : State → State × Option Error) (n m : Text)
      (o : Option Slice)
      → api.view r.0 n m ≡ o
      → ((u : State) → api.view u n m ≡ o → api.view (next u).0 n m ≡ o)
      → api.view (if_deleted api r next).0 n m ≡ o
  if_deleted-view (u, none) next n m o e k = k u e
  if_deleted-view (u, some x) next n m o e k = e

  pub delete_others-kept :
      (t : State) (namespace : Text) (names : List Text) (items : List Slice) (name : Text)
      → contains_string names name ≡ true
      → api.view (delete_others api t namespace names items).0 namespace name
        ≡ api.view t namespace name
  unfolding delete_others
  delete_others-kept t namespace names [] name h = refl
  delete_others-kept t namespace names (s ∷ items) name h =
      elim (Bool-cases (contains_string names s.name)) [
        | inl e ↦ rw e (delete_others-kept t namespace names items name h)
        | inr e ↦ rw e (
            if_deleted-view (api.delete t namespace s.name)
              (λ u. delete_others api u namespace names items) namespace name
              (api.view t namespace name)
              (api.delete_keeps t namespace s.name namespace name
                (other_name names s.name name namespace e h))
              (λ u k. delete_others-kept u namespace names items name h ∙ k))
      ]

  delete-still :
      (t : State) (namespace a name : Text)
      → api.view t namespace name ≡ none
      → (api.delete t namespace a).1 ≡ none
      → api.view (api.delete t namespace a).0 namespace name ≡ none
  delete-still t namespace a name h k =
      elim (Bool-cases (text_eq namespace namespace && text_eq a name)) [
        | inl e ↦
            subst (λ x. api.view (api.delete t namespace a).0 namespace x ≡ none)
              ((text_eq_iff a name).0 (ground arith)) (api.deleted t namespace a k)
        | inr e ↦ api.delete_keeps t namespace a namespace name e ∙ h
      ]

  -- What holds after a step that succeeds and after the steps behind it.
  if_deleted-then :
      (r : State × Option Error) (next : State → State × Option Error) (P Q : State → Type 0)
      → (r.1 ≡ none → P r.0)
      → ((u : State) → P u → (next u).1 ≡ none → Q (next u).0)
      → (if_deleted api r next).1 ≡ none
      → Q (if_deleted api r next).0
  if_deleted-then (u, none) next P Q e k h = k u (e refl) h
  if_deleted-then (u, some x) next P Q e k h = cc

  delete_others-still :
      (t : State) (namespace : Text) (names : List Text) (items : List Slice) (name : Text)
      → api.view t namespace name ≡ none
      → (delete_others api t namespace names items).1 ≡ none
      → api.view (delete_others api t namespace names items).0 namespace name ≡ none
  unfolding delete_others
  delete_others-still t namespace names [] name h = λ k. h
  delete_others-still t namespace names (s ∷ items) name h =
      elim (Bool-cases (contains_string names s.name)) [
        | inl b ↦ rw b (delete_others-still t namespace names items name h)
        | inr b ↦ rw b (
            if_deleted-then (api.delete t namespace s.name)
              (λ u. delete_others api u namespace names items)
              (λ u. api.view u namespace name ≡ none) (λ u. api.view u namespace name ≡ none)
              (delete-still t namespace s.name name h)
              (λ u. delete_others-still u namespace names items name))
      ]

  -- When the loop succeeds, a slice of the list whose name is not wanted is gone.
  delete_others-gone :
      (t : State) (namespace : Text) (names : List Text) (items : List Slice) (x : Slice)
      → Elem x items
      → contains_string names x.name ≡ false
      → (delete_others api t namespace names items).1 ≡ none
      → api.view (delete_others api t namespace names items).0 namespace x.name ≡ none
  unfolding delete_others
  delete_others-gone t namespace names [] x e h = absurd e
  delete_others-gone t namespace names (s ∷ items) x (inl e) h =
      elim (Bool-cases (contains_string names s.name)) [
        | inl b ↦ absurd (cc (subst (λ y. contains_string names y.name ≡ false) e h))
        | inr b ↦ rw b (
            if_deleted-then (api.delete t namespace s.name)
              (λ u. delete_others api u namespace names items)
              (λ u. api.view u namespace x.name ≡ none) (λ u. api.view u namespace x.name ≡ none)
              (λ k.
                subst (λ y. api.view (api.delete t namespace s.name).0 namespace y.name ≡ none)
                  (sym e) (api.deleted t namespace s.name k))
              (λ u. delete_others-still u namespace names items x.name))
      ]
  delete_others-gone t namespace names (s ∷ items) x (inr e) h =
      elim (Bool-cases (contains_string names s.name)) [
        | inl b ↦ rw b (delete_others-gone t namespace names items x e h)
        | inr b ↦ rw b (
            if_deleted-then (api.delete t namespace s.name)
              (λ u. delete_others api u namespace names items) (λ u. Unit)
              (λ u. api.view u namespace x.name ≡ none) (λ k. tt)
              (λ u k. delete_others-gone u namespace names items x e h))
      ]

  -- What the answer for a list of source slices says of the target: the slices with the labels are
  -- gone if their names are not wanted, and the wanted names have what they had.
  pub record Cleared (t u : State) (namespace : Text) (selector : Dict Text) (names : List Text)
      : Type 0 where
    pub gone :
        (s : Slice)
        → api.view t namespace s.name ≡ some s
        → selects selector s.labels ≡ true
        → contains_string names s.name ≡ false
        → api.view u namespace s.name ≡ none
    pub wanted :
        (name : Text)
        → contains_string names name ≡ true
        → api.view u namespace name ≡ api.view t namespace name

  -- When the target can be listed and RemoveNonexistentEndpointslice reports success for the slices
  -- that the source has, then the target's slices with the labels are gone, except those with the
  -- name of a source slice, and these names have what they had.
  pub remove_nonexistent-Cleared :
      (t : State) (cluster : Text) (name_changed : Bool) (namespace : Text) (selector : Dict Text)
      (slices items sources : List Slice)
      → api.list t namespace selector ≡ ok items
      → (remove_nonexistent api t (ok slices) cluster name_changed namespace selector).1
        ≡ ok sources
      → Cleared t
          (remove_nonexistent api t (ok slices) cluster name_changed namespace selector).0
          namespace
          selector
          (source_names cluster name_changed slices)
        × (sources ≡ slices)
  unfolding remove_nonexistent
  remove_nonexistent-Cleared t cluster name_changed namespace selector slices items sources l h =
      subst
        (λ r.
          (removal api slices (delete_listed api t namespace names r)).1 ≡ ok sources
          → Cleared t (removal api slices (delete_listed api t namespace names r)).0 namespace
              selector names
            × (sources ≡ slices))
        (sym l)
        (λ k.
          let (a, b, c) = of_removal (delete_others api t namespace names items) k in
          (subst (λ u. Cleared t u namespace selector names) (sym b) (cleared a), c))
        h
    where
      names : List Text
      names = source_names cluster name_changed slices

      of_removal :
          (r : State × Option Error)
          → (removal api slices r).1 ≡ ok sources
          → (r.1 ≡ none) × ((removal api slices r).0 ≡ r.0) × (sources ≡ slices)
      of_removal (u, none) k = (refl, refl, cc)
      of_removal (u, some e) k = cc

      cleared :
          (delete_others api t namespace names items).1 ≡ none
          → Cleared t (delete_others api t namespace names items).0 namespace selector names
      cleared k = record {
        gone = λ s v b e.
            delete_others-gone t namespace names items s
              (api.listed t namespace s.name selector l v b) e k;
        wanted = λ name. delete_others-kept t namespace names items name;
      }
