-- ===== src/Services/Api.antt =====
-- The endpoint slices of an API server, with what the server documents of their operations. Other
-- clients of the server are left out: between two calls nothing changes.
use fleetboard.Prelude.{
  Bool, true, false, ◌&&◌, List, [], ◌∷◌, Option, none, some, Error, Status, done, Result, ok, ◌≡◌,
  ◌≢◌, Elem,
}
use fleetboard.Prelude.Text.{Text, text_eq}
use fleetboard.Prelude.Dict.{Dict, lookup}
use fleetboard.Resync.{Operation, any_change}

-- What is copied from slice to slice.
pub record Content : Type 0 where
  pub address_type : Text
  pub endpoints : List Text
  pub ports : List Text

-- v1.EndpointSlice
pub record Slice : Type 0 where
  pub name : Text
  pub namespace : Text
  pub labels : Dict Text
  pub content : Content

-- A selector made from a set of labels.
unfoldable pub selects : Dict Text → Dict Text → Bool
selects [] labels = true
selects ((k, v) ∷ selector) labels =
    (elim (lookup k labels) [ none ↦ false | some w ↦ text_eq w v ]) && selects selector labels

-- Whether a slice has this namespace and name.
abbrev pub is_slice : Text → Text → Slice → Bool
is_slice namespace name s = text_eq s.namespace namespace && text_eq s.name name

-- The calls, and the slice that the server has under a namespace and a name.
pub record SliceApi (State : Type 0) : Type 1 where
  pub view : State → Text → Text → Option Slice
  pub create : State → Slice → State × Option Error
  pub get : State → Text → Text → Result Slice
  pub update : State → Slice → State × Option Error
  pub delete : State → Text → Text → State × Option Error
  pub list : State → Text → Dict Text → Result (List Slice)
  -- The JSON patch between two slices, and RetryOnConflict.
  pub create_patch : Slice → Slice → Option (List Operation)
  pub retry_on_conflict : (State → State × Status) → State → State × Status
  pub named :
      (t : State) (namespace name : Text) {s : Slice}
      → view t namespace name ≡ some s
      → is_slice namespace name s ≡ true
  pub created :
      (t : State) (s : Slice)
      → (create t s).1 ≡ none
      → view (create t s).0 s.namespace s.name ≡ some s
  pub create_keeps :
      (t : State) (s : Slice) (namespace name : Text)
      → is_slice namespace name s ≡ false
      → view (create t s).0 namespace name ≡ view t namespace name
  pub got :
      (t : State) (namespace name : Text) {s : Slice}
      → get t namespace name ≡ ok s
      → view t namespace name ≡ some s
  pub updated :
      (t : State) (s : Slice)
      → (update t s).1 ≡ none
      → view (update t s).0 s.namespace s.name ≡ some s
  pub update_keeps :
      (t : State) (s : Slice) (namespace name : Text)
      → is_slice namespace name s ≡ false
      → view (update t s).0 namespace name ≡ view t namespace name
  pub deleted :
      (t : State) (namespace name : Text)
      → (delete t namespace name).1 ≡ none
      → view (delete t namespace name).0 namespace name ≡ none
  pub delete_keeps :
      (t : State) (namespace name n m : Text)
      → (text_eq namespace n && text_eq name m) ≡ false
      → view (delete t namespace name).0 n m ≡ view t n m
  pub listed :
      (t : State) (namespace name : Text) (selector : Dict Text) {s : Slice} {l : List Slice}
      → list t namespace selector ≡ ok l
      → view t namespace name ≡ some s
      → selects selector s.labels ≡ true
      → Elem s l
  -- A patch describes every difference, and only metadata and status have paths that are ignored.
  pub patched : (s u : Slice) → create_patch s u ≢ none
  pub unchanged :
      (s u : Slice) {patch : List Operation}
      → create_patch s u ≡ some patch
      → any_change patch false ≡ false
      → s.content ≡ u.content
  -- The closure is called, perhaps several times, and the answer is that of the last call.
  pub retried :
      (f : State → State × Status) (P Q : State → Type 0) (t : State)
      → P t
      → ((u : State) → P u → P (f u).0)
      → ((u : State) → P u → (f u).1 ≡ done → Q (f u).0)
      → P (retry_on_conflict f t).0
        × ((retry_on_conflict f t).1 ≡ done → Q (retry_on_conflict f t).0)
