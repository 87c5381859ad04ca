-- ===== src/Services/Sync.antt =====
-- RemoveNonexistentEndpointslice of utils/endpointslice.go, and the part of both service controllers
-- that brings the slices of the target in line with those of the source.
pub mod Applied
pub mod Turns
pub mod Fair
pub mod Collected
pub mod Removed
pub mod Synced
use fleetboard.Prelude.{
  ℕ, ◌||◌, map, Bool, true, false, not, List, [], ◌∷◌, ◌++◌, Option, none, some, if◌then◌else◌,
  Error, not_found, already_exists, Status, done, failed, panicked, Result, ok, err, panic,
}
use fleetboard.Prelude.Text.{Text}
use fleetboard.Prelude.Dict.{Dict}
use fleetboard.Slices.{contains_string}
use fleetboard.Resync.{resource_need_resync}
use fleetboard.Controllers.Inter.{Reply, reply, panics, settled}
use fleetboard.Services.Apply.{apply_all, is_error}
use fleetboard.Services.Api.{SliceApi, Slice}

-- "%s-%s-%s"
abbrev pub dashed : Text → Text → Text → Text
dashed a b c = a ++ b'-' ∷ (b ++ b'-' ∷ c)

-- The name that a source slice has in the target.
abbrev pub target_name : Text → Bool → Slice → Text
target_name cluster name_changed s =
    if name_changed then dashed cluster s.namespace s.name else s.name

-- srcEndpointSliceMap
unfoldable pub source_names : Text → Bool → List Slice → List Text
source_names cluster name_changed [] = []
source_names cluster name_changed (s ∷ slices) =
    target_name cluster name_changed s ∷ source_names cluster name_changed slices

-- One of the errors is not nil.
abbrev pub any_error : List (Option Error) → Bool
any_error [] = false
any_error (e ∷ sent) = is_error e || any_error sent

module _ {State : Type 0} (api : SliceApi State) where
  abbrev pub if_deleted :
      State × Option Error → (State → State × Option Error) → State × Option Error
  if_deleted (t, none) next = next t
  if_deleted (t, some e) next = (t, some e)

  -- The loop that deletes the slices whose names are not among `names`.
  unfoldable pub delete_others : State → Text → List Text → List Slice → State × Option Error
  delete_others t namespace names [] = (t, none)
  delete_others t namespace names (s ∷ items) =
      if contains_string names s.name
      then delete_others t namespace names items
      else if_deleted (api.delete t namespace s.name) (λ u. delete_others u namespace names items)

  -- An error of listing the target is dropped.
  abbrev pub delete_listed : State → Text → List Text → Result (List Slice) → State × Option Error
  delete_listed t namespace names panic = (t, none)
  delete_listed t namespace names (err e) = (t, none)
  delete_listed t namespace names (ok items) = delete_others t namespace names items

  abbrev pub removal : List Slice → State × Option Error → State × Result (List Slice)
  removal slices (t, none) = (t, ok slices)
  removal slices (t, some e) = (t, err e)

  abbrev pub remove_for :
      State → Text → Bool → Text → Dict Text → List Slice → State × Result (List Slice)
  remove_for t cluster name_changed namespace selector slices = removal slices (
      delete_listed t namespace (source_names cluster name_changed slices)
        (api.list t namespace selector))

  -- RemoveNonexistentEndpointslice, for what the lister of the source answers.
  unfoldable pub remove_nonexistent :
      State → Result (List Slice) → Text → Bool → Text → Dict Text → State × Result (List Slice)
  unfolding delete_others source_names
  remove_nonexistent t panic cluster name_changed namespace selector = (t, panic)
  remove_nonexistent t (err not_found) cluster name_changed namespace selector =
      remove_for t cluster name_changed namespace selector []
  remove_nonexistent t (err e) cluster name_changed namespace selector = (t, err e)
  remove_nonexistent t (ok slices) cluster name_changed namespace selector =
      remove_for t cluster name_changed namespace selector slices

  -- The end of a handler: errors are collected, but what is returned is `err`. NewAggregate makes nil
  -- of errors that are all nil, and reading its text panics.
  abbrev pub finish : State × Result (List (Option Error) × Option Error) → State × Reply
  finish (t, panic) = (t, panics)
  finish (t, err e) = (t, reply (some 1) (some e))
  finish (t, ok ([], last)) = (t, settled)
  finish (t, ok (e ∷ sent, last)) =
      (t, if any_error (e ∷ sent) then reply (some 1) last else panics)

  abbrev pub apply_rest : List ℕ → (Slice → Slice) → State × Result (List Slice) → State × Reply
  apply_rest schedule fork (t, panic) = (t, panics)
  apply_rest schedule fork (t, err e) = (t, reply (some 1) (some e))
  apply_rest schedule fork (t, ok slices) = finish (apply_all api schedule t (map fork slices))

  -- The part of both handlers behind the resource itself, for a schedule of the goroutines.
  unfoldable pub sync_slices :
      List ℕ
      → State
      → Result (List Slice)
      → Text
      → Bool
      → Text
      → Dict Text
      → (Slice → Slice)
      → State × Reply
  unfolding apply_all remove_nonexistent
  sync_slices schedule t sources cluster name_changed namespace selector fork =
      apply_rest schedule fork
        (remove_nonexistent t sources cluster name_changed namespace selector)
