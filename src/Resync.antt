-- ===== src/Resync.antt =====
-- ResourceNeedResync and shouldPatchBeIgnored of utils/deploy.go. The JSON patch between two objects
-- is an argument: `none` when an object cannot be marshalled or compared.
use fleetboard.Prelude.{Bool, true, false, not, ◌&&◌, ◌||◌, List, [], ◌∷◌, Option, none, some}
use fleetboard.Prelude.Text.{Text, codes}
use fleetboard.Slices.{contains_string, contains_prefix}

-- jsonpatch.JsonPatchOperation: its kind and its path; `other_op` is a copy, a move or a test.
pub data OperationKind : Type 0 where
  add_op remove_op replace_op other_op : OperationKind

pub record Operation : Type 0 where
  pub kind : OperationKind
  pub path : Text

-- fieldsToBeIgnored and sectionToBeIgnored
abbrev pub fields_to_be_ignored : List Text
fields_to_be_ignored =
    codes "/metadata/generation"
    ∷ codes "/metadata/creationTimestamp"
    ∷ codes "/metadata/managedFields"
    ∷ codes "/metadata/uid"
    ∷ codes "/metadata/selfLink"
    ∷ codes "/metadata/resourceVersion"
    ∷ []

abbrev pub section_to_be_ignored : List Text
section_to_be_ignored = codes "/status" ∷ []

unfoldable pub should_patch_be_ignored : Operation → Bool
should_patch_be_ignored o =
    contains_string fields_to_be_ignored o.path || contains_prefix section_to_be_ignored o.path

-- The switch over the kind of an operation that is not ignored.
abbrev pub counts : OperationKind → Bool → Bool
counts add_op ignore_add = not ignore_add
counts remove_op ignore_add = true
counts replace_op ignore_add = true
counts other_op ignore_add = false

-- The loop over the operations.
unfoldable pub any_change : List Operation → Bool → Bool
any_change [] ignore_add = false
any_change (o ∷ patch) ignore_add =
    not (should_patch_be_ignored o) && counts o.kind ignore_add || any_change patch ignore_add

-- ResourceNeedResync
unfoldable pub resource_need_resync : Option (List Operation) → Bool → Bool
unfolding any_change
resource_need_resync none ignore_add = false
resource_need_resync (some patch) ignore_add = any_change patch ignore_add
