-- ===== src/Slices.antt =====
-- utils/slice.go: lists of strings as sets.
use fleetboard.Prelude.{
  ◌≡◌, Bool, false, not, ◌&&◌, ◌||◌, List, [], ◌∷◌, ◌++◌, arith, if◌then◌else◌,
}
use fleetboard.Prelude.Text.{Text, text_eq, text_eq_iff, has_prefix}

-- ContainsString
unfoldable pub contains_string : List Text → Text → Bool
contains_string [] s = false
contains_string (item ∷ slice) s = text_eq item s || contains_string slice s

-- ContainsPrefix: some item is a prefix of `s`.
unfoldable pub contains_prefix : List Text → Text → Bool
contains_prefix [] s = false
contains_prefix (item ∷ slice) s = has_prefix s item || contains_prefix slice s

-- RemoveString (an empty result and nil are the same list here)
unfoldable pub remove_string : List Text → Text → List Text
remove_string [] s = []
remove_string (item ∷ slice) s =
    let rest = remove_string slice s in if text_eq item s then rest else item ∷ rest

-- Exactly the removed string is gone.
pub contains_string-remove_string :
    (slice : List Text) (s t : Text)
    → contains_string (remove_string slice s) t ≡ (contains_string slice t && not (text_eq s t))
unfolding contains_string remove_string
contains_string-remove_string [] s t = ground arith
contains_string-remove_string (item ∷ slice) s t = ground (
  arith,
  contains_string-remove_string slice s t,
  text_eq_iff item s,
  text_eq_iff item t,
  text_eq_iff s t,
)

pub contains_string-append :
    (xs ys : List Text) (t : Text)
    → contains_string (xs ++ ys) t ≡ (contains_string xs t || contains_string ys t)
unfolding contains_string
contains_string-append [] ys t = ground arith
contains_string-append (x ∷ xs) ys t = ground (arith, contains_string-append xs ys t)
