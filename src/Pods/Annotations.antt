-- ===== src/Pods/Annotations.antt =====
-- GetSpecificAnnotation and the loop of SetSpecificAnnotations of utils/utils.go. An annotation holds
-- several values, separated by commas.
use mathlib.Core.List.{append-nil}
use fleetboard.Prelude.{
  Bool, true, false, List, [], ◌∷◌, ◌++◌, Option, none, some, if◌then◌else◌, Result, ok, panic, ◌≡◌,
  refl, arith, Option-cases, Bool-cases, inl, inr,
}
use fleetboard.Prelude.Text.{
  split-append_any, Text, text_eq, text_eq_refl, split, Lacks, split-Lacks,
}
use fleetboard.Prelude.Dict.{Dict, lookup, insert, lookup-insert, lookup-insert_self}
use fleetboard.Slices.{contains_string, contains_string-append}

-- One round: without `override` a value is added to those there are, unless it is one of them.
unfoldable pub annotate_one : Dict Text → Text → Text → Bool → Dict Text
annotate_one m key value override = elim (lookup key m) [
  | none ↦ insert key value m
  | some existing ↦
      if override
      then insert key value m
      else if contains_string (split b',' existing) value
      then m
      else insert key (existing ++ b',' ∷ value) m
]

-- The loop over the keys; reading past the end of the values panics.
unfoldable pub annotate : Dict Text → List Text → List Text → Bool → Result (Dict Text)
annotate m [] values override = ok m
annotate m (key ∷ keys) [] override = panic
annotate m (key ∷ keys) (value ∷ values) override =
    annotate (annotate_one m key value override) keys values override

abbrev values_of : Option Text → List Text
values_of none = []
values_of (some v) = split b',' v

-- GetSpecificAnnotation
unfoldable pub get_specific_annotation : Dict Text → List Text → List Text
get_specific_annotation m [] = []
get_specific_annotation m (key ∷ keys) = values_of (lookup key m) ++ get_specific_annotation m keys

get_one :
    (m : Dict Text) (key : Text)
    → get_specific_annotation m (key ∷ []) ≡ values_of (lookup key m) ++ []
unfolding get_specific_annotation
get_one m key = refl

contains_string-single : (v : Text) → contains_string (v ∷ []) v ≡ true
unfolding contains_string
contains_string-single v = rw (text_eq_refl v) refl

module _ (v : Text) (h : Lacks b',' v) where
  split_value : contains_string (split b',' v) v ≡ true
  split_value = rw (split-Lacks b',' v h) (contains_string-single v)

  split_added : (old : Text) → contains_string (split b',' (old ++ b',' ∷ v)) v ≡ true
  split_added old =
      rw (split-append_any b',' old v, contains_string-append (split b',' old) (split b',' v) v)
        (ground (arith, split_value))

module _ (m : Dict Text) (key value : Text) (override : Bool) where
  -- A value with no comma that is set for a key is among the values read for that key afterwards,
  -- whether or not it overrides.
  pub get_specific_annotation-annotate_one :
      Lacks b',' value
      → contains_string
          (get_specific_annotation (annotate_one m key value override) (key ∷ []))
          value
        ≡ true
  unfolding annotate_one
  get_specific_annotation-annotate_one h =
      rw (get_one (annotate_one m key value override) key, append-nil)
        (elim (Option-cases (lookup key m)) [
          | inl e ↦ rw (e, annotate_one) (rw (lookup-insert_self key value m) (split_value value h))
          | inr (old, e) ↦ present old e override
        ])
    where
      present :
          (old : Text)
          → lookup key m ≡ some old
          → (o : Bool)
          → contains_string (values_of (lookup key (annotate_one m key value o))) value ≡ true
      present old e true =
          rw (e, annotate_one) (rw (lookup-insert_self key value m) (split_value value h))
      present old e false = elim (Bool-cases (contains_string (split b',' old) value)) [
        | inl there ↦ rw (e, annotate_one) (rw there (rw e there))
        | inr new ↦
            rw (e, annotate_one)
              (rw new
                (rw (lookup-insert_self key (old ++ b',' ∷ value) m) (split_added value h old)))
      ]

  -- The other keys keep their values.
  pub lookup-annotate_one :
      (other : Text)
      → text_eq key other ≡ false
      → lookup other (annotate_one m key value override) ≡ lookup other m
  unfolding annotate_one
  lookup-annotate_one other h =
      ground (
        arith,
        lookup-insert key other value m,
        lookup-insert key other (append_to (lookup key m)) m,
      )
    where
      append_to : Option Text → Text
      append_to none = []
      append_to (some old) = old ++ b',' ∷ value

pub annotate_one_override :
    (m : Dict Text) (key value : Text) → lookup key (annotate_one m key value true) ≡ some value
unfolding annotate_one
annotate_one_override m key value = elim (Option-cases (lookup key m)) [
  | inl e ↦ rw (e, annotate_one) (lookup-insert_self key value m)
  | inr (old, e) ↦ rw (e, annotate_one) (lookup-insert_self key value m)
]

pub annotate_two :
    (m : Dict Text) (k j v u : Text)
    → annotate m (k ∷ j ∷ []) (v ∷ u ∷ []) true
      ≡ ok (annotate_one (annotate_one m k v true) j u true)
unfolding annotate
annotate_two m k j v u = refl
