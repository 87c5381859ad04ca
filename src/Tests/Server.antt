-- ===== src/Tests/Server.antt =====
-- A server of endpoint slices that keeps them in a list, for which the laws hold.
use fleetboard.Prelude.{
  ◌≡◌, ◌∙◌, refl, sym, ap, subst, Bool, true, false, ◌&&◌, List, [], ◌∷◌, Option, none, some,
  if◌then◌else◌, inl, inr, Bool-cases, Error, already_exists, not_found, Result, ok, err, Elem,
  arith,
}
use fleetboard.Prelude.Text.{Text, codes, text_eq, text_eq_iff, text_eq_refl, has_prefix}
use fleetboard.Prelude.Dict.{Dict}
use fleetboard.Slices.{contains_string, contains_prefix}
use fleetboard.Resync.{Operation, OperationKind, any_change, should_patch_be_ignored}
use fleetboard.Services.Sync.Applied.{is_slice_iff}
use fleetboard.Services.Api.{SliceApi, Slice, Content, is_slice, selects}

unfoldable pub view : List Slice → Text → Text → Option Slice
view [] namespace name = none
view (s ∷ t) namespace name = if is_slice namespace name s then some s else view t namespace name

unfoldable pub without : List Slice → Text → Text → List Slice
without [] namespace name = []
without (s ∷ t) namespace name =
    let rest = without t namespace name in if is_slice namespace name s then rest else s ∷ rest

unfoldable pub selected : List Slice → Dict Text → List Slice
selected [] selector = []
selected (s ∷ t) selector =
    let rest = selected t selector in if selects selector s.labels then s ∷ rest else rest

abbrev pub create_in : List Slice → Slice → Option Slice → List Slice × Option Error
create_in t s none = (s ∷ t, none)
create_in t s (some old) = (t, some already_exists)

abbrev pub got_from : Option Slice → Result Slice
got_from none = err not_found
got_from (some s) = ok s

unfoldable pub texts_eq : List Text → List Text → Bool
texts_eq [] [] = true
texts_eq [] (t ∷ ts) = false
texts_eq (s ∷ ss) [] = false
texts_eq (s ∷ ss) (t ∷ ts) = text_eq s t && texts_eq ss ts

texts_eq-eq : (s t : List Text) → texts_eq s t ≡ true → s ≡ t
unfolding texts_eq
texts_eq-eq [] [] h = refl
texts_eq-eq [] (t ∷ ts) h = cc
texts_eq-eq (s ∷ ss) [] h = cc
texts_eq-eq (s ∷ ss) (t ∷ ts) h = ground (arith, text_eq_iff s t, texts_eq-eq ss ts)

abbrev pub same_content : Content → Content → Bool
same_content a b =
    text_eq a.address_type b.address_type
    && (texts_eq a.endpoints b.endpoints && texts_eq a.ports b.ports)

pub same_content-eq : (a b : Content) → same_content a b ≡ true → a ≡ b
same_content-eq a b h = ground (
  arith,
  text_eq_iff a.address_type b.address_type,
  texts_eq-eq a.endpoints b.endpoints,
  texts_eq-eq a.ports b.ports,
)

abbrev pub replacement : List Operation
replacement = record { kind = OperationKind.replace_op; path = codes "/endpoints" } ∷ []

abbrev pub patch_of : Bool → List Operation
patch_of true = []
patch_of false = replacement

pub patch_of-changed : (b : Bool) → any_change (patch_of b) false ≡ false → b ≡ true
unfolding any_change should_patch_be_ignored contains_string contains_prefix has_prefix text_eq
patch_of-changed true h = refl
patch_of-changed false h = cc

pub view-named :
    (t : List Slice) (namespace name : Text) {s : Slice}
    → view t namespace name ≡ some s
    → is_slice namespace name s ≡ true
unfolding view
view-named [] namespace name h = cc
view-named (u ∷ t) namespace name {s} h =
    of_test (is_slice namespace name u) refl h (view-named t namespace name)
  where
    of_test :
        (b : Bool)
        → is_slice namespace name u ≡ b
        → (if b then some u else view t namespace name) ≡ some s
        → (view t namespace name ≡ some s → is_slice namespace name s ≡ true)
        → is_slice namespace name s ≡ true
    of_test true e f ih = subst (λ x. is_slice namespace name x ≡ true) (injected f) e
      where
        injected : ◌≡◌ {A = Option Slice} (some u) (some s) → u ≡ s
        injected g = cc
    of_test false e f ih = ih f

pub view-own : (t : List Slice) (s : Slice) → view (s ∷ t) s.namespace s.name ≡ some s
unfolding view
view-own t s = rw (text_eq_refl s.namespace, text_eq_refl s.name) refl

pub view-other :
    (t : List Slice) (s : Slice) (namespace name : Text)
    → is_slice namespace name s ≡ false
    → view (s ∷ t) namespace name ≡ view t namespace name
unfolding view
view-other t s namespace name h = rw h refl

other_slice :
    (namespace name n m : Text) (s : Slice)
    → is_slice namespace name s ≡ true
    → (text_eq namespace n && text_eq name m) ≡ false
    → is_slice n m s ≡ false
other_slice namespace name n m s e h =
    let (a, b) = is_slice_iff namespace name s e in
    subst (λ x. (text_eq x n && text_eq s.name m) ≡ false) (sym a)
      (subst (λ x. (text_eq namespace n && text_eq x m) ≡ false) (sym b) h)

view-cons :
    (s : Slice) (t u : List Slice) (n m : Text)
    → view t n m ≡ view u n m
    → view (s ∷ t) n m ≡ view (s ∷ u) n m
unfolding view
view-cons s t u n m h = ap (λ o. if is_slice n m s then some s else o) h

pub view-without :
    (t : List Slice) (namespace name : Text) → view (without t namespace name) namespace name ≡ none
unfolding view without
view-without [] namespace name = refl
view-without (s ∷ t) namespace name = elim (Bool-cases (is_slice namespace name s)) [
  | inl e ↦ rw e (view-without t namespace name)
  | inr e ↦
      rw e
        (view-other (without t namespace name) s namespace name e ∙ view-without t namespace name)
]

pub without_keeps :
    (t : List Slice) (namespace name n m : Text)
    → (text_eq namespace n && text_eq name m) ≡ false
    → view (without t namespace name) n m ≡ view t n m
unfolding view without
without_keeps [] namespace name n m h = refl
without_keeps (s ∷ t) namespace name n m h = elim (Bool-cases (is_slice namespace name s)) [
  | inl e ↦ rw e (
      without_keeps t namespace name n m h
      ∙ sym (view-other t s n m (other_slice namespace name n m s e h)))
  | inr e ↦
      rw e (view-cons s (without t namespace name) t n m (without_keeps t namespace name n m h))
]

pub view-Elem :
    (t : List Slice) (namespace name : Text) (selector : Dict Text) {s : Slice}
    → view t namespace name ≡ some s
    → selects selector s.labels ≡ true
    → Elem s (selected t selector)
unfolding view selected
view-Elem [] namespace name selector h e = cc
view-Elem (u ∷ t) namespace name selector {s} h e =
    of_test (is_slice namespace name u) (selects selector u.labels) refl h
      (λ k. view-Elem t namespace name selector k e)
  where
    injected : ◌≡◌ {A = Option Slice} (some u) (some s) → u ≡ s
    injected g = cc

    of_test :
        (b c : Bool)
        → selects selector u.labels ≡ c
        → (if b then some u else view t namespace name) ≡ some s
        → (view t namespace name ≡ some s → Elem s (selected t selector))
        → Elem s (if c then u ∷ selected t selector else selected t selector)
    of_test true true g f ih = inl (sym (injected f))
    of_test true false g f ih = cc (subst (λ x. selects selector x.labels ≡ false) (injected f) g)
    of_test false true g f ih = inr (ih f)
    of_test false false g f ih = ih f

pub created_in :
    (t : List Slice) (s : Slice) (o : Option Slice)
    → (create_in t s o).1 ≡ none
    → view (create_in t s o).0 s.namespace s.name ≡ some s
created_in t s none h = view-own t s
created_in t s (some old) h = cc

pub created_keeps :
    (t : List Slice) (s : Slice) (o : Option Slice) (namespace name : Text)
    → is_slice namespace name s ≡ false
    → view (create_in t s o).0 namespace name ≡ view t namespace name
created_keeps t s none namespace name h = view-other t s namespace name h
created_keeps t s (some old) namespace name h = refl

pub got_from-some : (o : Option Slice) {s : Slice} → got_from o ≡ ok s → o ≡ some s
got_from-some none h = cc
got_from-some (some u) h = cc

pub only_patch :
    {a b : List Operation} → ◌≡◌ {A = Option (List Operation)} (some a) (some b) → a ≡ b
only_patch e = cc

pub only_list : {a b : List Slice} → ◌≡◌ {A = Result (List Slice)} (ok a) (ok b) → a ≡ b
only_list e = cc

unfoldable pub server : SliceApi (List Slice)
server = record {
  view = view;
  create = λ t s. create_in t s (view t s.namespace s.name);
  get = λ t namespace name. got_from (view t namespace name);
  update = λ t s. (s ∷ t, none);
  delete = λ t namespace name. (without t namespace name, none);
  list = λ t namespace selector. ok (selected t selector);
  create_patch = λ s u. some (patch_of (same_content s.content u.content));
  retry_on_conflict = λ f t. f t;
  named = λ t namespace name. view-named t namespace name;
  created = λ t s. created_in t s (view t s.namespace s.name);
  create_keeps = λ t s. created_keeps t s (view t s.namespace s.name);
  got = λ t namespace name. got_from-some (view t namespace name);
  updated = λ t s h. view-own t s;
  update_keeps = λ t s. view-other t s;
  deleted = λ t namespace name h. view-without t namespace name;
  delete_keeps = without_keeps;
  listed = λ t namespace name selector {s} {l} e h k.
      subst (λ x. Elem s x) (only_list e) (view-Elem t namespace name selector h k);
  patched = λ s u h. cc;
  unchanged = λ s u {patch} e h. same_content-eq s.content u.content (
      patch_of-changed (same_content s.content u.content)
        (subst (λ x. any_change x false ≡ false) (sym (only_patch e)) h));
  retried = λ f P Q t p keep last. (keep t p, last t p);
}
