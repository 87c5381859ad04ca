-- ===== src/Prelude/Keyed.antt =====
-- A Go map with keys of any type that `==` compares: an association list, searched from the front.
use mathlib.Core.Path.{◌≡◌, refl, subst}
use mathlib.Core.Logic.{◌↔◌, inl, inr}
use mathlib.Core.Bool.{false, Bool, true}
use mathlib.Core.List.{List, [], ◌∷◌}
use mathlib.Core.Option.{Option, none, some}
use native.Mathlib.Omega.{arith}
use fleetboard.Prelude.Tests.{if◌then◌else◌, Bool-cases}

pub record Equal {ℓ} (K : Type ℓ) : Type ℓ where
  pub same : K → K → Bool
  pub same_iff : (a b : K) → (same a b ≡ true) ↔ (a ≡ b)

abbrev pub Keyed {ℓ κ} : Type ℓ → Type κ → Type (ℓ ⊔ κ)
Keyed K V = List (K × V)

module _ {ℓ} {K : Type ℓ} ⦃eq : Equal K⦄ where
  pub same_sym : (a b : K) → eq.same a b ≡ false → eq.same b a ≡ false
  same_sym a b h = ground (arith, eq.same_iff a b, eq.same_iff b a)

  pub same_refl : (a : K) → eq.same a a ≡ true
  same_refl a = (eq.same_iff a a).1 refl

module _ {ℓ κ} {K : Type ℓ} {V : Type κ} ⦃eq : Equal K⦄ where
  -- v, found := m[k]
  unfoldable pub find : K → Keyed K V → Option V
  find k [] = none
  find k ((j, v) ∷ m) = if eq.same j k then some v else find k m

  -- m[k] = v
  unfoldable pub put : K → V → Keyed K V → Keyed K V
  put k v [] = (k, v) ∷ []
  put k v ((j, w) ∷ m) = if eq.same j k then (k, v) ∷ m else (j, w) ∷ put k v m

  -- delete(m, k)
  unfoldable pub drop : K → Keyed K V → Keyed K V
  drop k [] = []
  drop k ((j, w) ∷ m) = let rest = drop k m in if eq.same j k then rest else (j, w) ∷ rest

  pub find-put :
      (k j : K) (v : V) (m : Keyed K V)
      → find j (put k v m) ≡ (if eq.same k j then some v else find j m)
  unfolding find put
  find-put k j v [] = refl
  find-put k j v ((i, w) ∷ m) =
      ground (arith, eq.same_iff k j, eq.same_iff i k, eq.same_iff i j, find-put k j v m)

  pub find-drop :
      (k j : K) (m : Keyed K V) → find j (drop k m) ≡ (if eq.same k j then none else find j m)
  unfolding find drop
  find-drop k j [] = ground arith
  find-drop k j ((i, w) ∷ m) =
      ground (arith, eq.same_iff k j, eq.same_iff i k, eq.same_iff i j, find-drop k j m)

  pub find-cons :
      (k j : K) (v : V) (m : Keyed K V)
      → find j ((k, v) ∷ m) ≡ (if eq.same k j then some v else find j m)
  unfolding find
  find-cons k j v m = refl

  -- No key twice.
  abbrev pub Unique : Keyed K V → Type κ
  Unique [] = Unit
  Unique ((k, v) ∷ m) = (find k m ≡ none) × Unique m

  pub find-nil : (k : K) → ◌≡◌ {A = Option V} (find k []) none
  unfolding find
  find-nil k = refl

  absent_after : (k j : K) (m : Keyed K V) → find j m ≡ none → find j (drop k m) ≡ none
  absent_after k j m h = elim (Bool-cases (eq.same k j)) [
    | inl e ↦ rw (find-drop k j m, e) refl
    | inr e ↦ rw (find-drop k j m, e) h
  ]

  pub Unique-drop : (k : K) (m : Keyed K V) → Unique m → Unique (drop k m)
  unfolding drop
  Unique-drop k [] u = tt
  Unique-drop k ((j, w) ∷ m) (e, u) = elim (Bool-cases (eq.same j k)) [
    | inl b ↦ rw b (Unique-drop k m u)
    | inr b ↦ rw b (absent_after k j m e, Unique-drop k m u)
  ]

  pub Unique-put : (k : K) (v : V) (m : Keyed K V) → Unique m → Unique (put k v m)
  unfolding put
  Unique-put k v [] u = (find-nil k, tt)
  Unique-put k v ((j, w) ∷ m) (e, u) = elim (Bool-cases (eq.same j k)) [
    | inl b ↦ rw b (subst (λ i. find i m ≡ none) ((eq.same_iff j k).0 b) e, u)
    | inr b ↦ rw b (rw (find-put k j v m, same_sym j k b) e, Unique-put k v m u)
  ]
