-- ===== src/Interfaces/Released.antt =====
-- The rollback of GetIP.
use fleetboard.Prelude.{
  ℕ, suc, ◌≡◌, ◌⊎◌, refl, sym, subst, true, false, List, [], ◌∷◌, ◌++◌, Option, none, some, inl,
  inr, Bool-cases, Error, Result, ok, err, panic, Elem, ◌==◌, ==_iff,
}
use fleetboard.Prelude.Text.{Text}
use fleetboard.Interfaces.{
  Bool, Store, IpamConfig, take_requested, release_all, after_get, get_ranges, get_ip,
}

Elem-append : (j : ℕ) (xs ys : List ℕ) → Elem j xs → Elem j (xs ++ ys)
Elem-append j [] ys e = absurd e
Elem-append j (x ∷ xs) ys (inl e) = inl e
Elem-append j (x ∷ xs) ys (inr e) = inr (Elem-append j xs ys e)

Elem-last : (j : ℕ) (xs : List ℕ) → Elem j (xs ++ (j ∷ []))
Elem-last j [] = inl refl
Elem-last j (x ∷ xs) = inr (Elem-last j xs)

module _ (store : Store) where
  open store use {State, RangeSet, Address, get, release, holds}

  -- The container holds addresses of these ranges only.
  abbrev HeldIn : State → List ℕ → Type 0
  HeldIn t allocs = (j : ℕ) → holds t j ≡ true → Elem j allocs

  abbrev pub HoldsNone : State → Type 0
  HoldsNone t = (j : ℕ) → holds t j ≡ false

  -- The calls of Release for these ranges, one behind the other: that of range `j` answers an error.
  abbrev pub Refused : State → List ℕ → ℕ → Type 0
  Refused t [] j = ⊥
  Refused t (i ∷ allocs) j =
      ((j ≡ i) × (e : Error) × ((release t i).1 ≡ some e)) ⊎ Refused (release t i).0 allocs j

  -- The store after some ranges were released: what the container holds still are addresses
  -- of ranges whose release answered an error.
  pub record RolledBack (u : State) : Type 0 where
    pub before : State
    pub allocs : List ℕ
    pub released : u ≡ release_all store before allocs
    pub leaked : (j : ℕ) → holds u j ≡ true → Refused before allocs j

  release_all-holds :
      (t : State) (allocs : List ℕ) (j : ℕ)
      → holds (release_all store t allocs) j ≡ true
      → holds t j ≡ true
  unfolding release_all
  release_all-holds t [] j h = h
  release_all-holds t (i ∷ allocs) j h =
      store.release_keeps t i j (release_all-holds (release t i).0 allocs j h)

  release_all-Refused :
      (t : State) (allocs : List ℕ) (j : ℕ)
      → Elem j allocs
      → holds (release_all store t allocs) j ≡ true
      → Refused t allocs j
  unfolding release_all
  release_all-Refused t [] j m h = absurd m
  release_all-Refused t (i ∷ allocs) j (inr m) h =
      inr (release_all-Refused (release t i).0 allocs j m h)
  release_all-Refused t (i ∷ allocs) j (inl m) h = of_answer (release t i).1 refl
    where
      held : holds (release t i).0 i ≡ true
      held =
          subst (λ x. holds (release t i).0 x ≡ true) m
            (release_all-holds (release t i).0 allocs j h)

      clash : {b : Bool} → b ≡ true → b ≡ false → ⊥
      clash e f = cc

      of_answer : (o : Option Error) → (release t i).1 ≡ o → Refused t (i ∷ allocs) j
      of_answer none e = absurd (clash held (store.released t i e))
      of_answer (some x) e = inl (m, x, e)

  release_all-RolledBack :
      (t : State) (allocs : List ℕ) → HeldIn t allocs → RolledBack (release_all store t allocs)
  release_all-RolledBack t allocs h = record {
    before = t;
    allocs = allocs;
    released = refl;
    leaked = λ j k. release_all-Refused t allocs j (h j (release_all-holds t allocs j k)) k;
  }

  -- The failed get of a range.
  get_failed :
      (t : State) (i : ℕ) (v : RangeSet) (ip : Option Text) (allocs : List ℕ) {e : Error}
      → HeldIn t allocs
      → (get t i v ip).1 ≡ err e
      → HeldIn (get t i v ip).0 allocs
  get_failed t i v ip allocs {e} h f j k = h j (store.get_keeps t i v ip j k (λ same. (e, f)))

  get_done :
      (t : State) (i : ℕ) (v : RangeSet) (ip : Option Text) (allocs : List ℕ)
      → HeldIn t allocs
      → HeldIn (get t i v ip).0 (allocs ++ (i ∷ []))
  get_done t i v ip allocs h j k = elim (Bool-cases (j == i)) [
    | inl e ↦ subst (λ x. Elem x (allocs ++ (i ∷ []))) (sym ((==_iff j i).0 e)) (Elem-last i allocs)
    | inr e ↦
        Elem-append j allocs (i ∷ [])
          (h j (store.get_keeps t i v ip j k (λ same. cc ((==_iff j i).1 same))))
  ]

  get_ranges-RolledBack :
      (t : State) (i : ℕ) (ranges : List RangeSet) (requested : List Text) (allocs : List ℕ)
      (ips : List Address) {e : Error}
      → HeldIn t allocs
      → (get_ranges store t i ranges requested allocs ips).1 ≡ err e
      → RolledBack (get_ranges store t i ranges requested allocs ips).0
  unfolding get_ranges
  get_ranges-RolledBack t i [] [] allocs ips h f = absurd (cc f)
  get_ranges-RolledBack t i [] (ip ∷ requested) allocs ips h f = release_all-RolledBack t allocs h
  get_ranges-RolledBack t i (v ∷ ranges) requested allocs ips {e} h f =
      of_get (get t i v (take_requested store v requested).0)
        (λ u a g.
          get_ranges-RolledBack u (suc i) ranges (take_requested store v requested).1
            (allocs ++ (i ∷ [])) (ips ++ (a ∷ [])) g)
        (λ x g. get_failed t i v (take_requested store v requested).0 allocs h g)
        (get_done t i v (take_requested store v requested).0 allocs h) f
    where
      next : State → Address → State × Result (List Address)
      next u a =
          get_ranges store u (suc i) ranges (take_requested store v requested).1
            (allocs ++ (i ∷ [])) (ips ++ (a ∷ []))

      of_get :
          (r : State × Result Address)
          → ((u : State) (a : Address)
              → HeldIn u (allocs ++ (i ∷ []))
              → (next u a).1 ≡ err e
              → RolledBack (next u a).0)
          → ((x : Error) → r.1 ≡ err x → HeldIn r.0 allocs)
          → HeldIn r.0 (allocs ++ (i ∷ []))
          → (after_get store allocs r next).1 ≡ err e
          → RolledBack (after_get store allocs r next).0
      of_get (u, panic) ih bad good k = absurd (cc k)
      of_get (u, err x) ih bad good k = release_all-RolledBack u allocs (bad x refl)
      of_get (u, ok a) ih bad good k = ih u a good k

  no_ranges : (t : State) → HoldsNone t → HeldIn t []
  no_ranges t h j e = let none_held = h j in cc

  unchanged : (t : State) → HoldsNone t → RolledBack t
  unfolding release_all
  unchanged t h = record {
    before = t;
    allocs = [];
    released = refl;
    leaked = λ j e. no_ranges t h j e;
  }

  -- When GetIP fails for a container that holds no address, whichever range it failed at and also when
  -- an address that was requested is in none of the ranges, then the ranges served before are released,
  -- and the container holds an address afterwards only of a range whose release answered an error.
  pub get_ip-RolledBack :
      (t : State) (config : Result (IpamConfig store)) (opened : Option Error) (e : Error)
      → HoldsNone t
      → (get_ip store t config opened).1 ≡ err e
      → RolledBack (get_ip store t config opened).0
  unfolding get_ip
  get_ip-RolledBack t panic opened e h f = absurd (cc f)
  get_ip-RolledBack t (err x) opened e h f = unchanged t h
  get_ip-RolledBack t (ok config) (some x) e h f = unchanged t h
  get_ip-RolledBack t (ok config) none e h f =
      get_ranges-RolledBack t 0 config.ranges config.requested [] [] (no_ranges t h) f
