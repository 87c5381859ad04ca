-- ===== src/Tests/Interfaces.antt =====
-- The addresses of a pod's interface from two ranges, of which the second is exhausted.
use fleetboard.Prelude.{
  [], ◌∷◌, none, ℕ, ◌==◌, ==_iff, ◌≡◌, refl, Bool, true, false, none, if◌then◌else◌, Error,
  external, Result, ok, err, arith,
}
use fleetboard.Interfaces.Released.{RolledBack, get_ip-RolledBack}
use fleetboard.Interfaces.{release_all, take_requested, get_ranges, get_ip, IpamConfig, Store}

-- A range has addresses left or not.
abbrev got : (ℕ → Bool) → ℕ → Bool → (ℕ → Bool) × Result ℕ
got t i true = ((λ j. if j == i then true else t j), ok i)
got t i false = (t, err external)

got_keeps :
    (t : ℕ → Bool) (i : ℕ) (v : Bool) (j : ℕ)
    → (got t i v).0 j ≡ true
    → (j ≡ i → (e : Error) × ((got t i v).1 ≡ err e))
    → t j ≡ true
got_keeps t i false j h f = h
got_keeps t i true j h f = of_test (j == i) refl h
  where
    impossible : ((e : Error) × (◌≡◌ {A = Result ℕ} (ok i) (err e))) → t j ≡ true
    impossible (e, x) = cc

    of_test : (b : Bool) → (j == i) ≡ b → (if b then true else t j) ≡ true → t j ≡ true
    of_test true e k = impossible (f ((==_iff j i).0 e))
    of_test false e k = k

own_released : (t : ℕ → Bool) (i : ℕ) → (if i == i then false else t i) ≡ false
own_released t i = ground arith

other_kept : (t : ℕ → Bool) (i j : ℕ) → (if j == i then false else t j) ≡ true → t j ≡ true
other_kept t i j h = ground arith

abbrev two_ranges : Store
two_ranges = record {
  State = ℕ → Bool;
  RangeSet = Bool;
  Address = ℕ;
  contains = λ v ip. v;
  get = λ t i v ip. got t i v;
  release = λ t i. ((λ j. if j == i then false else t j), none);
  holds = λ t i. t i;
  get_keeps = λ t i v ip j. got_keeps t i v j;
  released = λ t i h. own_released t i;
  release_keeps = λ t i j h. other_kept t i j h;
}

abbrev nothing : ℕ → Bool
nothing j = false

abbrev config : IpamConfig two_ranges
config = record { requested = []; ranges = true ∷ false ∷ [] }

second_fails : (get_ip two_ranges nothing (ok config) none).1 ≡ err external
unfolding get_ip get_ranges take_requested release_all
second_fails = refl

get_ip-RolledBack_example : RolledBack two_ranges (get_ip two_ranges nothing (ok config) none).0
get_ip-RolledBack_example =
    get_ip-RolledBack two_ranges nothing (ok config) none external (λ j. refl) second_fails
