-- ===== src/Prelude/Results.antt =====
-- What a Go call comes back with: its values, an error, or a run-time panic that no code here
-- recovers from. The kinds of error are those that the code tells apart or makes itself.
use mathlib.Core.Path.{◌≡◌, refl}

pub data Error : Type 0 where
  -- Made by this repository's own code.
  invalid_text out_of_cidr too_small no_available no_parallel_ip invalid_request : Error
  write_failed : Error
  -- Answers of a Kubernetes API server or lister, as the `errors` package tells them apart.
  not_found already_exists conflict unavailable : Error
  -- Any other error of a library or of the system.
  external : Error

pub data Result {ℓ} (V : Type ℓ) : Type ℓ where
  -- A run-time panic.
  panic : Result V
  err : Error → Result V
  ok : V → Result V

module _ {ℓ κ} {V : Type ℓ} {W : Type κ} where
  infixl 5 ◌>>=◌
  abbrev pub ◌>>=◌ : Result V → (V → Result W) → Result W
  panic >>= go = panic
  err e >>= go = err e
  ok v >>= go = go v

  -- The last call of a chain that succeeds was made with a value that the first one came back with.
  pub >>=-eq-ok :
      (m : Result V) (go : V → Result W) {w : W}
      → (m >>= go) ≡ ok w
      → (v : V) × (m ≡ ok v) × (go v ≡ ok w)
  >>=-eq-ok panic go h = cc
  >>=-eq-ok (err e) go h = cc
  >>=-eq-ok (ok v) go h = (v, refl, h)

-- How a call ended that returns an error only and that also changes state.
pub data Status : Type 0 where
  done : Status
  failed : Error → Status
  panicked : Status
