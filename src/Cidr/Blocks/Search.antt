-- ===== src/Cidr/Blocks/Search.antt =====
-- The block that the search returns is free, and no earlier one is.
use fleetboard.Prelude.{
  ℕ, zero, suc, ◌+◌, ◌≤◌, ◌<◌, ◌≡◌, Bool, true, false, List, arith, ◌==◌, ==_iff, no_available,
  Result, ok, err, >>=-eq-ok, inl, inr, Bool-cases,
}
use fleetboard.Prelude.Text.{Text}
use fleetboard.Cidr.Blocks.{block_text, overlaps_any, first_free}

-- What a search that succeeds has found.
pub record Found (ip bits : ℕ) (set : List Text) (i left : ℕ) (t : Text) : Type 0 where
  pub at : ℕ
  pub from : i ≤ at
  pub below : at < i + left
  pub text : t ≡ block_text ip bits at
  pub free : overlaps_any set t ≡ ok false
  pub passed : (k : ℕ) → i ≤ k → k < at → overlaps_any set (block_text ip bits k) ≡ ok true

module _ (ip bits : ℕ) (set : List Text) where
  passed_suc :
      (i at : ℕ)
      → overlaps_any set (block_text ip bits i) ≡ ok true
      → ((k : ℕ) → i + 1 ≤ k → k < at → overlaps_any set (block_text ip bits k) ≡ ok true)
      → (k : ℕ) → i ≤ k
      → k < at
      → overlaps_any set (block_text ip bits k) ≡ ok true
  passed_suc i at e later k h lt = elim (Bool-cases (i == k)) [
    | inl same ↦ rw (← (==_iff i k).0 same) e
    | inr more ↦ later k (ground (arith, more)) lt
  ]

  Found-later :
      {i left : ℕ} {t : Text}
      → overlaps_any set (block_text ip bits i) ≡ ok true
      → Found ip bits set (i + 1) left t
      → Found ip bits set i (suc left) t
  Found-later {i} {left} e f = record {
    at = f.at;
    from = omega (arith, f.from);
    below = omega (arith, f.below);
    text = f.text;
    free = f.free;
    passed = passed_suc i f.at e f.passed;
  }

  Found-now :
      {i left : ℕ} {t : Text}
      → overlaps_any set (block_text ip bits i) ≡ ok false
      → ◌≡◌ {A = Result Text} (ok (block_text ip bits i)) (ok t)
      → Found ip bits set i (suc left) t
  Found-now {i} {left} {t} e r = record {
    at = i;
    from = omega arith;
    below = omega arith;
    text = cc;
    free = let same : block_text ip bits i ≡ t = cc in rw (← same) e;
    passed = λ k h lt. absurd (omega arith);
  }

  pub first_free-Found :
      (left i : ℕ) (t : Text) → first_free left ip bits set i ≡ ok t → Found ip bits set i left t
  unfolding first_free
  first_free-Found zero i t h = absurd (clash h)
    where
      clash : ◌≡◌ {A = Result Text} (err no_available) (ok t) → ⊥
      clash c = cc
  first_free-Found (suc left) i t h =
      found (first_free-Found left (i + 1) t)
        (>>=-eq-ok (overlaps_any set (block_text ip bits i)) _ h)
    where
      found :
          (first_free left ip bits set (i + 1) ≡ ok t → Found ip bits set (i + 1) left t)
          → (hit : Bool) × (overlaps_any set (block_text ip bits i) ≡ ok hit)
            × ((elim hit [
              | true ↦ first_free left ip bits set (i + 1)
              | false ↦ ok (block_text ip bits i)
            ])
                ≡ ok t)
          → Found ip bits set i (suc left) t
      found ih (true, e, r) = Found-later e (ih r)
      found ih (false, e, r) = Found-now e r
