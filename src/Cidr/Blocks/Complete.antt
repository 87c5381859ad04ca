-- ===== src/Cidr/Blocks/Complete.antt =====
-- A search that can succeed does.
use fleetboard.Prelude.{
  sym, ℕ, zero, suc, ◌+◌, ◌-◌, ◌≤◌, ◌<◌, ◌≡◌, refl, Bool, true, false, List, some, arith, ◌==◌,
  ==_iff, ok, ◌>>=◌, inl, inr, Bool-cases, subst,
}
use fleetboard.Prelude.Text.{Text}
use fleetboard.Net.Addr.{IpNet, shl}
use fleetboard.Net.Format.{parse_cidr}
use fleetboard.Cidr.Blocks.{
  block_text, overlaps_any, first_free, existing_cidr_set, find_in_network, find_available_cidr,
}

module _ (ip bits : ℕ) (set : List Text) where
  -- The test of a round answers.
  abbrev pub Tested : ℕ → Type 0
  Tested k = (hit : Bool) × (overlaps_any set (block_text ip bits k) ≡ ok hit)

  first_free_complete :
      (left i at : ℕ)
      → i ≤ at
      → at < i + left
      → ((k : ℕ) → k < at → Tested k)
      → overlaps_any set (block_text ip bits at) ≡ ok false
      → (t : Text) × (first_free left ip bits set i ≡ ok t)
  unfolding first_free
  first_free_complete zero i at h lt tested free = absurd (omega arith)
  first_free_complete (suc left) i at h lt tested free = elim (Bool-cases (i == at)) [
    | inl e ↦ (
      block_text ip bits i,
      rw
          (subst (λ k. overlaps_any set (block_text ip bits k) ≡ ok false) (sym ((==_iff i at).0 e))
            free)
          refl,
    )
    | inr e ↦
        later (tested i (ground (arith, e)))
          (first_free_complete left (i + 1) at (ground (arith, e)) (omega arith) tested free)
  ]
    where
      later :
          Tested i
          → ((t : Text) × (first_free left ip bits set (i + 1) ≡ ok t))
          → (t : Text) × ((do
            hit ← overlaps_any set (block_text ip bits i)
            elim hit [
              | true ↦ first_free left ip bits set (i + 1)
              | false ↦ ok (block_text ip bits i)
            ])
              ≡ ok t)
      later (true, e) (t, r) = (t, rw e r)
      later (false, e) (t, r) = (block_text ip bits i, rw e refl)

-- When the network and the networks in use can be read, and one of the blocks that the search goes
-- through overlaps none of them, while the tests of the blocks before it answer, then the search finds a
-- subnet.
pub find_available_cidr_complete :
    (network : Text) (existing set : List Text) (bits at : ℕ) {a : ℕ} {n : IpNet}
    → parse_cidr network ≡ some (a, n)
    → existing_cidr_set bits existing ≡ ok set
    → at < shl 1 (32 - bits)
    → ((k : ℕ) → k < at → Tested n.ip bits set k)
    → overlaps_any set (block_text n.ip bits at) ≡ ok false
    → (t : Text) × (find_available_cidr network existing bits ≡ ok t)
unfolding find_available_cidr find_in_network
find_available_cidr_complete network existing set bits at {n = n} p s lt tested free =
    rw (p, s)
      (first_free_complete n.ip bits set (shl 1 (32 - bits)) 0 at (omega arith) (omega arith) tested
        free)
