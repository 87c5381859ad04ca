-- ===== src/Net/Range.antt =====
-- The addresses of a network are the 2 ^ (32 - bits) numbers from its masked address on.
use fleetboard.Prelude.{ℕ, ◌+◌, ◌-◌, ◌*◌, ◌≤◌, ◌<◌, ◌≡◌, true, arith, ==_iff, ap}
use fleetboard.Net.Addr.{
  IpNet, shr, shl, prefix, masked, contains, shl-shr-le, lt-shl-shr, shl-eq-mul,
}

-- The number of addresses of a network.
abbrev pub size : ℕ → ℕ
size bits = shl 1 (32 - bits)

block_le : (p q v s : ℕ) → p * s ≤ v → v < (q + 1) * s → p ≤ q
block_le p q v s h k = grind arith

shr_unique : (p v k : ℕ) → shl p k ≤ v → v < shl p k + shl 1 k → p ≡ shr v k
shr_unique p v k h h' =
    let low = shl-shr-le v k in
    let high = lt-shl-shr v k in
    let e₁ = shl-eq-mul p k in
    let e₂ = shl-eq-mul (shr v k) k in
    let e₃ = shl-eq-mul (shr v k + 1) k in
    omega (
      arith,
      block_le p (shr v k) v (shl 1 k) (omega arith) (omega arith),
      block_le (shr v k) p v (shl 1 k) (omega arith) (omega arith),
    )

module _ (n : IpNet) where
  abbrev base : ℕ
  base = masked n.ip n.bits

  pub contains_of_range :
      (v : ℕ) → masked n.ip n.bits ≤ v → v < masked n.ip n.bits + size n.bits → contains n v ≡ true
  unfolding contains prefix masked
  contains_of_range v h h' =
      (==_iff _ _).1 (shr_unique (shr n.ip (32 - n.bits)) v (32 - n.bits) h h')

  pub range_of_contains :
      (v : ℕ)
      → contains n v ≡ true
      → (masked n.ip n.bits ≤ v) × (v < masked n.ip n.bits + size n.bits)
  unfolding contains prefix masked
  range_of_contains v c =
      let k = 32 - n.bits in
      let e = (==_iff (shr n.ip k) (shr v k)).0 c in
      let low = shl-shr-le v k in
      let high = lt-shl-shr v k in
      let e₀ = ap (λ x. shl x k) e in
      let e₂ = shl-eq-mul (shr v k) k in
      let e₃ = shl-eq-mul (shr v k + 1) k in (omega arith, omega arith)
