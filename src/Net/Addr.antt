-- ===== src/Net/Addr.antt =====
-- Addresses and networks: net.IPNet with IP.Mask, CIDRMask and Contains.
use fleetboard.Prelude.{
  ℕ, zero, suc, ◌+◌, ◌-◌, ◌*◌, ◌/◌, ◌^◌, ◌≤◌, ◌<◌, ◌≡◌, refl, ap, ◌∙◌, sym, Bool, true, arith, ◌==◌,
  ==_iff,
}

-- `ip` is the network's address, and `bits` the length of its prefix.
pub record IpNet : Type 0 where
  pub ip : ℕ
  pub bits : ℕ

abbrev pub addr_max : ℕ
addr_max = 2 ^ 32

-- a >> k
unfoldable pub shr : ℕ → ℕ → ℕ
shr a zero = a
shr a (suc k) = shr (a / 2) k

-- a << k
unfoldable pub shl : ℕ → ℕ → ℕ
shl a zero = a
shl a (suc k) = shl a k * 2

-- The first `bits` bits of an address.
unfoldable pub prefix : ℕ → ℕ → ℕ
prefix a bits = shr a (32 - bits)

-- ip.Mask(net.CIDRMask(bits, 32))
unfoldable pub masked : ℕ → ℕ → ℕ
masked a bits = shl (prefix a bits) (32 - bits)

-- n.Contains(a)
unfoldable pub contains : IpNet → ℕ → Bool
contains n a = prefix n.ip n.bits == prefix a n.bits

pub shr_div2 : (a k : ℕ) → shr (a / 2) k ≡ shr a k / 2
unfolding shr
shr_div2 a zero = refl
shr_div2 a (suc k) = shr_div2 (a / 2) k

pub shr-shl : (a k : ℕ) → shr (shl a k) k ≡ a
unfolding shr shl
shr-shl a zero = refl
shr-shl a (suc k) =
    let e : shl a k * 2 / 2 ≡ shl a k = omega arith in ap (λ x. shr x k) e ∙ shr-shl a k

pub shl-shr-le : (a k : ℕ) → shl (shr a k) k ≤ a
unfolding shr shl
shl-shr-le a zero = omega arith
shl-shr-le a (suc k) = omega (arith, shl-shr-le (a / 2) k)

pub lt-shl-shr : (a k : ℕ) → a < shl (shr a k + 1) k
unfolding shr shl
lt-shl-shr a zero = omega arith
lt-shl-shr a (suc k) = omega (arith, lt-shl-shr (a / 2) k)

pub shl-add : (a b k : ℕ) → shl (a + b) k ≡ shl a k + shl b k
unfolding shl
shl-add a b zero = refl
shl-add a b (suc k) = omega (arith, shl-add a b k)

pub shl-eq-mul : (a k : ℕ) → shl a k ≡ a * shl 1 k
unfolding shl
shl-eq-mul a zero = omega arith
shl-eq-mul a (suc k) = omega (arith, shl-eq-mul a k, ap (λ (t : ℕ). t * 2) (shl-eq-mul a k))

pub shl-pos : (k : ℕ) → 0 < shl 1 k
unfolding shl
shl-pos zero = omega arith
shl-pos (suc k) = omega (arith, shl-pos k)

shr-suc : (a b k : ℕ) → shr a k ≡ shr b k → shr a (suc k) ≡ shr b (suc k)
unfolding shr
shr-suc a b k h = shr_div2 a k ∙ ap (λ x. x / 2) h ∙ sym (shr_div2 b k)

-- What agrees above bit k agrees above a higher bit.
shr_coarse : (a b k d j : ℕ) → j ≡ k + d → shr a k ≡ shr b k → shr a j ≡ shr b j
shr_coarse a b k zero j e h = let e' : j ≡ k = omega arith in rw e' h
shr_coarse a b k (suc d) j e h =
    let e' : j ≡ suc (k + d) = omega arith in
    rw e' (shr-suc a b (k + d) (shr_coarse a b k d (k + d) refl h))

pub prefix_coarse :
    (a b m n : ℕ) → m ≤ n → n ≤ 32 → prefix a n ≡ prefix b n → prefix a m ≡ prefix b m
unfolding prefix
prefix_coarse a b m n h hn e = shr_coarse a b (32 - n) (n - m) (32 - m) (omega arith) e

pub prefix-masked : (a n : ℕ) → prefix (masked a n) n ≡ prefix a n
unfolding prefix masked
prefix-masked a n = shr-shl (shr a (32 - n)) (32 - n)

pub masked-le : (a n : ℕ) → masked a n ≤ a
unfolding prefix masked
masked-le a n = shl-shr-le a (32 - n)

pub contains_iff : (n : IpNet) (a : ℕ) → contains n a ≡ true → prefix n.ip n.bits ≡ prefix a n.bits
unfolding contains
contains_iff n a h = (==_iff _ _).0 h
