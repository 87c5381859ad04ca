-- ===== src/Net/Parsed.antt =====
-- What ParseCIDR returns: an address of 32 bits and a masked network.
use fleetboard.Prelude.{
  ◌⊎◌, subst, leb→lt, ℕ, zero, suc, ◌+◌, ◌-◌, ◌*◌, ◌≤◌, ◌<◌, ◌≡◌, refl, ap, sym, ◌∙◌, List, [], ◌∷◌,
  Option, none, some, arith, inl, inr, Option-cases, leb, leb→le, Bool-cases,
}
use fleetboard.Prelude.Text.{Text, split}
use fleetboard.Net.Addr.{
  IpNet, addr_max, shr, shl, prefix, masked, shl-eq-mul, shl-shr-le, shl-add, prefix-masked,
}
use fleetboard.Net.Range.{size}
use fleetboard.Net.Format.{
  parse_octet, from_octets, parse_parts, parse_ip, parse_bits, parse_cidr_parts, parse_cidr,
}

-- A network as ParseCIDR returns one: masked, and within 32 bits.
pub record IsNetwork (n : IpNet) : Type 0 where
  pub short : n.bits ≤ 32
  pub canonical : n.ip ≡ masked n.ip n.bits
  pub room : n.ip + size n.bits ≤ addr_max

pub shl-shl : (a j k m : ℕ) → m ≡ j + k → shl (shl a j) k ≡ shl a m
unfolding shl
shl-shl a j zero m e = let e' : m ≡ j = omega arith in rw e'
shl-shl a j (suc k) m e =
    let e' : m ≡ suc (j + k) = omega arith in rw e' (ap (λ x. x * 2) (shl-shl a j k (j + k) refl))

pub shl_mono : (p q k : ℕ) → p ≤ q → shl p k ≤ shl q k
shl_mono p q k h =
    let e₁ = shl-eq-mul p k in
    let e₂ = shl-eq-mul q k in let m : p * shl 1 k ≤ q * shl 1 k = grind arith in omega arith

shl_32 : shl 1 32 ≡ addr_max
unfolding shl
shl_32 = refl

masked_room : (a bits : ℕ) → a < addr_max → bits ≤ 32 → masked a bits + size bits ≤ addr_max
unfolding masked prefix
masked_room a bits ha hb = elim (Bool-cases (leb (shl 1 bits) p)) [
  | inl h ↦ absurd (omega (arith, shl_mono (shl 1 bits) p k (leb→le _ _ h), top, shl-shr-le a k))
  | inr h ↦
      omega
        (arith, shl_mono (p + 1) (shl 1 bits) k (omega (arith, leb→lt _ _ h)), top, shl-add p 1 k)
]
  where
    k : ℕ
    k = 32 - bits

    p : ℕ
    p = shr a k

    top : shl (shl 1 bits) k ≡ addr_max
    top = shl-shl 1 bits k 32 (omega arith) ∙ shl_32

masked-masked : (a bits : ℕ) → masked a bits ≡ masked (masked a bits) bits
unfolding masked
masked-masked a bits = ap (λ x. shl x (32 - bits)) (sym (prefix-masked a bits))

parse_octet_bound : (t : Text) (v : ℕ) → parse_octet t ≡ some v → v < 256
unfolding parse_octet
parse_octet_bound [] v h = cc
parse_octet_bound (c ∷ []) v h = ground arith
parse_octet_bound (c ∷ d ∷ []) v h = ground arith
parse_octet_bound (c ∷ d ∷ e ∷ []) v h = ground arith
parse_octet_bound (c ∷ d ∷ e ∷ f ∷ t) v h = cc

parse_octet_cases :
    (t : Text) → (parse_octet t ≡ none) ⊎ ((v : ℕ) × (parse_octet t ≡ some v) × (v < 256))
parse_octet_cases t = elim (Option-cases (parse_octet t)) [
  | inl e ↦ inl e
  | inr (v, e) ↦ inr (v, e, parse_octet_bound t v e)
]

parse_parts_bound : (ps : List Text) (v : ℕ) → parse_parts ps ≡ some v → v < addr_max
unfolding parse_parts from_octets
parse_parts_bound (p ∷ q ∷ r ∷ s ∷ []) v h =
    ground
      (arith, parse_octet_cases p, parse_octet_cases q, parse_octet_cases r, parse_octet_cases s)
parse_parts_bound _ v h = cc

pub parse_ip_bound : (t : Text) (v : ℕ) → parse_ip t ≡ some v → v < addr_max
unfolding parse_ip
parse_ip_bound t v h = parse_parts_bound (split b'.' t) v h

parse_bits_bound : (t : Text) (n : ℕ) → parse_bits t ≡ some n → n ≤ 32
unfolding parse_bits
parse_bits_bound [] n h = cc
parse_bits_bound (c ∷ t) n h = ground arith

pub network : ℕ → ℕ → IpNet
network a n = record { ip = masked a n; bits = n }

network-IsNetwork : (a n : ℕ) → a < addr_max → n ≤ 32 → IsNetwork (network a n)
unfolding network
network-IsNetwork a n ha hn = record {
  short = hn;
  canonical = masked-masked a n;
  room = masked_room a n ha hn;
}

abbrev net_of : Option (ℕ × IpNet) → IpNet → IpNet
net_of none d = d
net_of (some (a, n)) d = n

parse_cidr_parts-IsNetwork :
    (ps : List Text) {a : ℕ} {n : IpNet} → parse_cidr_parts ps ≡ some (a, n) → IsNetwork n
unfolding parse_cidr_parts network
parse_cidr_parts-IsNetwork (addr ∷ mask ∷ []) {a} {n} h = elim (Option-cases (parse_ip addr)) [
  | inl e ↦ absurd (clash (rw e at h))
  | inr (x, e) ↦ elim (Option-cases (parse_bits mask)) [
    | inl e' ↦ absurd (clash (rw (e, e') at h))
    | inr (m, e') ↦
        subst IsNetwork (ap (λ o. net_of o n) (rw (e, e') at h))
          (network-IsNetwork x m (parse_ip_bound addr x e) (parse_bits_bound mask m e'))
  ]
]
  where
    clash : ◌≡◌ {A = Option (ℕ × IpNet)} none (some (a, n)) → ⊥
    clash c = cc
parse_cidr_parts-IsNetwork _ h = cc

pub parse_cidr-IsNetwork : (t : Text) {a : ℕ} {n : IpNet} → parse_cidr t ≡ some (a, n) → IsNetwork n
unfolding parse_cidr
parse_cidr-IsNetwork t h = parse_cidr_parts-IsNetwork (split b'/' t) h
