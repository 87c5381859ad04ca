-- ===== src/Cidr/Blocks/Full.antt =====
-- What the search answers when the network has no free block left.
use fleetboard.Prelude.{
  ℕ, ◌+◌, ◌-◌, ◌≤◌, ◌<◌, ◌≡◌, ap, subst, List, Bool, true, false, some, arith, ok, Bool-cases, inl,
  inr, ltb, ltb→lt, ltb→le, Option, none, Result, err, panic, sym, ◌∙◌,
}
use fleetboard.Prelude.Text.{Text}
use fleetboard.Net.Addr.{IpNet, masked, prefix, shl, shr, contains, shr-shl, shl-add}
use fleetboard.Net.Range.{size, range_of_contains}
use fleetboard.Net.Parsed.{IsNetwork, parse_cidr-IsNetwork, shl-shl, shl_mono}
use fleetboard.Net.Format.{parse_cidr}
use fleetboard.Cidr.Blocks.{existing_cidr_set, overlaps_any, block_text, find_available_cidr}
use fleetboard.Cidr.Blocks.Search.{Found}
use fleetboard.Cidr.Blocks.Disjoint.{Found-in}
use fleetboard.Cidr.Blocks.Written.{block_parsed}

-- The blocks of one network are the first 2 ^ (bits - n.bits) that the search tries.
block_end :
    (n : IpNet) (bits at : ℕ)
    → IsNetwork n
    → n.bits ≤ bits
    → bits ≤ 32
    → shl 1 (bits - n.bits) ≤ at
    → n.ip + size n.bits ≤ masked (n.ip + shl at (32 - bits)) bits
unfolding masked prefix
block_end n bits at w h hb le = omega (
  arith,
  whole,
  shl_mono (shl 1 (bits - n.bits)) at k le,
  shl-shl 1 (bits - n.bits) k (32 - n.bits) (omega arith),
  ap (λ x. shl (shr x k) k) whole,
  ap (λ x. shl x k) (shr-shl (q + at) k),
  shl-add q at k,
)
  where
    k : ℕ
    k = 32 - bits

    -- The network's address in blocks.
    q : ℕ
    q = shl (prefix n.ip n.bits) (bits - n.bits)

    whole : n.ip + shl at k ≡ shl (q + at) k
    whole = omega (
      arith,
      w.canonical,
      shl-add q at k,
      shl-shl (prefix n.ip n.bits) (bits - n.bits) k (32 - n.bits) (omega arith),
    )

abbrev net_of : Option (ℕ × IpNet) → IpNet → IpNet
net_of none d = d
net_of (some (a, n)) d = n

abbrev val_of {ℓ} : {A : Type ℓ} → Result A → A → A
val_of (ok a) d = a
val_of (err e) d = d
val_of panic d = d

same_network :
    {a b : ℕ} {m n : IpNet} → ◌≡◌ {A = Option (ℕ × IpNet)} (some (a, m)) (some (b, n)) → m ≡ n
same_network {m = m} e = ap (λ o. net_of o m) e

same_ok {ℓ} : {A : Type ℓ} {x y : A} → ◌≡◌ {A = Result A} (ok x) (ok y) → x ≡ y
same_ok {x = x} e = ap (λ o. val_of o x) e

differ : {r : Result Bool} → r ≡ ok true → r ≡ ok false → ⊥
differ e f = cc

module _ (network : Text) (existing : List Text) (bits : ℕ) {t : Text} where
  -- When every block of the network is found to overlap a network in use, a subnet that the search
  -- returns all the same lies outside the network.
  pub find_available_cidr-full :
      {a c : ℕ} {n m : IpNet} {set : List Text}
      → parse_cidr network ≡ some (a, n)
      → n.bits ≤ bits
      → bits ≤ 32
      → existing_cidr_set bits existing ≡ ok set
      → ((k : ℕ) → k < shl 1 (bits - n.bits) → overlaps_any set (block_text n.ip bits k) ≡ ok true)
      → find_available_cidr network existing bits ≡ ok t
      → parse_cidr t ≡ some (c, m)
      → contains n m.ip ≡ false
  find_available_cidr-full {a} {c} {n} {m} {set} pn le hb es full h pt =
      beyond (found_set (Found-in network existing bits h))
    where
      found_set :
          ((a' : ℕ) × (n' : IpNet) × (set' : List Text) × (parse_cidr network ≡ some (a', n'))
            × (existing_cidr_set bits existing ≡ ok set')
            × Found n'.ip bits set' 0 (shl 1 (32 - bits)) t)
          → Found n.ip bits set 0 (shl 1 (32 - bits)) t
      found_set (a', n', set', pn', es', f) =
          let same : n' ≡ n = same_network (sym pn' ∙ pn) in
          let same_set : set' ≡ set = same_ok (sym es' ∙ es) in
          subst (λ (x : IpNet). Found x.ip bits set 0 (shl 1 (32 - bits)) t) same
            (subst (λ (y : List Text). Found n'.ip bits y 0 (shl 1 (32 - bits)) t) same_set f)

      taken : (f : Found n.ip bits set 0 (shl 1 (32 - bits)) t) → shl 1 (bits - n.bits) ≤ f.at
      taken f = elim (Bool-cases (ltb f.at (shl 1 (bits - n.bits)))) [
        | inl lt ↦ absurd (
            differ (full f.at (ltb→lt _ _ lt))
              (subst (λ x. overlaps_any set x ≡ ok false) f.text f.free))
        | inr ge ↦ ltb→le _ _ ge
      ]

      beyond : Found n.ip bits set 0 (shl 1 (32 - bits)) t → contains n m.ip ≡ false
      beyond f = elim (Bool-cases (contains n m.ip)) [
        | inr e ↦ e
        | inl e ↦
            let w = parse_cidr-IsNetwork network pn in
            let (_, at_block) =
              block_parsed n.ip bits f.at hb (subst (λ x. parse_cidr x ≡ some (c, m)) f.text pt) in
            absurd (
              omega (
                arith,
                at_block,
                range_of_contains n m.ip e,
                w.canonical,
                block_end n bits f.at w le hb (taken f),
              ))
      ]
