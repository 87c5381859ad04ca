-- ===== src/Cidr/Blocks/Overlap.antt =====
-- isOverlappingCIDR against the sets of addresses.
use fleetboard.Prelude.{
  ℕ, ◌≤◌, ◌<◌, ◌≡◌, sym, ◌∙◌, true, ◌||◌, arith, inl, inr, Bool-cases, leb, leb→le, leb→lt,
}
use fleetboard.Net.Addr.{
  IpNet, prefix, masked, contains, contains_iff, prefix_coarse, prefix-masked,
}

-- A network with its address trimmed to the first `bits` bits, as it is read again.
abbrev pub trimmed : IpNet → ℕ → IpNet
trimmed m bits = record { ip = masked (masked m.ip bits) m.bits; bits = m.bits }

module _ (m n : IpNet) (hm : m.bits ≤ 32) (hn : n.bits ≤ 32) where
  abbrev trim : IpNet
  trim = trimmed m n.bits

  trim_prefix : prefix trim.ip m.bits ≡ prefix (masked m.ip n.bits) m.bits
  trim_prefix = prefix-masked (masked m.ip n.bits) m.bits

  -- Of two networks that share an address, one holds the other's own address, also after the first
  -- is trimmed to a prefix that is as long as the second's.
  pub shared_address :
      (a : ℕ)
      → contains m a ≡ true
      → contains n a ≡ true
      → (contains trim n.ip || contains n trim.ip) ≡ true
  unfolding contains
  shared_address a cm cn = elim (Bool-cases (leb n.bits m.bits)) [
    | inl le ↦ ground (arith, finer (leb→le _ _ le))
    | inr lt ↦ ground (arith, coarser (leb→lt _ _ lt))
  ]
    where
      em : prefix m.ip m.bits ≡ prefix a m.bits
      em = contains_iff m a cm

      en : prefix n.ip n.bits ≡ prefix a n.bits
      en = contains_iff n a cn

      finer : n.bits ≤ m.bits → prefix n.ip n.bits ≡ prefix trim.ip n.bits
      finer le =
          en
          ∙ sym (prefix_coarse m.ip a n.bits m.bits le hm em)
          ∙ sym (prefix-masked m.ip n.bits)
          ∙ sym (prefix_coarse trim.ip (masked m.ip n.bits) n.bits m.bits le hm trim_prefix)

      coarser : m.bits < n.bits → prefix trim.ip m.bits ≡ prefix n.ip m.bits
      coarser lt =
          trim_prefix
          ∙ prefix_coarse (masked m.ip n.bits) m.ip m.bits n.bits (omega arith) hn
              (prefix-masked m.ip n.bits)
          ∙ em
          ∙ sym (prefix_coarse n.ip a m.bits n.bits (omega arith) hn en)
