-- ===== src/Cidr/Blocks/Written.antt =====
-- The text of a block is that of an address and a length, or does not parse.
use fleetboard.Prelude.{
  ◌∙◌, ◌+◌, none, ◌++◌, ltb, leb, ℕ, zero, suc, ◌-◌, ◌≤◌, ◌<◌, ◌≡◌, sym, ap, subst, Bool, true,
  false, ◌∷◌, some, arith, leb, ltb, ◌==◌, ◌^◌, ◌%◌, ◌/◌, ◌≢◌, ◌&&◌, All-append, inl, inr,
  Bool-cases,
}
use fleetboard.Prelude.Text.{split-Lacks, split-append, Text, Lacks}
use fleetboard.Net.Addr.{IpNet, shl, masked, addr_max}
use fleetboard.Net.Format.{parse_parts, parse_ip, parse_cidr, cidr_text}
use fleetboard.Net.RoundTrip.{octet_text-Lacks, parse_cidr-cidr_text}
use fleetboard.Net.Format.{parse_cidr_parts}
use fleetboard.Cidr.Blocks.{octet_text, Option, ip_text, big_ip_text, block_text}
use fleetboard.Cidr.Blocks.{hex_bytes, hex_digit}
use fleetboard.Net.RoundTrip.{ip_text-Lacks, parse_cidr-bits}

hex_digit-ne : (sep d : ℕ) → sep < b'0' → hex_digit d ≢ sep
unfolding hex_digit
hex_digit-ne sep d h = ground arith

hex_bytes-Lacks : (sep fuel v : ℕ) → sep < b'0' → Lacks sep (hex_bytes fuel v)
unfolding hex_bytes
hex_bytes-Lacks sep zero v h = tt
hex_bytes-Lacks sep (suc fuel) v h = elim (Bool-cases (v == 0)) [
  | inl z ↦ rw z tt
  | inr nz ↦ rw nz (
      All-append (λ c. c ≢ sep) (hex_bytes fuel (v / 256)) _ (hex_bytes-Lacks sep fuel (v / 256) h)
        (hex_digit-ne sep (v / 16 % 16) h, (hex_digit-ne sep (v % 16) h, tt)))
]

-- The integers whose bytes are an IPv4 address.
abbrev pub is_addr : ℕ → Bool
is_addr v = leb (2 ^ 24) v && ltb v (2 ^ 32)

big_ip_text-not_addr : (sep v : ℕ) → sep < b'0' → is_addr v ≡ false → Lacks sep (big_ip_text v)
unfolding big_ip_text
big_ip_text-not_addr sep v h e = rw e (elim (Bool-cases (v == 0)) [
  | inl z ↦ rw z (omega arith)
  | inr nz ↦ rw nz (omega arith, hex_bytes-Lacks sep 8 v h)
])

pub big_ip_text-addr : (v : ℕ) → is_addr v ≡ true → big_ip_text v ≡ ip_text v
unfolding big_ip_text
big_ip_text-addr v e = rw e

big_ip_text-Lacks : (v : ℕ) → Lacks b'/' (big_ip_text v)
big_ip_text-Lacks v = elim (Bool-cases (is_addr v)) [
  | inl e ↦ rw (big_ip_text-addr v e) (ip_text-Lacks v)
  | inr e ↦ big_ip_text-not_addr b'/' v (omega arith) e
]

pub block_bits :
    (ip bits i : ℕ) {c : ℕ} {n : IpNet}
    → bits ≤ 32
    → parse_cidr (block_text ip bits i) ≡ some (c, n)
    → n.bits ≡ bits
unfolding block_text
block_bits ip bits i hb h = parse_cidr-bits _ bits (big_ip_text-Lacks _) hb h

abbrev ip_of : Option (ℕ × IpNet) → ℕ → ℕ
ip_of none d = d
ip_of (some (a, n)) d = n.ip

-- A text with no dot before the slash is no network.
unreadable :
    (x y : Text) {c : ℕ} {n : IpNet}
    → Lacks b'.' x
    → Lacks b'/' x
    → Lacks b'/' y
    → parse_cidr (x ++ b'/' ∷ y) ≡ some (c, n)
    → ⊥
unfolding parse_cidr parse_cidr_parts parse_ip parse_parts
unreadable x y {c} {n} hd hx hy h =
    clash (rw (split-append b'/' x y hx, split-Lacks b'/' y hy, split-Lacks b'.' x hd) at h)
  where
    clash : ◌≡◌ {A = Option (ℕ × IpNet)} none (some (c, n)) → ⊥
    clash q = cc

-- A block's text that parses is the network of the block's address.
pub block_parsed :
    (ip bits i : ℕ) {c : ℕ} {n : IpNet}
    → bits ≤ 32
    → parse_cidr (block_text ip bits i) ≡ some (c, n)
    → (ip + shl i (32 - bits) < addr_max) × (n.ip ≡ masked (ip + shl i (32 - bits)) bits)
unfolding block_text cidr_text
block_parsed ip bits i {c} {n} hb h = elim (Bool-cases (is_addr v)) [
  | inl e ↦ (is_addr_bound e, sym (ap (λ o. ip_of o 0) (written e)))
  | inr e ↦ absurd (unread e)
]
  where
    v : ℕ
    v = ip + shl i (32 - bits)

    is_addr_bound : is_addr v ≡ true → v < addr_max
    is_addr_bound e = ground arith

    written :
        is_addr v ≡ true
        → ◌≡◌ {A = Option (ℕ × IpNet)}
            (some (v, record { ip = masked v bits; bits = bits }))
            (some (c, n))
    written e =
        sym (parse_cidr-cidr_text v bits (is_addr_bound e) hb)
        ∙ subst (λ x. parse_cidr (x ++ b'/' ∷ octet_text bits) ≡ some (c, n)) (big_ip_text-addr v e)
            h

    unread : is_addr v ≡ false → ⊥
    unread e =
        unreadable (big_ip_text v) (octet_text bits) (big_ip_text-not_addr b'.' v (omega arith) e)
          (big_ip_text-not_addr b'/' v (omega arith) e) (octet_text-Lacks b'/' bits (omega arith)) h
