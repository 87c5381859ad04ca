-- ===== src/Net/RoundTrip.antt =====
-- Writing an address or a network and reading it back.
use fleetboard.Prelude.{
  [], sym, inl, inr, Option-cases, ℕ, ◌/◌, ◌%◌, ◌≤◌, ◌<◌, ◌≡◌, ◌≢◌, refl, Bool, true, false, ◌∷◌,
  ◌++◌, map, Option, none, some, arith, ◌==◌, ==_iff, All-append, all_below, all_below_sound, ap,
}
use fleetboard.Prelude.Text.{Text, split, join, Lacks, split-append, split-Lacks}
use fleetboard.Net.Addr.{IpNet, masked, addr_max}
use fleetboard.Net.Format.{
  octet_text, parse_octet, octets, from_octets, ip_text, parse_parts, parse_ip, parse_bits,
  digits_value, parse_cidr_parts, parse_cidr, cidr_text,
}

abbrev reads_as : Option ℕ → ℕ → Bool
reads_as none n = false
reads_as (some m) n = m == n

reads_as_eq : (o : Option ℕ) (n : ℕ) → reads_as o n ≡ true → o ≡ some n
reads_as_eq none n h = cc
reads_as_eq (some m) n h = ap some ((==_iff m n).0 h)

octet_table : all_below 256 (λ b. reads_as (parse_octet (octet_text b)) b) ≡ true
unfolding all_below parse_octet octet_text
octet_table = refl

parse_octet-octet_text : (b : ℕ) → b < 256 → parse_octet (octet_text b) ≡ some b
parse_octet-octet_text b h = reads_as_eq _ b (all_below_sound 256 _ b octet_table h)

bits_table : all_below 33 (λ b. reads_as (parse_bits (octet_text b)) b) ≡ true
unfolding all_below parse_bits digits_value octet_text
bits_table = refl

pub parse_bits-octet_text : (b : ℕ) → b < 33 → parse_bits (octet_text b) ≡ some b
parse_bits-octet_text b h = reads_as_eq _ b (all_below_sound 33 _ b bits_table h)

pub octet_text-Lacks : (sep b : ℕ) → sep < b'0' → Lacks sep (octet_text b)
unfolding octet_text
octet_text-Lacks sep b h = ground arith

split-ip_text : (a : ℕ) → split b'.' (ip_text a) ≡ map octet_text (octets a)
unfolding ip_text octets join
split-ip_text a = simp (
  split-append b'.' _ _ (octet_text-Lacks b'.' _ (omega arith)),
  split-Lacks b'.' _ (octet_text-Lacks b'.' _ (omega arith)),
)

from_octets_lem :
    (a : ℕ)
    → a < addr_max
    → from_octets (a / 16777216 % 256) (a / 65536 % 256) (a / 256 % 256) (a % 256) ≡ a
unfolding from_octets
from_octets_lem a h = omega arith

pub parse_ip-ip_text : (a : ℕ) → a < addr_max → parse_ip (ip_text a) ≡ some a
unfolding parse_ip parse_parts octets
parse_ip-ip_text a h =
    rw
      (
        split-ip_text a,
        parse_octet-octet_text (a / 16777216 % 256) (omega arith),
        parse_octet-octet_text (a / 65536 % 256) (omega arith),
        parse_octet-octet_text (a / 256 % 256) (omega arith),
        parse_octet-octet_text (a % 256) (omega arith),
      )
      (ap some (from_octets_lem a h))

pub ip_text-Lacks : (a : ℕ) → Lacks b'/' (ip_text a)
unfolding ip_text octets join
ip_text-Lacks a = with_dot _ _ (free _) (with_dot _ _ (free _) (with_dot _ _ (free _) (free _)))
  where
    free : (b : ℕ) → Lacks b'/' (octet_text b)
    free b = octet_text-Lacks b'/' b (omega arith)

    with_dot : (s t : Text) → Lacks b'/' s → Lacks b'/' t → Lacks b'/' (s ++ b'.' ∷ t)
    with_dot s t hs ht = All-append (λ c. c ≢ b'/') s (b'.' ∷ t) hs (omega arith, ht)

-- A network's text is read as its address and its masked network.
pub parse_cidr-cidr_text :
    (a n : ℕ)
    → a < addr_max
    → n ≤ 32
    → parse_cidr (cidr_text a n) ≡ some (a, record { ip = masked a n; bits = n })
unfolding parse_cidr cidr_text parse_cidr_parts
parse_cidr-cidr_text a n ha hn =
    rw
      (
        split-append b'/' (ip_text a) (octet_text n) (ip_text-Lacks a),
        split-Lacks b'/' (octet_text n) (octet_text-Lacks b'/' n (omega arith)),
        parse_ip-ip_text a ha,
        parse_bits-octet_text n (omega arith),
      )
      refl

abbrev bits_of : Option (ℕ × IpNet) → ℕ → ℕ
bits_of none d = d
bits_of (some (a, net)) d = net.bits

-- Whatever stands before the slash, the length behind it is the network's.
pub parse_cidr-bits :
    (x : Text) (n : ℕ) {c : ℕ} {net : IpNet}
    → Lacks b'/' x
    → n ≤ 32
    → parse_cidr (x ++ b'/' ∷ octet_text n) ≡ some (c, net)
    → net.bits ≡ n
unfolding parse_cidr parse_cidr_parts
parse_cidr-bits x n {c} {net} hx hn h = elim (Option-cases (parse_ip x)) [
  | inl e ↦ absurd (clash (rw e at read))
  | inr (a, e) ↦ sym (ap (λ o. bits_of o n) (rw (e, parse_bits-octet_text n (omega arith)) at read))
]
  where
    read : parse_cidr_parts (x ∷ octet_text n ∷ []) ≡ some (c, net)
    read =
        rw
          (
            split-append b'/' x (octet_text n) hx,
            split-Lacks b'/' (octet_text n) (octet_text-Lacks b'/' n (omega arith)),
          )
          at h

    clash : ◌≡◌ {A = Option (ℕ × IpNet)} none (some (c, net)) → ⊥
    clash q = cc
