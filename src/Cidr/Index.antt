-- ===== src/Cidr/Index.antt =====
-- GetIndexIPFromCIDR and inc of utils/netutil.go.
pub mod Carry
pub mod Bounds
use native.Mathlib.Nat.{pow-succ'}
use fleetboard.Prelude.{
  ==_iff, Bool-cases, inl, inr, ℕ, zero, suc, ◌+◌, ◌-◌, ◌*◌, ◌/◌, ◌%◌, ◌^◌, ◌≤◌, ◌<◌, ◌≡◌, refl,
  sym, ap, subst, ◌∙◌, Bool, true, false, List, [], ◌∷◌, map, Option, none, some, arith, ◌==◌,
  if◌then◌else◌, Result, ok, err, invalid_text, out_of_cidr, length, All,
}
use fleetboard.Prelude.Text.{Text, join}
use fleetboard.Net.Addr.{IpNet, masked, contains, addr_max}
use fleetboard.Net.Format.{octet_text, octets, ip_text, parse_cidr}
use fleetboard.Net.Range.{size, contains_of_range, range_of_contains}

-- Goes from the last byte to the first and stops at one that does not wrap: the bytes, and whether
-- every one of them wrapped.
unfoldable pub inc_carry : List ℕ → List ℕ × Bool
inc_carry [] = ([], true)
inc_carry (b ∷ bs) =
    let (rest, carry) = inc_carry bs in
    let b' = (b + 1) % 256 in if carry then (b' ∷ rest, b' == 0) else (b ∷ rest, false)

unfoldable pub inc : List ℕ → List ℕ
inc bs = (inc_carry bs).0

-- The number that some bytes stand for, the first byte the highest.
unfoldable pub value : List ℕ → ℕ
value [] = 0
value (b ∷ bs) = b * 256 ^ length bs + value bs

-- `left` is what `start` still lacks of `index`.
unfoldable pub advance : ℕ → ℕ → IpNet → List ℕ → ℕ × List ℕ
advance zero start n ip = (start, ip)
advance (suc left) start n ip = elim (contains n (value ip)) [
  | true ↦ advance left (start + 1) n (inc ip)
  | false ↦ (start, ip)
]

-- The int parameter `index`, which may be negative.
pub data Index : Type 0 where
  pos : ℕ → Index
  negative : Index

-- The text of four bytes.
unfoldable pub bytes_text : List ℕ → Text
bytes_text bs = join b'.' (map octet_text bs)

unfoldable pub index_ip : IpNet → Index → Result Text
index_ip n negative = err out_of_cidr
index_ip n (pos index) =
    let (start, ip) = advance index 0 n (octets (masked n.ip n.bits)) in
    if start == index then ok (bytes_text ip) else err out_of_cidr

pub get_index_ip_from_cidr : Text → Index → Result Text
get_index_ip_from_cidr cidr index = elim (parse_cidr cidr) [
  | none ↦ err invalid_text
  | some (a, n) ↦ index_ip n index
]
