-- ===== src/Cidr/Blocks.antt =====
-- findAvailableCIDR, FindTunnelAvailableCIDR, FindClusterAvailableCIDR and isOverlappingCIDR of
-- utils/netutil.go. A ParseCIDR whose error is dropped and that fails leaves a nil network, and
-- using it panics.
pub mod Overlap
pub mod Written
pub mod Search
pub mod Disjoint
pub mod Full
pub mod Complete
use fleetboard.Prelude.{
  ℕ, zero, suc, ◌+◌, ◌-◌, ◌*◌, ◌/◌, ◌%◌, ◌^◌, ◌≡◌, refl, Bool, true, false, ◌&&◌, ◌||◌, List, [],
  ◌∷◌, ◌++◌, Option, none, some, arith, leb, ltb, ◌==◌, if◌then◌else◌, Result, ok, err, panic,
  ◌>>=◌, invalid_text, no_available, is_nil,
}
use fleetboard.Prelude.Text.{Text, codes}
use fleetboard.Net.Addr.{IpNet, shl, masked, contains}
use fleetboard.Net.Format.{parse_cidr, cidr_text, ip_text, octet_text}
use fleetboard.Cidr.Divide.{divide_tunnel_network, divide_cluster_network}

unfoldable pub overlapping_nets : Option (ℕ × IpNet) → Option (ℕ × IpNet) → Result Bool
overlapping_nets (some (a, m)) (some (b, n)) = ok (contains m n.ip || contains n m.ip)
overlapping_nets (some p) none = panic
overlapping_nets none q = panic

-- isOverlappingCIDR
unfoldable pub is_overlapping_cidr : Text → Text → Result Bool
is_overlapping_cidr s t = overlapping_nets (parse_cidr s) (parse_cidr t)

unfoldable pub trimmed_text : Option (ℕ × IpNet) → ℕ → Result Text
trimmed_text none bits = panic
trimmed_text (some (a, n)) bits = ok (cidr_text (masked n.ip bits) n.bits)

-- The keys of existingCIDRSet, in the order in which they are put in; an empty text is skipped.
unfoldable pub existing_cidr_set : ℕ → List Text → Result (List Text)
existing_cidr_set bits [] = ok []
existing_cidr_set bits (cidr ∷ rest) =
    let later = existing_cidr_set bits rest in
    if is_nil cidr
    then later
    else (do t ← trimmed_text (parse_cidr cidr) bits; ts ← later; ok (t ∷ ts))

-- Two hexadecimal digits.
unfoldable pub hex_digit : ℕ → ℕ
hex_digit d = if ltb d 10 then b'0' + d else b'a' + (d - 10)

-- The bytes of a big.Int in hexadecimal: `fuel` bytes at most.
unfoldable pub hex_bytes : ℕ → ℕ → Text
hex_bytes zero v = []
hex_bytes (suc fuel) v =
    let low = hex_digit (v / 16 % 16) ∷ hex_digit (v % 16) ∷ [] in
    let rest = hex_bytes fuel (v / 256) ++ low in if v == 0 then [] else rest

-- net.IP(nextIP.Bytes()).String(): four bytes are an address, no byte is "<nil>", and any other
-- number of bytes below 16 is "?" and the bytes in hexadecimal.
unfoldable pub big_ip_text : ℕ → Text
big_ip_text v =
    if leb (2 ^ 24) v && ltb v (2 ^ 32)
    then ip_text v
    else if v == 0
    then codes "<nil>"
    else b'?' ∷ hex_bytes 8 v

-- The text of block `i` of the network: newCIDR of one round.
unfoldable pub block_text : ℕ → ℕ → ℕ → Text
block_text ip bits i = big_ip_text (ip + shl i (32 - bits)) ++ b'/' ∷ octet_text bits

-- The inner loop. It ranges over a map, and so in any order; the answer is the same in each, since a
-- text that does not parse makes the first comparison panic.
unfoldable pub overlaps_any : List Text → Text → Result Bool
overlaps_any [] t = ok false
overlaps_any (s ∷ set) t = do
  hit ← is_overlapping_cidr s t
  elim hit [ true ↦ ok true | false ↦ overlaps_any set t ]

-- The outer loop, with `left` rounds to go.
unfoldable pub first_free : ℕ → ℕ → ℕ → List Text → ℕ → Result Text
first_free zero ip bits set i = err no_available
first_free (suc left) ip bits set i = do
  hit ← overlaps_any set (block_text ip bits i)
  elim hit [ true ↦ first_free left ip bits set (i + 1) | false ↦ ok (block_text ip bits i) ]

unfoldable pub find_in_network : Option (ℕ × IpNet) → List Text → ℕ → Result Text
find_in_network none existing bits = err invalid_text
find_in_network (some (a, n)) existing bits = do
  set ← existing_cidr_set bits existing
  first_free (shl 1 (32 - bits)) n.ip bits set 0

unfoldable pub find_available_cidr : Text → List Text → ℕ → Result Text
find_available_cidr network existing bits = find_in_network (parse_cidr network) existing bits

unfoldable pub find_tunnel_available_cidr : Text → List Text → Result Text
find_tunnel_available_cidr tunnel existing = do
  bits ← divide_tunnel_network tunnel
  find_available_cidr tunnel existing bits

unfoldable pub find_cluster_available_cidr : Text → List Text → Result Text
find_cluster_available_cidr cluster existing = do
  bits ← divide_cluster_network cluster
  find_available_cidr cluster existing bits
