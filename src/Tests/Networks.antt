-- ===== src/Tests/Networks.antt =====
-- utils/netutil.go, utils/slice.go and utils/utils.go at concrete inputs.
use fleetboard.Prelude.{
  zero, suc, ◌-◌, ◌%◌, ◌+◌, ℕ, ◌≤◌, ◌<◌, ◌≡◌, refl, true, false, List, [], ◌∷◌, some, ok, err,
  arith, too_small, out_of_cidr, inl, leb, ltb, if◌then◌else◌,
}
use fleetboard.Prelude.Text.{Text, codes, split, join}
use fleetboard.Net.Addr.{IpNet, shr, shl, prefix, masked, contains, addr_max}
use fleetboard.Net.Range.{size}
use fleetboard.Net.Format.{
  octet_text, parse_octet, octets, from_octets, ip_text, parse_parts, parse_ip, digits_value,
  parse_bits, parse_cidr_parts, parse_cidr, cidr_text,
}
use fleetboard.Cidr.Index.{get_index_ip_from_cidr, pos, negative}
use fleetboard.Cidr.Index.Bounds.{get_index_ip_from_cidr-eq, get_index_ip_from_cidr-contains}
use fleetboard.Cidr.Divide.{
  divide_tunnel_network, divide_cluster_network, tunnel_bits,
  divide_cluster_network-divide_tunnel_network, divide_cluster_network-refuses_13,
}
use fleetboard.Cidr.Blocks.{
  overlapping_nets, is_overlapping_cidr, trimmed_text, existing_cidr_set, block_text, big_ip_text,
  overlaps_any, first_free, find_in_network, find_available_cidr,
}
use fleetboard.Cidr.Blocks.Disjoint.{find_available_cidr-disjoint}
use fleetboard.Cidr.Blocks.Complete.{Tested, find_available_cidr_complete}
use fleetboard.Cidr.Blocks.Full.{find_available_cidr-full}

abbrev small_cidr : Text
small_cidr = codes "10.16.8.0/30"

abbrev small_net : IpNet
small_net = record { ip = 168822784; bits = 30 }

small_parsed : parse_cidr small_cidr ≡ some (168822784, small_net)
unfolding parse_cidr parse_cidr_parts parse_ip parse_parts parse_octet from_octets digits_value
    parse_bits split masked prefix shr shl
small_parsed = refl

small_part : size small_net.bits < addr_max
unfolding shl
small_part = omega arith

get_index_ip_from_cidr-eq_example :
    (get_index_ip_from_cidr small_cidr (pos 2)
      ≡ (if leb 2 (size 30) then ok (ip_text ((168822784 + 2) % addr_max)) else err out_of_cidr))
    × (get_index_ip_from_cidr small_cidr negative ≡ err out_of_cidr)
get_index_ip_from_cidr-eq_example =
    get_index_ip_from_cidr-eq small_cidr 168822784 small_net small_parsed 2 small_part

within : 4 ≤ size small_net.bits
unfolding shl
within = omega arith

get_index_ip_from_cidr-contains_example :
    (t : Text) × (v : ℕ) × (get_index_ip_from_cidr small_cidr (pos 4) ≡ ok t)
    × (parse_ip t ≡ some v)
    × (contains small_net v ≡ ltb 4 (size 30))
get_index_ip_from_cidr-contains_example =
    get_index_ip_from_cidr-contains small_cidr 168822784 small_net small_parsed 4 small_part within

-- Networks for clusters.
abbrev net : ℕ → ℕ → IpNet
net ip bits = record { ip = ip; bits = bits }

parsed_8 : parse_cidr (codes "10.0.0.0/8") ≡ some (167772160, net 167772160 8)
unfolding parse_cidr parse_cidr_parts parse_ip parse_parts parse_octet from_octets digits_value
    parse_bits split masked prefix shr shl
parsed_8 = refl

parsed_9 : parse_cidr (codes "10.0.0.0/9") ≡ some (167772160, net 167772160 9)
unfolding parse_cidr parse_cidr_parts parse_ip parse_parts parse_octet from_octets digits_value
    parse_bits split masked prefix shr shl
parsed_9 = refl

parsed_12 : parse_cidr (codes "10.16.0.0/12") ≡ some (168820736, net 168820736 12)
unfolding parse_cidr parse_cidr_parts parse_ip parse_parts parse_octet from_octets digits_value
    parse_bits split masked prefix shr shl
parsed_12 = refl

parsed_13 : parse_cidr (codes "10.8.0.0/13") ≡ some (168296448, net 168296448 13)
unfolding parse_cidr parse_cidr_parts parse_ip parse_parts parse_octet from_octets digits_value
    parse_bits split masked prefix shr shl
parsed_13 = refl

divided_8 : divide_tunnel_network (codes "10.0.0.0/8") ≡ ok 12
unfolding divide_tunnel_network tunnel_bits
divided_8 = rw (parsed_8, divide_tunnel_network) refl

divided_9 : divide_tunnel_network (codes "10.0.0.0/9") ≡ ok 13
unfolding divide_tunnel_network tunnel_bits
divided_9 = rw (parsed_9, divide_tunnel_network) refl

divide_cluster_network-divide_tunnel_network_example :
    (node : ℕ) × (divide_cluster_network (codes "10.16.0.0/12") ≡ ok node)
    × (12 + 6 ≤ node)
    × (node + 8 ≤ 32)
divide_cluster_network-divide_tunnel_network_example =
    divide_cluster_network-divide_tunnel_network (codes "10.0.0.0/8") (codes "10.16.0.0/12")
      parsed_8 parsed_12 divided_8 (omega arith)

divide_cluster_network-refuses_13_example :
    ◌≡◌ {A = ℕ} 13 13 × (divide_cluster_network (codes "10.8.0.0/13") ≡ err too_small)
divide_cluster_network-refuses_13_example =
    divide_cluster_network-refuses_13 (codes "10.0.0.0/9") (codes "10.8.0.0/13") parsed_9 parsed_13
      divided_9 refl

-- The search for a free subnet.
abbrev used : List Text
used = codes "10.0.0.0/18" ∷ []

parsed_used : parse_cidr (codes "10.0.0.0/18") ≡ some (167772160, net 167772160 18)
unfolding parse_cidr parse_cidr_parts parse_ip parse_parts parse_octet from_octets digits_value
    parse_bits split masked prefix shr shl
parsed_used = refl

parsed_next : parse_cidr (codes "10.0.64.0/18") ≡ some (167788544, net 167788544 18)
unfolding parse_cidr parse_cidr_parts parse_ip parse_parts parse_octet from_octets digits_value
    parse_bits split masked prefix shr shl
parsed_next = refl

found_next : find_available_cidr (codes "10.0.0.0/16") used 18 ≡ ok (codes "10.0.64.0/18")
unfolding find_available_cidr find_in_network first_free overlaps_any block_text big_ip_text
    existing_cidr_set trimmed_text is_overlapping_cidr overlapping_nets cidr_text ip_text octets
    octet_text join contains parse_cidr parse_cidr_parts parse_ip parse_parts parse_octet
    from_octets digits_value parse_bits split masked prefix shr shl
found_next = refl

taken_address : contains (net 167772160 18) 167772165 ≡ true
unfolding contains prefix shr
taken_address = refl

find_available_cidr-disjoint_example : contains (net 167788544 18) 167772165 ≡ false
find_available_cidr-disjoint_example =
    find_available_cidr-disjoint (codes "10.0.0.0/16") used 18 167772165 (codes "10.0.0.0/18")
      (omega arith) found_next (inl refl) parsed_used parsed_next taken_address

-- The two halves of a network that is in use as a whole.
parsed_after : parse_cidr (codes "10.0.64.0/19") ≡ some (167788544, net 167788544 19)
unfolding parse_cidr parse_cidr_parts parse_ip parse_parts parse_octet from_octets digits_value
    parse_bits split masked prefix shr shl
parsed_after = refl

used_set : existing_cidr_set 19 used ≡ ok used
unfolding existing_cidr_set trimmed_text cidr_text ip_text octets octet_text join parse_cidr
    parse_cidr_parts parse_ip parse_parts parse_octet from_octets digits_value parse_bits split
    masked prefix shr shl
used_set = refl

found_after : find_available_cidr (codes "10.0.0.0/18") used 19 ≡ ok (codes "10.0.64.0/19")
unfolding find_available_cidr find_in_network first_free overlaps_any block_text big_ip_text
    existing_cidr_set trimmed_text is_overlapping_cidr overlapping_nets cidr_text ip_text octets
    octet_text join contains parse_cidr parse_cidr_parts parse_ip parse_parts parse_octet
    from_octets digits_value parse_bits split masked prefix shr shl
found_after = refl

half_taken : (k : ℕ) → k < 2 → overlaps_any used (block_text 167772160 19 k) ≡ ok true
unfolding overlaps_any block_text big_ip_text is_overlapping_cidr overlapping_nets ip_text octets
    octet_text join contains parse_cidr parse_cidr_parts parse_ip parse_parts parse_octet
    from_octets digits_value parse_bits split masked prefix shr shl
half_taken zero h = refl
half_taken (suc zero) h = refl
half_taken (suc (suc k)) h = absurd (omega arith)

all_taken : (k : ℕ) → k < shl 1 (19 - 18) → overlaps_any used (block_text 167772160 19 k) ≡ ok true
unfolding shl
all_taken k h = half_taken k h

find_available_cidr-full_example : contains (net 167772160 18) 167788544 ≡ false
find_available_cidr-full_example =
    find_available_cidr-full (codes "10.0.0.0/18") used 19 parsed_used (omega arith) (omega arith)
      used_set all_taken found_after parsed_after

-- The second of the blocks is free.
one_used : existing_cidr_set 19 (codes "10.0.0.0/19" ∷ []) ≡ ok (codes "10.0.0.0/19" ∷ [])
unfolding existing_cidr_set trimmed_text cidr_text ip_text octets octet_text join parse_cidr
    parse_cidr_parts parse_ip parse_parts parse_octet from_octets digits_value parse_bits split
    masked prefix shr shl
one_used = refl

first-Tested : (k : ℕ) → k < 1 → Tested 167772160 19 (codes "10.0.0.0/19" ∷ []) k
unfolding overlaps_any block_text big_ip_text is_overlapping_cidr overlapping_nets ip_text octets
    octet_text join contains parse_cidr parse_cidr_parts parse_ip parse_parts parse_octet
    from_octets digits_value parse_bits split masked prefix shr shl
first-Tested zero h = (true, refl)
first-Tested (suc k) h = absurd (omega arith)

second_free : overlaps_any (codes "10.0.0.0/19" ∷ []) (block_text 167772160 19 1) ≡ ok false
unfolding overlaps_any block_text big_ip_text is_overlapping_cidr overlapping_nets ip_text octets
    octet_text join contains parse_cidr parse_cidr_parts parse_ip parse_parts parse_octet
    from_octets digits_value parse_bits split masked prefix shr shl
second_free = refl

one_below : 1 < shl 1 (32 - 19)
unfolding shl
one_below = omega arith

find_available_cidr_complete_example :
    (t : Text) × (find_available_cidr (codes "10.0.0.0/18") (codes "10.0.0.0/19" ∷ []) 19 ≡ ok t)
find_available_cidr_complete_example =
    find_available_cidr_complete (codes "10.0.0.0/18") (codes "10.0.0.0/19" ∷ [])
      (codes "10.0.0.0/19" ∷ []) 19 1 parsed_used one_used one_below first-Tested second_free
