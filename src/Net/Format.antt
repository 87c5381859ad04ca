-- ===== src/Net/Format.antt =====
-- The texts: net.ParseCIDR, IP.String and IPNet.String. An octet has no leading zero
-- (netip.ParseAddr), the prefix length may have some (dtoi).
use fleetboard.Prelude.{
  ℕ, ◌+◌, ◌-◌, ◌*◌, ◌/◌, ◌%◌, Bool, ◌&&◌, not, List, [], ◌∷◌, ◌++◌, map, Option, none, some, leb,
  ltb, ◌==◌, if◌then◌else◌,
}
use fleetboard.Prelude.Text.{Text, split, join}
use fleetboard.Net.Addr.{IpNet, masked}

infixl 5 ◌>>=◌
abbrev ◌>>=◌ {ℓ κ} : {A : Type ℓ} {B : Type κ} → Option A → (A → Option B) → Option B
none >>= f = none
some a >>= f = f a

abbrev pub is_digit : ℕ → Bool
is_digit c = leb b'0' c && leb c b'9'

-- A decimal below 256.
unfoldable pub octet_text : ℕ → Text
octet_text b =
    if ltb b 10
    then (b'0' + b) ∷ []
    else if ltb b 100
    then (b'0' + b / 10) ∷ (b'0' + b % 10) ∷ []
    else (b'0' + b / 100) ∷ (b'0' + b / 10 % 10) ∷ (b'0' + b % 10) ∷ []

unfoldable pub parse_octet : Text → Option ℕ
parse_octet [] = none
parse_octet (c ∷ []) = if is_digit c then some (c - b'0') else none
parse_octet (c ∷ d ∷ []) =
    if is_digit c && is_digit d && not (c == b'0')
    then some ((c - b'0') * 10 + (d - b'0'))
    else none
parse_octet (c ∷ d ∷ e ∷ []) =
    let v = (c - b'0') * 100 + (d - b'0') * 10 + (e - b'0') in
    if is_digit c && is_digit d && is_digit e && not (c == b'0') && ltb v 256 then some v else none
parse_octet (c ∷ d ∷ e ∷ f ∷ t) = none

-- The four bytes of an address, the first one first.
unfoldable pub octets : ℕ → List ℕ
octets a = (a / 16777216 % 256) ∷ (a / 65536 % 256) ∷ (a / 256 % 256) ∷ (a % 256) ∷ []

unfoldable pub from_octets : ℕ → ℕ → ℕ → ℕ → ℕ
from_octets a b c d = a * 16777216 + b * 65536 + c * 256 + d

-- ip.String() of a four-byte address
unfoldable pub ip_text : ℕ → Text
unfolding octets
ip_text a = join b'.' (map octet_text (octets a))

unfoldable pub parse_parts : List Text → Option ℕ
parse_parts (p ∷ q ∷ r ∷ s ∷ []) = do
  a ← parse_octet p
  b ← parse_octet q
  c ← parse_octet r
  d ← parse_octet s
  some (from_octets a b c d)
parse_parts _ = none

-- net.ParseIP
unfoldable pub parse_ip : Text → Option ℕ
parse_ip t = parse_parts (split b'.' t)

-- dtoi over the whole text.
unfoldable pub digits_value : ℕ → Text → Option ℕ
digits_value acc [] = some acc
digits_value acc (c ∷ t) =
    let rest = digits_value (acc * 10 + (c - b'0')) t in if is_digit c then rest else none

unfoldable pub parse_bits : Text → Option ℕ
parse_bits [] = none
parse_bits (c ∷ t) = do n ← digits_value 0 (c ∷ t); if leb n 32 then some n else none

unfoldable pub parse_cidr_parts : List Text → Option (ℕ × IpNet)
parse_cidr_parts (addr ∷ mask ∷ []) = do
  a ← parse_ip addr
  n ← parse_bits mask
  some (a, record { ip = masked a n; bits = n })
parse_cidr_parts _ = none

-- net.ParseCIDR: the address as it is written, and the network that holds it.
unfoldable pub parse_cidr : Text → Option (ℕ × IpNet)
parse_cidr t = parse_cidr_parts (split b'/' t)

-- ip.String() + "/" + n in decimal: n.String() of a network.
unfoldable pub cidr_text : ℕ → ℕ → Text
cidr_text a n = ip_text a ++ b'/' ∷ octet_text n
