-- ===== src/Cidr/Index/Bounds.antt =====
-- Which indices have an address, and which address it is.
use mathlib.Core.Path.{ap₂}
use fleetboard.Prelude.{
  ltb, leb, ltb→lt, leb→lt, leb→le, ltb→le, leb, ==_iff, Bool-cases, inl, inr, ℕ, zero, suc, ◌+◌,
  ◌-◌, ◌%◌, ◌≤◌, ◌<◌, ◌≡◌, refl, ap, ◌∙◌, true, false, List, some, arith, ◌==◌, if◌then◌else◌,
  Result, ok, err, out_of_cidr,
}
use fleetboard.Prelude.Text.{Text}
use fleetboard.Net.Addr.{IpNet, masked, contains, addr_max}
use fleetboard.Net.Format.{octets, ip_text, parse_cidr}
use fleetboard.Net.Range.{size, contains_of_range, range_of_contains}
use fleetboard.Net.Addr.{shl-pos}
use fleetboard.Net.Parsed.{IsNetwork, parse_cidr-IsNetwork}
use fleetboard.Net.Format.{parse_ip}
use fleetboard.Net.RoundTrip.{parse_ip-ip_text}
use fleetboard.Cidr.Index.{advance, bytes_text, index_ip, get_index_ip_from_cidr, pos, negative}
use fleetboard.Cidr.Index.Carry.{inc-octets, value-octets}

module _ (left start a : ℕ) (n : IpNet) (small : a < addr_max) where
  advance_step :
      contains n a ≡ true
      → advance (suc left) start n (octets a)
        ≡ advance left (start + 1) n (octets ((a + 1) % addr_max))
  unfolding advance
  advance_step c = rw (value-octets a small, c, inc-octets a small, advance) refl

  advance_stop : contains n a ≡ false → advance (suc left) start n (octets a) ≡ (start, octets a)
  unfolding advance
  advance_stop c = rw (value-octets a small, c, advance) refl

size_pos : (n : IpNet) → 0 < size n.bits
size_pos n = shl-pos (32 - n.bits)

bytes_text-octets : (a : ℕ) → ◌≡◌ {A = Result Text} (ok (bytes_text (octets a))) (ok (ip_text a))
unfolding bytes_text ip_text
bytes_text-octets a = refl

index_ip-negative : (n : IpNet) → index_ip n negative ≡ err out_of_cidr
unfolding index_ip
index_ip-negative n = refl

advance_zero : (start : ℕ) (n : IpNet) (ip : List ℕ) → advance 0 start n ip ≡ (start, ip)
unfolding advance
advance_zero start n ip = refl

-- The loop from `start` on, as long as every address that it passes lies in the network.
advance_inside :
    (left start base : ℕ) (n : IpNet)
    → base ≡ masked n.ip n.bits
    → start + left ≤ size n.bits
    → base + size n.bits ≤ addr_max
    → advance left start n (octets ((base + start) % addr_max))
      ≡ (start + left, octets ((base + start + left) % addr_max))
advance_inside zero start base n hb h top =
    let e₁ : start + 0 ≡ start = omega arith in
    let e₂ : base + start + 0 ≡ base + start = omega arith in rw (e₁, e₂) (advance_zero start n _)
advance_inside (suc left) start base n hb h top =
    advance_step left start v n (omega arith) (contains_of_range n v (omega arith) (omega arith))
    ∙ ap (λ (b : ℕ). advance left (start + 1) n (octets b)) next
    ∙ advance_inside left (start + 1) base n hb (omega arith) top
    ∙ ap₂ (λ (a : ℕ) (b : ℕ). (a, octets (b % addr_max))) (omega arith) (omega arith)
  where
    v : ℕ
    v = (base + start) % addr_max

    next : (v + 1) % addr_max ≡ (base + (start + 1)) % addr_max
    next = omega arith

-- Beyond the network's last address the loop stops before it reaches the index.
advance_outside :
    (left start base : ℕ) (n : IpNet)
    → base ≡ masked n.ip n.bits
    → start ≤ size n.bits
    → size n.bits < start + left
    → base + size n.bits ≤ addr_max
    → size n.bits < addr_max
    → (advance left start n (octets ((base + start) % addr_max))).0 ≡ size n.bits
advance_outside zero start base n hb hs h top part = absurd (omega arith)
advance_outside (suc left) start base n hb hs h top part = elim (Bool-cases (contains n v)) [
  | inl c ↦
      ap (λ (r : ℕ × List ℕ). r.0)
        (advance_step left start v n (omega arith) c
          ∙ ap (λ (b : ℕ). advance left (start + 1) n (octets b)) next)
      ∙ advance_outside left (start + 1) base n hb (inside c) (omega arith) top part
  | inr c ↦ ap (λ (r : ℕ × List ℕ). r.0) (advance_stop left start v n (omega arith) c) ∙ edge c
]
  where
    v : ℕ
    v = (base + start) % addr_max

    next : (v + 1) % addr_max ≡ (base + (start + 1)) % addr_max
    next = omega arith

    inside : contains n v ≡ true → start + 1 ≤ size n.bits
    inside c = omega (arith, range_of_contains n v c)

    edge : contains n v ≡ false → start ≡ size n.bits
    edge c = elim (Bool-cases (ltb start (size n.bits))) [
      | inl lt ↦ absurd (
          clash
            (contains_of_range n v (omega (arith, ltb→lt _ _ lt)) (omega (arith, ltb→lt _ _ lt))))
      | inr ge ↦ ground arith
    ]
      where
        clash : contains n v ≡ true → ⊥
        clash t = cc

module _ (n : IpNet) (index : ℕ) (w : IsNetwork n) (part : size n.bits < addr_max) where
  abbrev reached : ℕ × List ℕ
  reached = advance index 0 n (octets (masked n.ip n.bits))

  start_at : reached ≡ advance index 0 n (octets ((n.ip + 0) % addr_max))
  start_at =
      ap (λ (a : ℕ). advance index 0 n (octets a)) (omega (arith, w.canonical, w.room, size_pos n))

  inside_lem : index ≤ size n.bits → reached ≡ (index, octets ((n.ip + index) % addr_max))
  inside_lem h =
      start_at
      ∙ advance_inside index 0 n.ip n w.canonical (omega arith) w.room
      ∙ ap₂ (λ (a : ℕ) (b : ℕ). (a, octets (b % addr_max))) (omega arith) (omega arith)

  outside_lem : size n.bits < index → reached.0 ≡ size n.bits
  outside_lem h =
      ap (λ (r : ℕ × List ℕ). r.0) start_at
      ∙ advance_outside index 0 n.ip n w.canonical (omega arith) (omega arith) w.room part

  pub index_ip-pos : index_ip n (pos index) ≡ (
      if leb index (size n.bits) then ok (ip_text ((n.ip + index) % addr_max)) else err out_of_cidr)
  unfolding index_ip
  index_ip-pos = elim (Bool-cases (leb index (size n.bits))) [
    | inl h ↦ rw (h, inside_lem (leb→le _ _ h), (==_iff index index).1 refl) (bytes_text-octets _)
    | inr h ↦ rw (h, outside_lem (leb→lt _ _ h), missed (leb→lt _ _ h)) refl
  ]
    where
      missed : size n.bits < index → (size n.bits == index) ≡ false
      missed lt = ground arith

  pub contains-index :
      index ≤ size n.bits → contains n ((n.ip + index) % addr_max) ≡ ltb index (size n.bits)
  contains-index h = elim (Bool-cases (ltb index (size n.bits))) [
    | inl lt ↦ rw lt (
        contains_of_range n _ (omega (arith, ltb→lt _ _ lt, w.canonical, w.room))
          (omega (arith, ltb→lt _ _ lt, w.canonical, w.room)))
    | inr ge ↦ rw ge (beyond ge)
  ]
    where
      beyond : ltb index (size n.bits) ≡ false → contains n ((n.ip + index) % addr_max) ≡ false
      beyond ge = elim (Bool-cases (contains n ((n.ip + index) % addr_max))) [
        | inl c ↦
            absurd (
              omega
                (arith, range_of_contains n _ c, ltb→le _ _ ge, w.canonical, w.room, size_pos n))
        | inr c ↦ c
      ]

module _ (cidr : Text) (a : ℕ) (n : IpNet) (parsed : parse_cidr cidr ≡ some (a, n)) where
  -- In every network but 0.0.0.0/0 an index up to the network's size, the size included, yields the
  -- text of the address that lies as far above the network's own (modulo 2 ^ 32, as the bytes wrap);
  -- every larger index, and every negative one, is an error.
  pub get_index_ip_from_cidr-eq :
      (index : ℕ)
      → size n.bits < addr_max
      → (get_index_ip_from_cidr cidr (pos index) ≡ (
          if leb index (size n.bits)
          then ok (ip_text ((n.ip + index) % addr_max))
          else err out_of_cidr))
        × (get_index_ip_from_cidr cidr negative ≡ err out_of_cidr)
  unfolding get_index_ip_from_cidr
  get_index_ip_from_cidr-eq index part = (
    rw (parsed, get_index_ip_from_cidr)
        (index_ip-pos n index (parse_cidr-IsNetwork cidr parsed) part),
    rw (parsed, get_index_ip_from_cidr) (index_ip-negative n),
  )

  -- Of the indices that are accepted, those below the network's size yield an address of the network,
  -- and the size itself yields one outside it.
  pub get_index_ip_from_cidr-contains :
      (index : ℕ)
      → size n.bits < addr_max
      → index ≤ size n.bits
      → (t : Text) × (v : ℕ) × (get_index_ip_from_cidr cidr (pos index) ≡ ok t)
        × (parse_ip t ≡ some v)
        × (contains n v ≡ ltb index (size n.bits))
  get_index_ip_from_cidr-contains index part h = (
    ip_text v,
    v,
    (get_index_ip_from_cidr-eq index part).0 ∙ accepted,
    parse_ip-ip_text v (omega arith),
    contains-index n index (parse_cidr-IsNetwork cidr parsed) part h,
  )
    where
      v : ℕ
      v = (n.ip + index) % addr_max

      accepted :
          (if leb index (size n.bits) then ok (ip_text v) else err out_of_cidr) ≡ ok (ip_text v)
      accepted = ground arith
