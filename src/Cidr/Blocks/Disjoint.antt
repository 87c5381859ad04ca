-- ===== src/Cidr/Blocks/Disjoint.antt =====
-- The subnet that is found shares no address with the networks in use.
use fleetboard.Prelude.{
  ℕ, ◌-◌, ◌≤◌, ◌<◌, ◌≡◌, refl, sym, ap, subst, Bool, true, false, ◌||◌, List, [], ◌∷◌, some, arith,
  Result, ok, err, panic, >>=-eq-ok, invalid_text, is_nil, Elem, inl, inr, Bool-cases, Option-cases,
}
use fleetboard.Prelude.Text.{Text}
use fleetboard.Net.Addr.{IpNet, shl, masked, contains, masked-le, addr_max}
use fleetboard.Net.Parsed.{parse_cidr-IsNetwork}
use fleetboard.Net.Format.{parse_cidr, cidr_text}
use fleetboard.Net.RoundTrip.{parse_cidr-cidr_text}
use fleetboard.Net.Format.{parse_cidr_parts}
use fleetboard.Net.Addr.{shl-pos}
use fleetboard.Prelude.Text.{split}
use fleetboard.Cidr.Blocks.Written.{block_bits}
use fleetboard.Cidr.Blocks.{
  overlapping_nets, is_overlapping_cidr, trimmed_text, existing_cidr_set, overlaps_any, first_free,
  find_in_network, find_available_cidr,
}
use fleetboard.Cidr.Blocks.Overlap.{trimmed, shared_address}
use fleetboard.Cidr.Blocks.Search.{Found, first_free-Found}

overlaps_any-free :
    (set : List Text) (s t : Text)
    → Elem s set
    → overlaps_any set t ≡ ok false
    → is_overlapping_cidr s t ≡ ok false
unfolding overlaps_any
overlaps_any-free [] s t m h = absurd m
overlaps_any-free (r ∷ set) s t (inl e) h = rw e (ground arith)
overlaps_any-free (r ∷ set) s t (inr m) h = overlaps_any-free set s t m (ground arith)

-- What the first of the networks in use adds to the set.
set_cons :
    (bits : ℕ) (x : Text) (existing set : List Text)
    → existing_cidr_set bits (x ∷ existing) ≡ ok set
    → is_nil x ≡ false
    → (s : Text) × (ts : List Text) × (trimmed_text (parse_cidr x) bits ≡ ok s)
      × (existing_cidr_set bits existing ≡ ok ts)
      × (set ≡ s ∷ ts)
unfolding existing_cidr_set
set_cons bits x existing set h ne =
    let (s, es, h') = >>=-eq-ok (trimmed_text (parse_cidr x) bits) _ (rw ne at h) in
    let (ts, et, h'') = >>=-eq-ok (existing_cidr_set bits existing) _ h' in (s, ts, es, et, cc)

set_skip :
    (bits : ℕ) (x : Text) (existing set : List Text)
    → existing_cidr_set bits (x ∷ existing) ≡ ok set
    → is_nil x ≡ true
    → existing_cidr_set bits existing ≡ ok set
unfolding existing_cidr_set
set_skip bits x existing set h e = rw e at h

existing_cidr_set-Elem :
    (bits : ℕ) (existing set : List Text) (e : Text)
    → existing_cidr_set bits existing ≡ ok set
    → is_nil e ≡ false
    → Elem e existing
    → (s : Text) × (trimmed_text (parse_cidr e) bits ≡ ok s) × Elem s set
existing_cidr_set-Elem bits [] set e h ne m = absurd m
existing_cidr_set-Elem bits (x ∷ existing) set e h ne (inl same) =
    let (s, ts, es, et, eq) = set_cons bits x existing set h (rw (← same) ne) in
    (s, rw same es, subst (Elem s) (sym eq) (inl refl))
existing_cidr_set-Elem bits (x ∷ existing) set e h ne (inr m) = elim (Bool-cases (is_nil x)) [
  | inl skip ↦ existing_cidr_set-Elem bits existing set e (set_skip bits x existing set h skip) ne m
  | inr keep ↦
      let (s, ts, es, et, eq) = set_cons bits x existing set h keep in
      let (s', es', m') = existing_cidr_set-Elem bits existing ts e et ne m in
      (s', es', subst (Elem s') (sym eq) (inr m'))
]

abbrev text_of : Result Text → Text → Text
text_of (ok t) d = t
text_of (err e) d = d
text_of panic d = d

-- The comparison that the search makes for the network `e` in use and the subnet `t`.
compared :
    (bits : ℕ) (e s t : Text) {b c : ℕ} {m n : IpNet}
    → m.bits ≤ 32
    → m.ip < addr_max
    → trimmed_text (parse_cidr e) bits ≡ ok s
    → parse_cidr e ≡ some (b, m)
    → parse_cidr t ≡ some (c, n)
    → is_overlapping_cidr s t
      ≡ ok (contains (trimmed m bits) n.ip || contains n (trimmed m bits).ip)
unfolding is_overlapping_cidr overlapping_nets trimmed_text
compared bits e s t {b} {c} {m} {n} short small es pe pt =
    rw
      (
        ← text,
        parse_cidr-cidr_text (masked m.ip bits) m.bits (omega (arith, masked-le m.ip bits)) short,
        pt,
        overlapping_nets,
      )
      refl
  where
    text : cidr_text (masked m.ip bits) m.bits ≡ s
    text = ap (λ (r : Result Text). text_of r s) (rw (pe, trimmed_text) at es)

parse_cidr-nil : (e : Text) {b : ℕ} {m : IpNet} → parse_cidr e ≡ some (b, m) → is_nil e ≡ false
unfolding parse_cidr parse_cidr_parts split
parse_cidr-nil [] h = cc
parse_cidr-nil (x ∷ e) h = refl

hit : {r : Result Bool} {b : Bool} → r ≡ ok b → r ≡ ok false → b ≡ true → ⊥
hit e f g = cc

module _ (network : Text) (existing : List Text) (bits : ℕ) {t : Text} where
  pub Found-in :
      find_available_cidr network existing bits ≡ ok t
      → (a : ℕ) × (n : IpNet) × (set : List Text) × (parse_cidr network ≡ some (a, n))
        × (existing_cidr_set bits existing ≡ ok set)
        × Found n.ip bits set 0 (shl 1 (32 - bits)) t
  unfolding find_available_cidr find_in_network
  Found-in h = elim (Option-cases (parse_cidr network)) [
    | inl e ↦ absurd (clash (rw e at h))
    | inr ((a, n), e) ↦
        let (set, es, h') =
          >>=-eq-ok (existing_cidr_set bits existing)
            (λ set. first_free (shl 1 (32 - bits)) n.ip bits set 0) (rw e at h) in
        (a, n, set, e, es, first_free-Found n.ip bits set (shl 1 (32 - bits)) 0 t h')
  ]
    where
      clash : ◌≡◌ {A = Result Text} (err invalid_text) (ok t) → ⊥
      clash c = cc

  -- A subnet that is found shares no address with any of the networks in use.
  pub find_available_cidr-disjoint :
      (a : ℕ) (e : Text) {b c : ℕ} {m n : IpNet}
      → bits ≤ 32
      → find_available_cidr network existing bits ≡ ok t
      → Elem e existing
      → parse_cidr e ≡ some (b, m)
      → parse_cidr t ≡ some (c, n)
      → contains m a ≡ true
      → contains n a ≡ false
  find_available_cidr-disjoint a e {b} {c} {m} {n} hb h he pe pt cm =
      let (_, net, set, _, es, f) = Found-in h in
      let (s, trim, elem) =
        existing_cidr_set-Elem bits existing set e es (parse_cidr-nil e pe) he in
      let same : n.bits ≡ bits =
        block_bits net.ip bits f.at hb (subst (λ x. parse_cidr x ≡ some (c, n)) f.text pt) in
      let free = overlaps_any-free set s t elem f.free in
      let wm = parse_cidr-IsNetwork e pe in
      let wn = parse_cidr-IsNetwork t pt in
      let test =
        compared n.bits e s t wm.short (omega (arith, wm.room, shl-pos (32 - m.bits)))
          (rw same trim) pe pt in
      elim (Bool-cases (contains n a)) [
        | inl cn ↦ absurd (hit test free (shared_address m n wm.short wn.short a cm cn))
        | inr cn ↦ cn
      ]
