-- ===== src/Cidr/Index/Carry.antt =====
-- inc adds one to the number that the bytes stand for, modulo 2 ^ 32.
use native.Mathlib.Nat.{pow-succ'}
use fleetboard.Prelude.{
  ==_iff, Bool-cases, inl, inr, ℕ, suc, ◌+◌, ◌*◌, ◌%◌, ◌^◌, ◌≤◌, ◌<◌, ◌≡◌, refl, ap, subst, ◌∙◌,
  Bool, true, false, List, [], ◌∷◌, arith, ◌==◌, if◌then◌else◌, length, All,
}
use fleetboard.Net.Addr.{addr_max}
use fleetboard.Net.Format.{octets}
use fleetboard.Cidr.Index.{inc_carry, inc, value}

abbrev Bytes : List ℕ → Type 0
Bytes bs = All (λ b. b < 256) bs

pub record Carried (bs : List ℕ) (r : List ℕ × Bool) : Type 0 where
  pub total : value r.0 + (if r.1 then 256 ^ length bs else 0) ≡ value bs + 1
  pub bytes : Bytes r.0
  pub same_length : length r.0 ≡ length bs

module _ (b : ℕ) (bs rest : List ℕ) (hb : b < 256) (len : length rest ≡ length bs) where
  carried_total :
      (bump : ℕ)
      → value rest + 256 ^ length bs ≡ value bs + 1
      → (b + 1 ≡ bump)
      → (bump % 256) * 256 ^ length rest
          + value rest
          + (if (bump % 256) == 0 then 256 ^ suc (length bs) else 0)
        ≡ b * 256 ^ length bs + value bs + 1
  carried_total bump total e = elim (Bool-cases ((bump % 256) == 0)) [
    | inl wrap ↦ rw wrap (
        omega (
          arith,
          pow-succ' 256 (length bs),
          ap (λ (t : ℕ). t * 256 ^ length rest) ((==_iff (bump % 256) 0).0 wrap),
          let full : b ≡ 255 = omega (arith, (==_iff (bump % 256) 0).0 wrap) in
              ap (λ (t : ℕ). t * 256 ^ length bs) full,
        ))
    | inr more ↦ rw more (
        let small : bump % 256 ≡ b + 1 = ground (arith, more) in
        omega (
          arith,
          ap (λ (t : ℕ). t * 256 ^ length rest) small,
          ap (λ (n : ℕ). (b + 1) * 256 ^ n) len,
        ))
  ]

  plain_total :
      value rest ≡ value bs + 1
      → b * 256 ^ length rest + value rest ≡ b * 256 ^ length bs + value bs + 1
  plain_total total = omega (arith, ap (λ (n : ℕ). b * 256 ^ n) len)

carry_byte :
    (b : ℕ) (bs : List ℕ) (r : List ℕ × Bool)
    → b < 256
    → Bytes bs
    → Carried bs r
    → Carried
        (b ∷ bs)
        (if r.1 then ((b + 1) % 256 ∷ r.0, ((b + 1) % 256) == 0) else (b ∷ r.0, false))
unfolding value
carry_byte b bs (rest, true) hb hbs c = record {
  total = carried_total b bs rest hb c.same_length (b + 1) c.total refl;
  bytes = (omega arith, c.bytes);
  same_length = ap suc c.same_length;
}
carry_byte b bs (rest, false) hb hbs c = record {
  total =
      let e = plain_total b bs rest hb c.same_length (omega (arith, c.total)) in omega (arith, e);
  bytes = (hb, c.bytes);
  same_length = ap suc c.same_length;
}

inc_carry-Carried : (bs : List ℕ) → Bytes bs → Carried bs (inc_carry bs)
unfolding inc_carry
inc_carry-Carried [] _ = record { total = omega arith; bytes = tt; same_length = refl }
inc_carry-Carried (b ∷ bs) (hb, hbs) =
    carry_byte b bs (inc_carry bs) hb hbs (inc_carry-Carried bs hbs)

octets_of_value : (bs : List ℕ) → length bs ≡ 4 → Bytes bs → bs ≡ octets (value bs)
unfolding value octets
octets_of_value (a ∷ b ∷ c ∷ d ∷ []) _ h = ground arith
octets_of_value [] e h = absurd (omega arith)
octets_of_value (a ∷ []) e h = absurd (omega arith)
octets_of_value (a ∷ b ∷ []) e h = absurd (omega arith)
octets_of_value (a ∷ b ∷ c ∷ []) e h = absurd (omega arith)
octets_of_value (a ∷ b ∷ c ∷ d ∷ f ∷ g) e h = absurd (omega arith)

length-octets : (a : ℕ) → length (octets a) ≡ 4
unfolding octets
length-octets a = refl

octets-Bytes : (a : ℕ) → Bytes (octets a)
unfolding octets
octets-Bytes a = omega arith

pub value-octets : (a : ℕ) → a < addr_max → value (octets a) ≡ a
unfolding value octets
value-octets a h = omega arith

value_bound : (bs : List ℕ) → Bytes bs → value bs < 256 ^ length bs
unfolding value
value_bound [] _ = omega arith
value_bound (b ∷ bs) (hb, hbs) =
    let room : b * 256 ^ length bs ≤ 255 * 256 ^ length bs = grind arith in
    omega (arith, pow-succ' 256 (length bs), value_bound bs hbs)

value_mod :
    (v p a : ℕ) (carry : Bool)
    → p ≡ addr_max
    → a < addr_max
    → v < p
    → v + (if carry then p else 0) ≡ a + 1
    → v ≡ (a + 1) % addr_max
value_mod v p a true hp ha hv e = omega arith
value_mod v p a false hp ha hv e = omega arith

pub inc-octets : (a : ℕ) → a < addr_max → inc (octets a) ≡ octets ((a + 1) % addr_max)
unfolding inc
inc-octets a h = octets_of_value _ (c.same_length ∙ length-octets a) c.bytes ∙ ap octets value-inc
  where
    r : List ℕ × Bool
    r = inc_carry (octets a)

    c : Carried (octets a) r
    c = inc_carry-Carried (octets a) (octets-Bytes a)

    four : 256 ^ length (octets a) ≡ addr_max
    four = rw (length-octets a) refl

    value-inc : value r.0 ≡ (a + 1) % addr_max
    value-inc =
        value_mod (value r.0) (256 ^ length (octets a)) a r.1 four h
          (subst (λ (n : ℕ). value r.0 < 256 ^ n) c.same_length (value_bound r.0 c.bytes))
          (rw (value-octets a h) at c.total)
