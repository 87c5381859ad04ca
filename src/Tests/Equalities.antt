-- ===== src/Tests/Equalities.antt =====
-- What reflect.DeepEqual comes to on the infos of endpoint slices.
use fleetboard.Prelude.{
  ℕ, ◌==◌, ==_iff, ◌≡◌, ◌↔◌, ◌∙◌, refl, sym, ap, Bool, true, false, not, ◌&&◌, List, [], ◌∷◌,
  Option, none, some, arith,
}
use fleetboard.Prelude.Text.{Text, text_eq, text_eq_iff}
use fleetboard.Prelude.Keyed.{Equal}
use fleetboard.Proxy.Ports.{service_equal}
use fleetboard.Proxy.Slices.{EndpointPort, EndpointInfo, EndpointSliceInfo}

pub record Both (A B : Type 0) : Type 0 where
  pub left : A
  pub right : B

abbrev pub both : {A B : Type 0} → A → B → Both A B
both a b = record { left = a; right = b }

abbrev pub flag_same : Bool → Bool → Bool
flag_same true b = b
flag_same false b = not b

pub flag_same_iff : (a b : Bool) → (flag_same a b ≡ true) ↔ (a ≡ b)
flag_same_iff a b = ground arith

abbrev pub flags : Equal Bool
flags = record { same = flag_same; same_iff = flag_same_iff }

abbrev pub texts : Equal Text
texts = record { same = text_eq; same_iff = text_eq_iff }

abbrev pub naturals : Equal ℕ
naturals = record { same = ◌==◌; same_iff = ==_iff }

module _ {A B : Type 0} (a : Equal A) (b : Equal B) where
  abbrev pub both_same : Both A B → Both A B → Bool
  both_same x y = a.same x.left y.left && b.same x.right y.right

  pub both_same_iff : (x y : Both A B) → (both_same x y ≡ true) ↔ (x ≡ y)
  both_same_iff x y = ground (arith, a.same_iff x.left y.left, b.same_iff x.right y.right)

  abbrev pub pairs : Equal (Both A B)
  pairs = record { same = both_same; same_iff = both_same_iff }

module _ {A : Type 0} (a : Equal A) where
  abbrev pub option_same : Option A → Option A → Bool
  option_same none none = true
  option_same none (some y) = false
  option_same (some x) none = false
  option_same (some x) (some y) = a.same x y

  pub option_same_iff : (x y : Option A) → (option_same x y ≡ true) ↔ (x ≡ y)
  option_same_iff none none = ground arith
  option_same_iff none (some y) = ((λ h. cc), (λ h. cc))
  option_same_iff (some x) none = ((λ h. cc), (λ h. cc))
  option_same_iff (some x) (some y) = ground (arith, a.same_iff x y)

  abbrev pub options : Equal (Option A)
  options = record { same = option_same; same_iff = option_same_iff }

  unfoldable pub list_same : List A → List A → Bool
  list_same [] [] = true
  list_same [] (y ∷ ys) = false
  list_same (x ∷ xs) [] = false
  list_same (x ∷ xs) (y ∷ ys) = a.same x y && list_same xs ys

  pub list_same_iff : (xs ys : List A) → (list_same xs ys ≡ true) ↔ (xs ≡ ys)
  unfolding list_same
  list_same_iff [] [] = ((λ h. refl), (λ h. refl))
  list_same_iff [] (y ∷ ys) = ((λ h. cc), (λ h. cc))
  list_same_iff (x ∷ xs) [] = ((λ h. cc), (λ h. cc))
  list_same_iff (x ∷ xs) (y ∷ ys) = (
    (λ h. ground (arith, a.same_iff x y, list_same_iff xs ys)),
    (λ h. ground (arith, a.same_iff x y, list_same_iff xs ys)),
  )

  abbrev pub lists : Equal (List A)
  lists = record { same = list_same; same_iff = list_same_iff }

-- A type whose values are told apart by their image.
module _ {A B : Type 0} (b : Equal B) (f : A → B) (g : B → A) (back : (x : A) → g (f x) ≡ x) where
  pub by_iff : (x y : A) → (b.same (f x) (f y) ≡ true) ↔ (x ≡ y)
  by_iff x y = (
    (λ h. sym (back x) ∙ ap g ((b.same_iff (f x) (f y)).0 h) ∙ back y),
    (λ h. (b.same_iff (f x) (f y)).1 (ap f h)),
  )

  abbrev pub by : Equal A
  by = record { same = λ x y. b.same (f x) (f y); same_iff = by_iff }

abbrev pub ports_equal : Equal EndpointPort
ports_equal =
    by (pairs (options texts) (pairs (options naturals) texts))
      (λ p. both p.name (both p.port p.protocol))
      (λ x. record { name = x.left; port = x.right.left; protocol = x.right.right }) (λ p. refl)

abbrev pub endpoints_equal : Equal EndpointInfo
endpoints_equal =
    by
      (pairs (lists texts) (
        pairs (options texts)
          (pairs (options texts) (pairs (lists texts) (pairs flags (pairs flags flags))))))
      (λ e. both e.addresses (
        both e.node_name
          (both e.zone (both e.zone_hints (both e.ready (both e.serving e.terminating))))))
      (λ x. record {
        addresses = x.left;
        node_name = x.right.left;
        zone = x.right.right.left;
        zone_hints = x.right.right.right.left;
        ready = x.right.right.right.right.left;
        serving = x.right.right.right.right.right.left;
        terminating = x.right.right.right.right.right.right;
      })
      (λ e. refl)

abbrev pub infos_equal : Equal EndpointSliceInfo
infos_equal =
    by (pairs (lists ports_equal) (pairs (lists endpoints_equal) (pairs flags service_equal)))
      (λ i. both i.ports (both i.endpoints (both i.remove i.service)))
      (λ x. record {
        ports = x.left;
        endpoints = x.right.left;
        remove = x.right.right.left;
        service = x.right.right.right;
      })
      (λ i. refl)

instance unfoldable pub pointers_equal : Equal (Option EndpointSliceInfo)
pointers_equal = options infos_equal
