-- ===== src/Services/Random.antt =====
-- GetServiceCIDRFromIP, GenerateRandomServiceCIDR, NewRandomServiceCIDR and GetServiceCIDR of
-- utils/endpointslice.go. The random numbers are an argument.
use fleetboard.Prelude.{
  leb, leb→le, leb→lt, ap, sym, subst, ◌∙◌, ℕ, zero, suc, ◌+◌, ◌*◌, ◌%◌, ◌<◌, ◌≡◌, refl, Bool, true,
  false, ◌||◌, List, [], ◌∷◌, none, some, if◌then◌else◌, is_nil, invalid_text, no_available, Result,
  ok, err, panic, ◌>>=◌, Elem, inl, inr, >>=-eq-ok, Bool-cases, arith,
}
use fleetboard.Prelude.Text.{Text}
use fleetboard.Net.Addr.{masked, IpNet, contains}
use fleetboard.Net.Range.{contains_of_range, range_of_contains}
use fleetboard.Net.Parsed.{IsNetwork, parse_cidr-IsNetwork}
use fleetboard.Controllers.Inner.Allocation.{Shares}
use fleetboard.Cidr.Blocks.{overlapping_nets}
use fleetboard.Net.Format.{parse_ip, cidr_text}
use fleetboard.Cidr.Blocks.{is_overlapping_cidr}
use fleetboard.Pods.Patch.{PodApi}
use fleetboard.Pods.ServiceCidr.{get_service_cidr_from_cnf_pod}
use fleetboard.Services.Parameters.{
  ControlPlane, find_cluster_service_ip_range, find_cluster_pod_ip_range,
}

-- GetServiceCIDRFromIP
unfoldable pub get_service_cidr_from_ip : Text → Result Text
get_service_cidr_from_ip ip = elim (parse_ip ip) [
  | none ↦ err invalid_text
  | some v ↦ ok (cidr_text (masked v 24) 24)
]

-- privateRanges: 10.0.0.0/8, 172.16.0.0/12 and 192.168.0.0/16.
pub data PrivateRange : Type 0 where
  ten one_seven_two one_nine_two : PrivateRange

abbrev pub range_ip : PrivateRange → ℕ
range_ip ten = 167772160
range_ip one_seven_two = 2886729728
range_ip one_nine_two = 3232235520

-- The range's address with a third byte.
unfoldable pub random_cidr : PrivateRange × ℕ → Text
random_cidr (range, byte) = cidr_text (range_ip range + 256 * (byte % 256)) 24

-- The loop over the networks there are.
unfoldable pub conflicts : Text → List Text → Result Bool
conflicts cidr [] = ok false
conflicts cidr (existing ∷ rest) = do
  hit ← is_overlapping_cidr cidr existing
  elim hit [ true ↦ ok true | false ↦ conflicts cidr rest ]

-- The rounds from `i` on, `left` of them; `pick` gives the random numbers of each round, or the error
-- of drawing them.
unfoldable pub try_random : ℕ → (ℕ → Result (PrivateRange × ℕ)) → List Text → ℕ → Result Text
unfolding random_cidr conflicts
try_random zero pick existing i = err no_available
try_random (suc left) pick existing i = do
  drawn ← pick i
  conflict ← conflicts (random_cidr drawn) existing
  elim conflict [ true ↦ try_random left pick existing (i + 1) | false ↦ ok (random_cidr drawn) ]

-- GenerateRandomServiceCIDR
unfoldable pub generate_random_service_cidr :
    (ℕ → Result (PrivateRange × ℕ)) → List Text → Result Text
unfolding try_random
generate_random_service_cidr pick existing = try_random 100 pick existing 0

-- NewRandomServiceCIDR
unfoldable pub new_random_service_cidr :
    ControlPlane → (ℕ → Result (PrivateRange × ℕ)) → Result Text
unfolding generate_random_service_cidr
new_random_service_cidr plane pick = do
  services ← find_cluster_service_ip_range plane
  pods ← find_cluster_pod_ip_range plane
  generate_random_service_cidr pick (services ∷ pods ∷ [])

-- Of a service import in the loop of GetServiceCIDR: whether it has a virtual address, and its IPs.
abbrev pub virtual_ips : List (Bool × List Text) → List Text
virtual_ips [] = []
virtual_ips ((true, ip ∷ ips) ∷ imports) =
    if is_nil ip then virtual_ips imports else ip ∷ virtual_ips imports
virtual_ips (x ∷ imports) = virtual_ips imports

abbrev pub service_cidr_from :
    (api : PodApi) → PodApi.Server api → List Text → Result (Text × List Text)
service_cidr_from api s [] = do cidr ← get_service_cidr_from_cnf_pod api s; ok (cidr, [])
service_cidr_from api s (ip ∷ ips) = do cidr ← get_service_cidr_from_ip ip; ok (cidr, ip ∷ ips)

-- GetServiceCIDR, from the service imports on.
unfoldable pub get_service_cidr :
    (api : PodApi) → PodApi.Server api → List (Bool × List Text) → Result (Text × List Text)
unfolding get_service_cidr_from_ip
get_service_cidr api s imports = service_cidr_from api s (virtual_ips imports)

conflicts-free :
    (cidr : Text) (existing : List Text) (e : Text)
    → conflicts cidr existing ≡ ok false
    → Elem e existing
    → is_overlapping_cidr cidr e ≡ ok false
unfolding conflicts
conflicts-free cidr [] e h m = absurd m
conflicts-free cidr (x ∷ existing) e h (inl same) = rw same (ground arith)
conflicts-free cidr (x ∷ existing) e h (inr m) = conflicts-free cidr existing e (ground arith) m

-- A round whose network is the one generated.
pub record Generated (pick : ℕ → Result (PrivateRange × ℕ)) (existing : List Text) (start left : ℕ)
    (t : Text) : Type 0 where
  pub round : ℕ
  pub early : round < start + left
  pub drawn : PrivateRange × ℕ
  pub picked : pick round ≡ ok drawn
  pub text : t ≡ random_cidr drawn
  pub free : conflicts t existing ≡ ok false

abbrev val_of {ℓ} : {A : Type ℓ} → Result A → A → A
val_of (ok x) d = x
val_of (err e) d = d
val_of panic d = d

same_ok : {x y : Text} → ◌≡◌ {A = Result Text} (ok x) (ok y) → x ≡ y
same_ok {x = x} e = ap (λ r. val_of r x) e

try_random-Generated :
    (left : ℕ) (pick : ℕ → Result (PrivateRange × ℕ)) (existing : List Text) (i : ℕ) (t : Text)
    → try_random left pick existing i ≡ ok t
    → Generated pick existing i left t
unfolding try_random
try_random-Generated zero pick existing i t h = cc
try_random-Generated (suc left) pick existing i t h =
    let (drawn, p, k) = >>=-eq-ok (pick i) (λ d. round d) h in
    let (hit, e, l) = >>=-eq-ok (conflicts (random_cidr drawn) existing) (λ b. answer drawn b) k in
    of_hit drawn p hit e (try_random-Generated left pick existing (i + 1) t) l
  where
    answer : PrivateRange × ℕ → Bool → Result Text
    answer drawn b = elim b [
      | true ↦ try_random left pick existing (i + 1)
      | false ↦ ok (random_cidr drawn)
    ]

    round : PrivateRange × ℕ → Result Text
    round drawn = conflicts (random_cidr drawn) existing >>= answer drawn

    of_hit :
        (drawn : PrivateRange × ℕ)
        → pick i ≡ ok drawn
        → (hit : Bool) → conflicts (random_cidr drawn) existing ≡ ok hit
        → (try_random left pick existing (i + 1) ≡ ok t → Generated pick existing (i + 1) left t)
        → answer drawn hit ≡ ok t
        → Generated pick existing i (suc left) t
    of_hit drawn p true e later k =
        let g = later k in
        record {
          round = g.round;
          early = omega (arith, g.early);
          drawn = g.drawn;
          picked = g.picked;
          text = g.text;
          free = g.free;
        }
    of_hit drawn p false e later k =
        let same = same_ok k in
        record {
          round = i;
          early = omega arith;
          drawn = drawn;
          picked = p;
          text = sym same;
          free = subst (λ x. conflicts x existing ≡ ok false) same e;
        }

-- Networks that share an address hold the one the other's own address.
shared_own :
    (m n : IpNet) (address : ℕ)
    → IsNetwork m
    → IsNetwork n
    → contains m address ≡ true
    → contains n address ≡ true
    → (contains m n.ip || contains n m.ip) ≡ true
shared_own m n address wm wn cm cn = elim (Bool-cases (leb m.ip n.ip)) [
  | inl le ↦ ground (
    arith,
    contains_of_range m n.ip (omega (arith, leb→le _ _ le, wm.canonical)) (
        omega (
          arith,
          wm.canonical,
          wn.canonical,
          range_of_contains m address cm,
          range_of_contains n address cn,
        )),
  )
  | inr gt ↦ ground (
    arith,
    contains_of_range n m.ip (omega (arith, leb→lt _ _ gt, wn.canonical)) (
        omega (
          arith,
          wm.canonical,
          wn.canonical,
          range_of_contains m address cm,
          range_of_contains n address cn,
        )),
  )
]

overlapping :
    (t e : Text) (both : Shares t e)
    → is_overlapping_cidr t e
      ≡ ok (contains both.e_net both.t_net.ip || contains both.t_net both.e_net.ip)
unfolding is_overlapping_cidr overlapping_nets
overlapping t e both = rw (both.e_parsed, both.t_parsed, is_overlapping_cidr) refl

-- A random network that is generated is one of the first hundred that are drawn without an error, and it shares no
-- address with any of the networks there are.
pub generate_random_service_cidr-apart :
    (pick : ℕ → Result (PrivateRange × ℕ)) (existing : List Text) (t : Text)
    → generate_random_service_cidr pick existing ≡ ok t
    → ((round : ℕ) × (drawn : PrivateRange × ℕ) × (round < 100)
        × (pick round ≡ ok drawn)
        × (t ≡ random_cidr drawn))
      × ((e : Text) → Elem e existing → ¬ Shares t e)
unfolding generate_random_service_cidr
generate_random_service_cidr-apart pick existing t h =
    let g = try_random-Generated 100 pick existing 0 t h in
    (
      (g.round, g.drawn, omega (arith, g.early), g.picked, g.text),
      λ e m both. clash e both (conflicts-free t existing e g.free m),
    )
  where
    clash : (e : Text) (both : Shares t e) → is_overlapping_cidr t e ≡ ok false → ⊥
    clash e both free =
        no
          (shared_own both.e_net both.t_net both.address (parse_cidr-IsNetwork t both.e_parsed)
            (parse_cidr-IsNetwork e both.t_parsed) both.in_e both.in_t)
          (ap (λ r. val_of r false) (sym (overlapping t e both) ∙ free))
      where
        no : {b : Bool} → b ≡ true → b ≡ false → ⊥
        no p q = cc
