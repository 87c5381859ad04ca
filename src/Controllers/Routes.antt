-- ===== src/Controllers/Routes.antt =====
-- configHostRoutingRules of pkg/controller/tunnels/intertunnel_controller.go.
use mathlib.Core.Logic.{inl, inr}
use fleetboard.Prelude.{
  sym, ◌∙◌, subst, panicked, refl, All, ◌≢◌, subst, sym, ◌∙◌, arith, Option-cases, ℕ, Bool, true,
  List, [], ◌∷◌, Option, none, some, if◌then◌else◌, invalid_text, external, Status, done, failed,
  ◌≡◌,
}
use fleetboard.Prelude.Text.{Text}
use fleetboard.Net.Addr.{IpNet}
use fleetboard.Net.Format.{parse_cidr}

-- known.RouteOperation
pub data RouteOperation : Type 0 where
  add remove : RouteOperation

-- What RouteAdd answers: os.IsExist tells the second from the third.
pub data RouteAnswer : Type 0 where
  added exists refused : RouteAnswer

-- What is called of netlink and of net.InterfaceByName, with what RouteAdd promises.
pub record Netlink : Type 1 where
  pub Table : Type 0
  -- The index of the device "wg0".
  pub device_index : Table → Option ℕ
  pub route_add : Table → ℕ → IpNet → Table × RouteAnswer
  pub route_del : Table → ℕ → IpNet → Table × Bool
  pub has_route : Table → IpNet → Bool
  pub added_has_route :
      (t : Table) (i : ℕ) (n : IpNet)
      → (route_add t i n).1 ≡ added
      → has_route (route_add t i n).0 n ≡ true
  pub exists_has_route :
      (t : Table) (i : ℕ) (n : IpNet)
      → (route_add t i n).1 ≡ exists
      → has_route (route_add t i n).0 n ≡ true
  pub route_add_keeps :
      (t : Table) (i : ℕ) (n m : IpNet)
      → has_route t m ≡ true
      → has_route (route_add t i n).0 m ≡ true

module _ (netlink : Netlink) where
  open netlink use {Table, device_index, route_add, route_del, has_route}

  -- One round of the loop: the route exists afterwards if it did before.
  unfoldable pub change_route : Table → ℕ → RouteOperation → IpNet → Table × Status
  change_route t i add n =
      let (t', answer) = route_add t i n in
      (t', elim answer [ added ↦ done | exists ↦ done | refused ↦ failed external ])
  change_route t i remove n =
      let (t', removed) = route_del t i n in (t', if removed then done else failed external)

  -- Goes on with the table unless there was an error.
  abbrev pub go_on : Table × Status → (Table → Table × Status) → Table × Status
  go_on (t, done) f = f t
  go_on (t, failed e) f = (t, failed e)
  go_on (t, panicked) f = (t, panicked)

  -- The loop over the texts, which stops at the first error.
  unfoldable pub change_routes : Table → ℕ → RouteOperation → List Text → Table × Status
  change_routes t i op [] = (t, done)
  change_routes t i op (cidr ∷ cidrs) = elim (parse_cidr cidr) [
    | none ↦ (t, failed invalid_text)
    | some (a, n) ↦ go_on (change_route t i op n) (λ t'. change_routes t' i op cidrs)
  ]

  -- configHostRoutingRules
  unfoldable pub config_host_routing_rules : Table → List Text → RouteOperation → Table × Status
  config_host_routing_rules t cidrs op = elim (device_index t) [
    | none ↦ (t, failed external)
    | some i ↦ change_routes t i op cidrs
  ]

  -- The text names a network that has a route.
  abbrev pub Routed : Table → Text → Type 0
  Routed t cidr = (a : ℕ) × (n : IpNet) × (parse_cidr cidr ≡ some (a, n)) × (has_route t n ≡ true)

  change_route_keeps :
      (t : Table) (i : ℕ) (n m : IpNet)
      → has_route t m ≡ true
      → has_route (change_route t i add n).0 m ≡ true
  unfolding change_route
  change_route_keeps t i n m h = netlink.route_add_keeps t i n m h

  go_on_keeps :
      (P : Table → Type 0) (r : Table × Status) (f : Table → Table × Status)
      → P r.0
      → (P r.0 → P (f r.0).0)
      → P (go_on r f).0
  go_on_keeps P (t, done) f p k = k p
  go_on_keeps P (t, failed e) f p k = p
  go_on_keeps P (t, panicked) f p k = p

  go_on-done :
      (r : Table × Status) (f : Table → Table × Status)
      → (go_on r f).1 ≡ done
      → (r.1 ≡ done) × (go_on r f ≡ f r.0)
  go_on-done (t, done) f h = (refl, refl)
  go_on-done (t, failed e) f h = cc
  go_on-done (t, panicked) f h = cc

  change_routes_keeps :
      (t : Table) (i : ℕ) (cidrs : List Text) (m : IpNet)
      → has_route t m ≡ true
      → has_route (change_routes t i add cidrs).0 m ≡ true
  unfolding change_routes
  change_routes_keeps t i [] m h = h
  change_routes_keeps t i (cidr ∷ cidrs) m h = elim (Option-cases (parse_cidr cidr)) [
    | inl e ↦ rw (e, change_routes) h
    | inr ((a, n), e) ↦
        rw (e, change_routes)
          (go_on_keeps (λ u. has_route u m ≡ true) (change_route t i add n)
            (λ u. change_routes u i add cidrs) (change_route_keeps t i n m h)
            (change_routes_keeps (change_route t i add n).0 i cidrs m))
  ]

  change_route-done :
      (t : Table) (i : ℕ) (n : IpNet)
      → (change_route t i add n).1 ≡ done
      → has_route (change_route t i add n).0 n ≡ true
  unfolding change_route
  change_route-done t i n h = answered (route_add t i n).1 refl h
    where
      answered :
          (r : RouteAnswer)
          → (route_add t i n).1 ≡ r
          → elim r [ added ↦ done | exists ↦ done | refused ↦ failed external ] ≡ done
          → has_route (route_add t i n).0 n ≡ true
      answered added e _ = netlink.added_has_route t i n e
      answered exists e _ = netlink.exists_has_route t i n e
      answered refused e k = cc

  step_eq :
      (t : Table) (i : ℕ) (cidr : Text) (cidrs : List Text) {a : ℕ} {n : IpNet}
      → parse_cidr cidr ≡ some (a, n)
      → change_routes t i add (cidr ∷ cidrs)
        ≡ go_on (change_route t i add n) (λ u. change_routes u i add cidrs)
  unfolding change_routes
  step_eq t i cidr cidrs e = rw (e, change_routes) refl

  invalid_step :
      (t : Table) (i : ℕ) (cidr : Text) (cidrs : List Text)
      → parse_cidr cidr ≡ none
      → (change_routes t i add (cidr ∷ cidrs)).1 ≢ done
  unfolding change_routes
  invalid_step t i cidr cidrs e h = ground arith

  change_routes-Routed :
      (t : Table) (i : ℕ) (cidrs : List Text)
      → (change_routes t i add cidrs).1 ≡ done
      → All (Routed (change_routes t i add cidrs).0) cidrs
  change_routes-Routed t i [] h = tt
  change_routes-Routed t i (cidr ∷ cidrs) h = elim (Option-cases (parse_cidr cidr)) [
    | inl e ↦ absurd (invalid_step t i cidr cidrs e h)
    | inr ((a, n), e) ↦
        let E = step_eq t i cidr cidrs e in
        let r = change_route t i add n in
        let (first, goes) =
          go_on-done r (λ u. change_routes u i add cidrs) (subst (λ q. q.1 ≡ done) E h) in
        let whole = E ∙ goes in
        subst (λ q. All (Routed q.0) (cidr ∷ cidrs)) (sym whole)
          (
            (a, n, e, change_routes_keeps r.0 i cidrs n (change_route-done t i n first)),
            change_routes-Routed r.0 i cidrs (subst (λ q. q.1 ≡ done) whole h),
          )
  ]

  no_device :
      (t : Table) (cidrs : List Text)
      → device_index t ≡ none
      → (config_host_routing_rules t cidrs add).1 ≢ done
  unfolding config_host_routing_rules
  no_device t cidrs e h = ground arith

  device_eq :
      (t : Table) (i : ℕ) (cidrs : List Text)
      → device_index t ≡ some i
      → config_host_routing_rules t cidrs add ≡ change_routes t i add cidrs
  unfolding config_host_routing_rules
  device_eq t i cidrs e = rw (e, config_host_routing_rules) refl

  -- When configHostRoutingRules adds the texts without an error, every one of them is the text of a
  -- network that has a route afterwards.
  pub config_host_routing_rules-Routed :
      (t : Table) (cidrs : List Text)
      → (config_host_routing_rules t cidrs add).1 ≡ done
      → All (Routed (config_host_routing_rules t cidrs add).0) cidrs
  config_host_routing_rules-Routed t cidrs h = elim (Option-cases (device_index t)) [
    | inl e ↦ absurd (no_device t cidrs e h)
    | inr (i, e) ↦
        let E = device_eq t i cidrs e in
        subst (λ q. All (Routed q.0) cidrs) (sym E)
          (change_routes-Routed t i cidrs (subst (λ q. q.1 ≡ done) E h))
  ]
