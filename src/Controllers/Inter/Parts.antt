-- ===== src/Controllers/Inter/Parts.antt =====
-- Lemmas on the parts of the handler in pkg/controller/tunnels/intertunnel_controller.go: what the
-- last part leaves alone, and the cache of peers.
use fleetboard.Prelude.{
  ◌∷◌, [], List, Bool, true, false, ◌≡◌, refl, some, Status, done, failed, panicked, arith,
}
use fleetboard.Controllers.Routes.{Netlink, RouteOperation, add, config_host_routing_rules}
use fleetboard.Prelude.Text.{text_eq_iff}
use fleetboard.Prelude.{subst, sym}
use fleetboard.Controllers.Inter.{
  add_inter_cluster_tunnel, PeerApi, Peer, PodApi, Text, Wgctrl, Inter, settled, route, after_add,
  connect_peer, write_back, get_peer, write_pod_cidr, with_pod_cidr, is_peer, after_add_route,
}

module _ (wgctrl : Wgctrl) (netlink : Netlink) (pods : PodApi) (hub : PeerApi) where
  abbrev pub State : Type 0
  State = Inter wgctrl netlink pods hub

  -- The cache and the options are those of `s`.
  pub record SameCache (s v : State) : Type 0 where
    pub cache : v.cache ≡ s.cache
    pub spec : v.spec ≡ s.spec

  route-SameCache :
      (s : State) (cidrs : List Text) (op : RouteOperation)
      → SameCache s (route wgctrl netlink pods hub s cidrs op).0
  unfolding route
  route-SameCache s cidrs op = record { cache = refl; spec = refl }

  write_back-SameCache :
      (s v : State) (p : Peer) (b : Bool)
      → SameCache s v
      → SameCache s (write_back wgctrl netlink pods hub v p b).0
  unfolding write_back
  write_back-SameCache s v p false same = same
  write_back-SameCache s v p true same = record { cache = same.cache; spec = same.spec }

  after_add_route-SameCache :
      (s : State) (p : Peer) (b : Bool) (r : State × Status)
      → SameCache s r.0
      → SameCache s (after_add_route wgctrl netlink pods hub p b r).0
  after_add_route-SameCache s p b (v, done) same = write_back-SameCache s v p b same
  after_add_route-SameCache s p b (v, failed e) same = same
  after_add_route-SameCache s p b (v, panicked) same = same

  after_add-SameCache :
      (s v : State) (p : Peer) (b : Bool) (st : Status)
      → SameCache s v
      → SameCache s (after_add wgctrl netlink pods hub v p b st).0
  unfolding route
  after_add-SameCache s v p b done same =
      after_add_route-SameCache s p b (route wgctrl netlink pods hub v p.spec.pod_cidr add)
        (record { cache = same.cache; spec = same.spec })
  after_add-SameCache s v p b (failed e) same = same
  after_add-SameCache s v p b panicked same = same

  pub connect_peer-SameCache :
      (s : State) (p : Peer) (b : Bool) → SameCache s (connect_peer wgctrl netlink pods hub s p b).0
  unfolding connect_peer
  connect_peer-SameCache s p b =
      after_add-SameCache s (record s { tunnel = (add_inter_cluster_tunnel wgctrl s.tunnel p).0 }) p
        b (add_inter_cluster_tunnel wgctrl s.tunnel p).1 (record { cache = refl; spec = refl })

  after_add_server :
      (v : State) (p : Peer) (st : Status)
      → (after_add wgctrl netlink pods hub v p false st).0.server ≡ v.server
  unfolding route write_back
  after_add_server v p done =
      after_route_server (route wgctrl netlink pods hub v p.spec.pod_cidr add) refl
    where
      after_route_server :
          (r : State × Status)
          → r.0.server ≡ v.server
          → (after_add_route wgctrl netlink pods hub p false r).0.server ≡ v.server
      after_route_server (u, done) h = h
      after_route_server (u, failed e) h = h
      after_route_server (u, panicked) h = h
  after_add_server v p (failed e) = refl
  after_add_server v p panicked = refl

  -- A peer that had a CIDR is not written to the hub.
  pub connect_peer_server :
      (s : State) (p : Peer) → (connect_peer wgctrl netlink pods hub s p false).0.server ≡ s.server
  unfolding connect_peer
  connect_peer_server s p =
      after_add_server (record s { tunnel = (add_inter_cluster_tunnel wgctrl s.tunnel p).0 }) p
        (add_inter_cluster_tunnel wgctrl s.tunnel p).1

  -- What a settled end says of the parts.
  pub record Settled (v u : State) (p : Peer) (st : Status) : Type 0 where
    pub added : st ≡ done
    pub routed : (config_host_routing_rules netlink v.table p.spec.pod_cidr add).1 ≡ done
    pub tunnel : u.tunnel ≡ v.tunnel
    pub table : u.table ≡ (config_host_routing_rules netlink v.table p.spec.pod_cidr add).0

  write_back_kept :
      (v : State) (p : Peer) (b : Bool)
      → ((write_back wgctrl netlink pods hub v p b).0.tunnel ≡ v.tunnel)
        × ((write_back wgctrl netlink pods hub v p b).0.table ≡ v.table)
  unfolding write_back
  write_back_kept v p false = (refl, refl)
  write_back_kept v p true = (refl, refl)

  after_add_route-settled :
      (p : Peer) (b : Bool) (r : State × Status)
      → (after_add_route wgctrl netlink pods hub p b r).1 ≡ settled
      → (r.1 ≡ done)
        × ((after_add_route wgctrl netlink pods hub p b r).0.tunnel ≡ r.0.tunnel)
        × ((after_add_route wgctrl netlink pods hub p b r).0.table ≡ r.0.table)
  after_add_route-settled p b (v, done) h =
      (refl, (write_back_kept v p b).0, (write_back_kept v p b).1)
  after_add_route-settled p b (v, failed e) h = cc
  after_add_route-settled p b (v, panicked) h = cc

  pub after_add-settled :
      (v : State) (p : Peer) (b : Bool) (st : Status)
      → (after_add wgctrl netlink pods hub v p b st).1 ≡ settled
      → Settled v (after_add wgctrl netlink pods hub v p b st).0 p st
  unfolding route
  after_add-settled v p b done h =
      let (routed, tunnel, table) =
        after_add_route-settled p b (route wgctrl netlink pods hub v p.spec.pod_cidr add) h in
      record { added = refl; routed = routed; tunnel = tunnel; table = table }
  after_add-settled v p b (failed e) h = cc
  after_add-settled v p b panicked h = cc

is_peer_iff :
    (namespace name : Text) (p : Peer)
    → is_peer namespace name p ≡ true
    → (p.namespace ≡ namespace) × (p.name ≡ name)
is_peer_iff namespace name p h =
    ((text_eq_iff _ _).0 (ground arith), (text_eq_iff _ _).0 (ground arith))

get_peer-is_peer :
    (namespace name : Text) (cache : List Peer) (p : Peer)
    → get_peer namespace name cache ≡ some p
    → is_peer namespace name p ≡ true
unfolding get_peer
get_peer-is_peer namespace name [] p h = cc
get_peer-is_peer namespace name (q ∷ cache) p h =
    ground (arith, get_peer-is_peer namespace name cache p)

get_peer-written :
    (namespace name : Text) (cidrs : List Text) (cache : List Peer) (p : Peer)
    → get_peer namespace name cache ≡ some p
    → get_peer namespace name (write_pod_cidr namespace name cidrs cache)
      ≡ some (with_pod_cidr p cidrs)
unfolding get_peer write_pod_cidr
get_peer-written namespace name cidrs [] p h = cc
get_peer-written namespace name cidrs (q ∷ cache) p h =
    ground (arith, get_peer-written namespace name cidrs cache p)

-- Reading a peer that was written to.
pub get_peer-write_pod_cidr :
    (namespace name : Text) (cidrs : List Text) (cache : List Peer) (p : Peer)
    → get_peer namespace name cache ≡ some p
    → get_peer namespace name (write_pod_cidr p.namespace p.name cidrs cache)
      ≡ some (with_pod_cidr p cidrs)
get_peer-write_pod_cidr namespace name cidrs cache p h =
    let (e, f) = is_peer_iff namespace name p (get_peer-is_peer namespace name cache p h) in
    subst
      (λ a.
        get_peer namespace name (write_pod_cidr a p.name cidrs cache)
        ≡ some (with_pod_cidr p cidrs))
      (sym e)
      (subst
        (λ a.
          get_peer namespace name (write_pod_cidr namespace a cidrs cache)
          ≡ some (with_pod_cidr p cidrs))
        (sym f) (get_peer-written namespace name cidrs cache p h))
