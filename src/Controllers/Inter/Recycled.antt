-- ===== src/Controllers/Inter/Recycled.antt =====
-- RecyclePeer of pkg/controller/tunnels/intertunnel_controller.go: what is left of a peer that it took
-- down.
use fleetboard.Prelude.{
  ap, ◌∙◌, subst, sym, refl, ◌≡◌, some, none, false, List, done, failed, panicked, Status, arith,
}
use fleetboard.Prelude.Text.{Text, text_eq}
use fleetboard.Prelude.Dict.{lookup}
use fleetboard.Tunnel.Connect.{Wireguard, configure_device, remove_tunnel}
use fleetboard.Tunnel.Device.{Wgctrl}
use fleetboard.Controllers.Routes.{Netlink, remove}
use fleetboard.Tunnel.Tracking.{SameKey, add_inter_cluster_tunnel-SameKey}
use fleetboard.Controllers.Inter.{
  settled, route, after_route, after_remove, add_inter_cluster_tunnel, PeerApi, Peer, PodApi,
  recycle_peer,
}
use fleetboard.Controllers.Inter.Parts.{State}

module _ (wgctrl : Wgctrl) where
  remove_tunnel-done :
      (w : Wireguard wgctrl) (k : Wgctrl.Key wgctrl)
      → (remove_tunnel wgctrl w k).1 ≡ done
      → Wgctrl.peer wgctrl (remove_tunnel wgctrl w k).0.device k ≡ none
  unfolding remove_tunnel configure_device
  remove_tunnel-done w k h = wgctrl.removed w.device k (ground arith)

  -- Removing a peer from the device leaves the map of connections as it is.
  remove_tunnel-SameKey :
      (w : Wireguard wgctrl) (j : Wgctrl.Key wgctrl) (p : Peer) (k : Wgctrl.Key wgctrl)
      → SameKey wgctrl w p k
      → SameKey wgctrl (remove_tunnel wgctrl w j).0 p k
  unfolding remove_tunnel configure_device
  remove_tunnel-SameKey w j p k same = record {
    old = same.old;
    old_key = same.old_key;
    found = same.found;
    parsed = same.parsed;
    same = same.same;
  }

  -- Another resource of the same cluster with the same key finds the same connection.
  SameKey-moved :
      (w : Wireguard wgctrl) (p q : Peer) (k j : Wgctrl.Key wgctrl)
      → q.spec.cluster_id ≡ p.spec.cluster_id
      → Wgctrl.key_text wgctrl k ≡ Wgctrl.key_text wgctrl j
      → SameKey wgctrl w p k
      → SameKey wgctrl w q j
  SameKey-moved w p q k j cluster key same = record {
    old = same.old;
    old_key = same.old_key;
    found = ap (λ c. lookup c w.inter) cluster ∙ same.found;
    parsed = same.parsed;
    same = same.same ∙ key;
  }

  remove_tunnel_spec :
      (w : Wireguard wgctrl) (j : Wgctrl.Key wgctrl) → (remove_tunnel wgctrl w j).0.spec ≡ w.spec
  unfolding remove_tunnel configure_device
  remove_tunnel_spec w j = refl

module _ (wgctrl : Wgctrl) (netlink : Netlink) (pods : PodApi) (hub : PeerApi) where
  after_route_tunnel :
      (r : State wgctrl netlink pods hub × Status)
      → (after_route wgctrl netlink pods hub r).0.tunnel ≡ r.0.tunnel
  after_route_tunnel (v, done) = refl
  after_route_tunnel (v, failed e) = refl
  after_route_tunnel (v, panicked) = refl

  after_remove-settled :
      (v : State wgctrl netlink pods hub) (cidrs : List Text) (st : Status)
      → (after_remove wgctrl netlink pods hub v cidrs st).1 ≡ settled
      → (st ≡ done) × ((after_remove wgctrl netlink pods hub v cidrs st).0.tunnel ≡ v.tunnel)
  unfolding route
  after_remove-settled v cidrs done h =
      (refl, after_route_tunnel (route wgctrl netlink pods hub v cidrs remove))
  after_remove-settled v cidrs (failed e) h = cc
  after_remove-settled v cidrs panicked h = cc

  module _ (s : State wgctrl netlink pods hub) (p : Peer) (k : Wgctrl.Key wgctrl)
      (parsed : Wgctrl.parse_key wgctrl p.spec.public_key ≡ some k) where
    recycle_peer-settled :
        (recycle_peer wgctrl netlink pods hub s (some p)).1 ≡ settled
        → ((remove_tunnel wgctrl s.tunnel k).1 ≡ done)
          × ((recycle_peer wgctrl netlink pods hub s (some p)).0.tunnel
              ≡ (remove_tunnel wgctrl s.tunnel k).0)
    unfolding recycle_peer
    recycle_peer-settled h =
        let r = remove_tunnel wgctrl s.tunnel k in
        let e = recycle_eq in
        let (first, kept) =
          after_remove-settled (record s { tunnel = r.0 }) p.spec.pod_cidr r.1
            (subst (λ q. q.1 ≡ settled) e h) in
        (first, subst (λ q. q.0.tunnel ≡ r.0) (sym e) kept)
      where
        recycle_eq :
            recycle_peer wgctrl netlink pods hub s (some p)
            ≡ after_remove wgctrl netlink pods hub
                (record s { tunnel = (remove_tunnel wgctrl s.tunnel k).0 })
                p.spec.pod_cidr
                (remove_tunnel wgctrl s.tunnel k).1
        recycle_eq = simp (parsed, recycle_peer)

    -- When RecyclePeer reports success for a connected peer of another cluster, the device has no
    -- peer under its key any more, and AddInterClusterTunnel for any resource of the same cluster and
    -- with the same key, whatever its name, endpoint and CIDRs, reports success and changes nothing:
    -- the connection of the old resource is still in the map.
    pub recycle_peer_readd :
        text_eq s.tunnel.spec.cluster_id p.spec.cluster_id ≡ false
        → SameKey wgctrl s.tunnel p k
        → (recycle_peer wgctrl netlink pods hub s (some p)).1 ≡ settled
        → (q : Peer) (j : Wgctrl.Key wgctrl) → q.spec.cluster_id ≡ p.spec.cluster_id
        → Wgctrl.parse_key wgctrl q.spec.public_key ≡ some j
        → Wgctrl.key_text wgctrl k ≡ Wgctrl.key_text wgctrl j
        → (Wgctrl.peer wgctrl (recycle_peer wgctrl netlink pods hub s (some p)).0.tunnel.device k
            ≡ none)
          × (add_inter_cluster_tunnel wgctrl
                (recycle_peer wgctrl netlink pods hub s (some p)).0.tunnel
                q
              ≡ ((recycle_peer wgctrl netlink pods hub s (some p)).0.tunnel, done))
    recycle_peer_readd other same h q j cluster reads key =
        let w = (remove_tunnel wgctrl s.tunnel k).0 in
        let (first, e) = recycle_peer-settled h in
        subst
          (λ v.
            (Wgctrl.peer wgctrl v.device k ≡ none)
            × (add_inter_cluster_tunnel wgctrl v q ≡ (v, done)))
          (sym e)
          (
            remove_tunnel-done wgctrl s.tunnel k first,
            add_inter_cluster_tunnel-SameKey wgctrl w q j
                (subst (λ o. text_eq o.cluster_id q.spec.cluster_id ≡ false)
                  (sym (remove_tunnel_spec wgctrl s.tunnel k))
                  (subst (λ c. text_eq s.tunnel.spec.cluster_id c ≡ false) (sym cluster) other))
                reads
                (SameKey-moved wgctrl w p q k j cluster key
                  (remove_tunnel-SameKey wgctrl s.tunnel k p k same)),
          )
