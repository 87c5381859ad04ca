-- ===== src/Controllers/Inter/Connected.antt =====
-- Handle of pkg/controller/tunnels/intertunnel_controller.go on the hub: what holds after a call that
-- reports success, what a later call does with a CIDR that an earlier one allocated, and recycling.
use fleetboard.Prelude.{◌∙◌, subst, sym, ap, refl, All, ◌≡◌, some, true, false, [], ◌∷◌, ok, is_nil}
use fleetboard.Prelude.Text.{Text, text_eq}
use fleetboard.Controllers.Routes.{Routed, config_host_routing_rules-Routed, Netlink}
use fleetboard.Tunnel.Tracking.{Tracks, SameKey, add_inter_cluster_tunnel-Tracks}
use fleetboard.Controllers.Inter.{
  settled, add_inter_cluster_tunnel, PeerApi, Peer, PodApi, Wgctrl, connect_peer, handle_live,
  handle, get_peer, lacks_cidr, existing_cidrs, find_tunnel_available_cidr, allocate, with_pod_cidr,
  cached,
}
use fleetboard.Controllers.Inter.Parts.{
  State, after_add-settled, connect_peer-SameCache, connect_peer_server, get_peer-write_pod_cidr,
}

module _ (wgctrl : Wgctrl) (netlink : Netlink) (pods : PodApi) (hub : PeerApi) where
  -- A peer with a CIDR, on the hub.
  handle-connect_peer :
      (s : State wgctrl netlink pods hub) (namespace name : Text) (p : Peer)
      → s.spec.as_cluster ≡ false
      → get_peer namespace name s.cache ≡ some p
      → p.deleting ≡ false
      → lacks_cidr p.spec.pod_cidr ≡ false
      → handle wgctrl netlink pods hub s namespace name
        ≡ connect_peer wgctrl netlink pods hub s p false
  unfolding handle handle_live
  handle-connect_peer s namespace name p h found live e =
      rw (found, live, h, e, handle, handle_live) refl

  connect_peer-connected :
      (s : State wgctrl netlink pods hub) (p : Peer) (k : Wgctrl.Key wgctrl)
      → text_eq s.tunnel.spec.cluster_id p.spec.cluster_id ≡ false
      → Wgctrl.parse_key wgctrl p.spec.public_key ≡ some k
      → ¬ SameKey wgctrl s.tunnel p k
      → (connect_peer wgctrl netlink pods hub s p false).1 ≡ settled
      → Tracks wgctrl s.tunnel (connect_peer wgctrl netlink pods hub s p false).0.tunnel p k
        × All
            (Routed netlink (connect_peer wgctrl netlink pods hub s p false).0.table)
            p.spec.pod_cidr
  unfolding connect_peer
  connect_peer-connected s p k other parsed fresh h =
      let r = add_inter_cluster_tunnel wgctrl s.tunnel p in
      let e = after_add-settled wgctrl netlink pods hub (record s { tunnel = r.0 }) p false r.1 h in
      (
        subst (λ w. Tracks wgctrl s.tunnel w p k) (sym e.tunnel)
            (add_inter_cluster_tunnel-Tracks wgctrl s.tunnel p k other parsed fresh e.added),
        subst (λ t. All (Routed netlink t) p.spec.pod_cidr) (sym e.table)
            (config_host_routing_rules-Routed netlink s.table p.spec.pod_cidr e.routed),
      )

  -- On the hub, when Handle reports success for a cached peer of another cluster that is not being
  -- deleted, that has a CIDR, and that is not connected yet under the same key, then the connection to
  -- the peer is in the map, and every text of its CIDRs is the text of a network that has a route.
  -- Under its key the device has a keepalive of ten seconds, its endpoint if that can be read, and as
  -- allowed networks exactly those of which a text of its CIDRs is the text. If its endpoint cannot be
  -- read and there was no connection to its cluster, the endpoint that the device had stays.
  pub handle-connected :
      (s : State wgctrl netlink pods hub) (namespace name : Text) (p : Peer) (k : Wgctrl.Key wgctrl)
      → s.spec.as_cluster ≡ false
      → get_peer namespace name s.cache ≡ some p
      → p.deleting ≡ false
      → lacks_cidr p.spec.pod_cidr ≡ false
      → text_eq s.tunnel.spec.cluster_id p.spec.cluster_id ≡ false
      → Wgctrl.parse_key wgctrl p.spec.public_key ≡ some k
      → ¬ SameKey wgctrl s.tunnel p k
      → (handle wgctrl netlink pods hub s namespace name).1 ≡ settled
      → Tracks wgctrl s.tunnel (handle wgctrl netlink pods hub s namespace name).0.tunnel p k
        × All
            (Routed netlink (handle wgctrl netlink pods hub s namespace name).0.table)
            p.spec.pod_cidr
  handle-connected s namespace name p k h found live e other parsed fresh ended =
      let E = handle-connect_peer s namespace name p h found live e in
      subst
        (λ r.
          Tracks wgctrl s.tunnel r.0.tunnel p k × All (Routed netlink r.0.table) p.spec.pod_cidr)
        (sym E)
        (connect_peer-connected s p k other parsed fresh (subst (λ r. r.1 ≡ settled) E ended))

  module _ (s : State wgctrl netlink pods hub) (namespace name : Text) (p : Peer)
      (cidr : Text) where
    handle-handle_live :
        get_peer namespace name s.cache ≡ some p
        → p.deleting ≡ false
        → handle wgctrl netlink pods hub s namespace name ≡ handle_live wgctrl netlink pods hub s p
    unfolding handle
    handle-handle_live found live = simp (found, live, handle)

    handle_live-allocate :
        s.spec.as_cluster ≡ false
        → lacks_cidr p.spec.pod_cidr ≡ true
        → handle_live wgctrl netlink pods hub s p
          ≡ allocate wgctrl netlink pods hub s p
              (find_tunnel_available_cidr s.spec.cidr (existing_cidrs p.namespace s.cache))
    unfolding handle_live
    handle_live-allocate h lacks = simp (h, lacks, handle_live)

    allocate-ok :
        allocate wgctrl netlink pods hub s p (ok cidr)
        ≡ connect_peer wgctrl netlink pods hub
            (cached wgctrl netlink pods hub s p (cidr ∷ []))
            (with_pod_cidr p (cidr ∷ []))
            true
    unfolding allocate
    allocate-ok = refl

    handle-allocate :
        s.spec.as_cluster ≡ false
        → get_peer namespace name s.cache ≡ some p
        → p.deleting ≡ false
        → lacks_cidr p.spec.pod_cidr ≡ true
        → find_tunnel_available_cidr s.spec.cidr (existing_cidrs p.namespace s.cache) ≡ ok cidr
        → handle wgctrl netlink pods hub s namespace name
          ≡ connect_peer wgctrl netlink pods hub
              (cached wgctrl netlink pods hub s p (cidr ∷ []))
              (with_pod_cidr p (cidr ∷ []))
              true
    handle-allocate h found live lacks e =
        handle-handle_live found live
        ∙ handle_live-allocate h lacks
        ∙ ap (allocate wgctrl netlink pods hub s p) e
        ∙ allocate-ok

    -- On the hub, when Handle allocates a CIDR for a cached peer that is not being deleted and has
    -- none, then a second call for the same peer leaves the peer resources of the hub as the first
    -- call left them, however the first call ended. So a CIDR that the first call did not write back,
    -- since the tunnel or a route failed, is not written back by the retry either.
    pub handle_write_back_once :
        s.spec.as_cluster ≡ false
        → get_peer namespace name s.cache ≡ some p
        → p.deleting ≡ false
        → lacks_cidr p.spec.pod_cidr ≡ true
        → find_tunnel_available_cidr s.spec.cidr (existing_cidrs p.namespace s.cache) ≡ ok cidr
        → is_nil cidr ≡ false
        → (handle wgctrl netlink pods hub
            (handle wgctrl netlink pods hub s namespace name).0
            namespace
            name).0.server
          ≡ (handle wgctrl netlink pods hub s namespace name).0.server
    handle_write_back_once h found live lacks e filled =
        let q = with_pod_cidr p (cidr ∷ []) in
        let c = cached wgctrl netlink pods hub s p (cidr ∷ []) in
        let v = connect_peer wgctrl netlink pods hub c q true in
        let same = connect_peer-SameCache wgctrl netlink pods hub c q true in
        subst (λ r. (handle wgctrl netlink pods hub r.0 namespace name).0.server ≡ r.0.server)
          (sym (handle-allocate h found live lacks e))
          (subst (λ r. r.0.server ≡ v.0.server)
            (sym (
              handle-connect_peer v.0 namespace name q
                (subst (λ o. o.as_cluster ≡ false) (sym same.spec) h)
                (subst (λ l. get_peer namespace name l ≡ some q) (sym same.cache)
                  (get_peer-write_pod_cidr namespace name (cidr ∷ []) s.cache p found))
                live filled))
            (connect_peer_server wgctrl netlink pods hub v.0 q))
