-- ===== src/Tunnel/Tracking.antt =====
-- What the map of connections says of the device.
use fleetboard.Prelude.{
  ◌∙◌, ◌↔◌, Elem, ℕ, ◌≡◌, ◌≢◌, refl, sym, ap, subst, ◌⊎◌, inl, inr, false, Option, none, some,
  Status, done, arith, Option-cases, Bool-cases,
}
use fleetboard.Prelude.Text.{Text, text_eq, text_eq_iff}
use fleetboard.Prelude.Dict.{lookup, delete, lookup-insert, lookup-insert_self, lookup-delete}
use fleetboard.Tunnel.Types.{Peer}
use fleetboard.Net.Addr.{IpNet}
use fleetboard.Net.Format.{parse_ip}
use fleetboard.Tunnel.Subnets.{Listed, parse_subnets-Listed}
use fleetboard.Tunnel.Device.{Wgctrl, PeerConfig, endpoint_before, endpoint_after}
use fleetboard.Tunnel.Connect.{
  Wireguard, configure_device, remove_tunnel, inter_config, create_inter, replace_inter,
  add_inter_cluster_tunnel,
}

module _ (wgctrl : Wgctrl) where
  open wgctrl use {Key, parse_key, key_text, configure, peer, configured}

  -- Of the call that makes `v` of `w`: the peer is in the map, and the device has its endpoint and its
  -- allowed networks under its key. An endpoint that cannot be read leaves the one that the device
  -- had, if there was no connection to the cluster.
  pub record Tracks (w v : Wireguard wgctrl) (p : Peer) (k : Key) : Type 0 where
    pub tracked : lookup p.spec.cluster_id v.inter ≡ some p
    pub config : PeerConfig
    pub device : peer v.device k ≡ some config
    pub keepalive : config.keepalive ≡ 10
    pub endpoint :
        (a : ℕ) → parse_ip p.spec.endpoint ≡ some a → config.endpoint ≡ some (a, p.spec.port)
    pub unread :
        parse_ip p.spec.endpoint ≡ none
        → lookup p.spec.cluster_id w.inter ≡ none
        → config.endpoint ≡ endpoint_before (peer w.device k)
    pub allowed : (n : IpNet) → Elem n config.allowed ↔ Listed p.spec.pod_cidr n

  -- The connection to the peer's cluster is there under the same key.
  pub record SameKey (w : Wireguard wgctrl) (p : Peer) (k : Key) : Type 0 where
    pub old : Peer
    pub old_key : Key
    pub found : lookup p.spec.cluster_id w.inter ≡ some old
    pub parsed : parse_key old.spec.public_key ≡ some old_key
    pub same : key_text old_key ≡ key_text k

  -- A peer that is there under the same key is not touched, nor is the device.
  pub add_inter_cluster_tunnel-SameKey :
      (w : Wireguard wgctrl) (p : Peer) (k : Key)
      → text_eq w.spec.cluster_id p.spec.cluster_id ≡ false
      → parse_key p.spec.public_key ≡ some k
      → SameKey w p k
      → add_inter_cluster_tunnel wgctrl w p ≡ (w, done)
  unfolding add_inter_cluster_tunnel replace_inter
  add_inter_cluster_tunnel-SameKey w p k other parsed s =
      rw (other, parsed, s.found, add_inter_cluster_tunnel)
        (rw (s.parsed, (text_eq_iff _ _).1 s.same, replace_inter) refl)

  -- Nothing but the connection to the peer's cluster and the device differs.
  pub record Kept (w v : Wireguard wgctrl) (p : Peer) : Type 0 where
    pub spec : v.spec ≡ w.spec
    pub inner : v.inner ≡ w.inner
    pub others :
        (c : Text) → text_eq p.spec.cluster_id c ≡ false → lookup c v.inter ≡ lookup c w.inter

  module _ (w : Wireguard wgctrl) (p : Peer) (k : Key) where
    dropped : Wireguard wgctrl → Wireguard wgctrl
    dropped v = record v { inter = delete p.spec.cluster_id v.inter }

    dropped-Kept : (v : Wireguard wgctrl) → Kept w v p → Kept w (dropped v) p
    unfolding dropped
    dropped-Kept v kept = record {
      spec = kept.spec;
      inner = kept.inner;
      others = λ c h. rw (lookup-delete p.spec.cluster_id c v.inter, h) (kept.others c h);
    }

    same-Kept : Kept w w p
    same-Kept = record { spec = refl; inner = refl; others = λ c h. refl }

    removed-Kept : (j : Key) → Kept w (remove_tunnel wgctrl w j).0 p
    unfolding remove_tunnel
    removed-Kept j = record { spec = refl; inner = refl; others = λ c h. refl }

    none-some : {x : Peer} → ◌≡◌ {A = Option Peer} none (some x) → ⊥
    none-some e = cc

    -- The device is touched before only if there was a connection.
    abbrev SameDevice : Wireguard wgctrl → Type 0
    SameDevice v = lookup p.spec.cluster_id w.inter ≡ none → v.device ≡ w.device

    -- A call either finds the connection there, or creates it anew.
    abbrev Outcome : Wireguard wgctrl × Status → Type 0
    Outcome r =
        (SameKey w p k × (r ≡ (w, done)))
        ⊎ ((v : Wireguard wgctrl) × Kept w v p × SameDevice v × (r ≡ create_inter wgctrl v p k))

    replace_inter-Outcome :
        (o : Option Peer)
        → lookup p.spec.cluster_id w.inter ≡ o
        → Outcome (replace_inter wgctrl w p k o)
    unfolding replace_inter dropped
    replace_inter-Outcome none e = inr (w, same-Kept, (λ n. refl), refl)
    replace_inter-Outcome (some old) e = elim (Option-cases (parse_key old.spec.public_key)) [
      | inl n ↦ inr (dropped w, dropped-Kept w same-Kept, (λ n. refl), rw (n, replace_inter) refl)
      | inr (j, s) ↦ elim (Bool-cases (text_eq (key_text j) (key_text k))) [
        | inl same ↦ inl (
          record { old = old; old_key = j; found = e; parsed = s; same = (text_eq_iff _ _).0 same },
          rw (s, same, replace_inter) refl,
        )
        | inr other ↦
            let v = (remove_tunnel wgctrl w j).0 in
            inr (
              dropped v,
              dropped-Kept v (removed-Kept j),
              (λ n. absurd (none-some (sym n ∙ e))),
              rw (s, other, replace_inter) refl,
            )
      ]
    ]

    create_inter-Tracks :
        (v : Wireguard wgctrl)
        → SameDevice v
        → (create_inter wgctrl v p k).1 ≡ done
        → Tracks w (create_inter wgctrl v p k).0 p k
    unfolding create_inter configure_device inter_config
    create_inter-Tracks v before h =
        let (q, at, c) = configured v.device k (inter_config wgctrl p) (ground arith) in
        record {
          tracked = lookup-insert_self p.spec.cluster_id p v.inter;
          config = q;
          device = at;
          keepalive = c.keepalive;
          endpoint = λ a e.
              c.endpoint
              ∙ ap
                  (λ o.
                    endpoint_after (peer v.device k)
                      (elim o [ none ↦ none | some x ↦ some (x, p.spec.port) ]))
                  e;
          unread = λ e n.
              c.endpoint
              ∙ ap
                  (λ o.
                    endpoint_after (peer v.device k)
                      (elim o [ none ↦ none | some x ↦ some (x, p.spec.port) ]))
                  e
              ∙ ap (λ d. endpoint_before (peer d k)) (before n);
          allowed = λ n. (
            λ m. (parse_subnets-Listed p.spec.pod_cidr n).0 ((c.allowed n).0 m),
            λ l. (c.allowed n).1 ((parse_subnets-Listed p.spec.pod_cidr n).1 l),
          );
        }

    create_inter_tracked :
        (v : Wireguard wgctrl)
        → lookup p.spec.cluster_id (create_inter wgctrl v p k).0.inter ≡ some p
    unfolding create_inter configure_device
    create_inter_tracked v = lookup-insert_self p.spec.cluster_id p v.inter

    create_inter-Kept : (v : Wireguard wgctrl) → Kept w v p → Kept w (create_inter wgctrl v p k).0 p
    unfolding create_inter configure_device
    create_inter-Kept v kept = record {
      spec = kept.spec;
      inner = kept.inner;
      others = λ c h. rw (lookup-insert p.spec.cluster_id c p v.inter, h) (kept.others c h);
    }

    module _ (other : text_eq w.spec.cluster_id p.spec.cluster_id ≡ false)
        (parsed : parse_key p.spec.public_key ≡ some k) where
      add_inter-Outcome : Outcome (add_inter_cluster_tunnel wgctrl w p)
      unfolding add_inter_cluster_tunnel
      add_inter-Outcome =
          rw (other, parsed, add_inter_cluster_tunnel)
            (replace_inter-Outcome (lookup p.spec.cluster_id w.inter) refl)

      -- A peer of another cluster that is added without an error, and that is not there yet under
      -- the same key, is in the map afterwards. Under its key the device has a keepalive of ten
      -- seconds, its endpoint if that can be read, and as allowed networks exactly those of which a
      -- text of its CIDRs is the text. If its endpoint cannot be read and there was no connection to
      -- its cluster, the endpoint that the device had under the key stays.
      pub add_inter_cluster_tunnel-Tracks :
          ¬ SameKey w p k
          → (add_inter_cluster_tunnel wgctrl w p).1 ≡ done
          → Tracks w (add_inter_cluster_tunnel wgctrl w p).0 p k
      add_inter_cluster_tunnel-Tracks fresh h = elim add_inter-Outcome [
        | inl (same, _) ↦ absurd (fresh same)
        | inr (v, kept, before, e) ↦
            subst (λ r. r.1 ≡ done → Tracks w r.0 p k) (sym e) (create_inter-Tracks v before) h
      ]

      -- When configuring the device fails, the same call made again reports success and changes
      -- nothing: the peer is in the map since the first call, and counts as connected.
      pub add_inter_cluster_tunnel_retry :
          (add_inter_cluster_tunnel wgctrl w p).1 ≢ done
          → add_inter_cluster_tunnel wgctrl (add_inter_cluster_tunnel wgctrl w p).0 p
            ≡ ((add_inter_cluster_tunnel wgctrl w p).0, done)
      add_inter_cluster_tunnel_retry h = elim add_inter-Outcome [
        | inl (same, e) ↦ absurd (h (ap (λ r. r.1) e))
        | inr (v, kept, before, e) ↦
            subst (λ r. add_inter_cluster_tunnel wgctrl r.0 p ≡ (r.0, done)) (sym e) (again v kept)
      ]
        where
          again :
              (v : Wireguard wgctrl)
              → Kept w v p
              → add_inter_cluster_tunnel wgctrl (create_inter wgctrl v p k).0 p
                ≡ ((create_inter wgctrl v p k).0, done)
          again v kept =
              add_inter_cluster_tunnel-SameKey (create_inter wgctrl v p k).0 p k
                (rw (create_inter-Kept v kept).spec other) parsed
                (record {
                  old = p;
                  old_key = k;
                  found = create_inter_tracked v;
                  parsed = parsed;
                  same = refl;
                })

  -- Adding a peer leaves the connections to other clusters and all inner ones in the map, however
  -- the call ends.
  pub add_inter_cluster_tunnel-Kept :
      (w : Wireguard wgctrl) (p : Peer) → Kept w (add_inter_cluster_tunnel wgctrl w p).0 p
  unfolding add_inter_cluster_tunnel
  add_inter_cluster_tunnel-Kept w p =
      elim (Bool-cases (text_eq w.spec.cluster_id p.spec.cluster_id)) [
        | inl self ↦ rw (self, add_inter_cluster_tunnel) (trivial w p)
        | inr other ↦ elim (Option-cases (parse_key p.spec.public_key)) [
          | inl n ↦ rw (other, n, add_inter_cluster_tunnel) (trivial w p)
          | inr (k, parsed) ↦ of_Outcome k (add_inter-Outcome w p k other parsed)
        ]
      ]
    where
      trivial : (w : Wireguard wgctrl) (p : Peer) → Kept w w p
      trivial w p = record { spec = refl; inner = refl; others = λ c h. refl }

      of_Outcome :
          (k : Key)
          → Outcome w p k (add_inter_cluster_tunnel wgctrl w p)
          → Kept w (add_inter_cluster_tunnel wgctrl w p).0 p
      of_Outcome k (inl (_, e)) = subst (λ r. Kept w r.0 p) (sym e) (trivial w p)
      of_Outcome k (inr (v, kept, before, e)) =
          subst (λ r. Kept w r.0 p) (sym e) (create_inter-Kept w p k v kept)
