-- ===== src/Tunnel/InnerTracking.antt =====
-- What the map of inner connections says of the device: AddInnerClusterTunnel of
-- pkg/tunnel/wireguard_tools.go.
use fleetboard.Prelude.Dict.{delete}
use fleetboard.Prelude.{
  ◌↔◌, Elem, ◌∙◌, true, ◌≡◌, refl, sym, subst, ◌⊎◌, inl, inr, [], ◌∷◌, List, ℕ, Option, none, some,
  Status, done, panicked, arith, Option-cases, Bool-cases,
}
use fleetboard.Prelude.Text.{Text, text_eq}
use fleetboard.Prelude.Dict.{lookup, lookup-insert_self}
use fleetboard.Net.Format.{parse_ip}
use fleetboard.Tunnel.Types.{DaemonConfig}
use fleetboard.Net.Addr.{IpNet}
use fleetboard.Tunnel.Subnets.{Listed, parse_subnets-Listed}
use fleetboard.Tunnel.Device.{Wgctrl, PeerConfig}
use fleetboard.Tunnel.Connect.{
  Wireguard, configure_device, remove_tunnel, inner_config, create_inner, replace_inner, old_keys,
  connect_inner, add_inner_cluster_tunnel,
}

module _ (wgctrl : Wgctrl) where
  open wgctrl use {Key, parse_key, key_text, configure, peer, configured}

  -- The connection to the node is in the map, and the device has the address and the allowed networks
  -- under the key.
  pub record TracksInner (w : Wireguard wgctrl) (c : DaemonConfig) (ip : ℕ) (k : Key) : Type 0 where
    pub tracked : lookup c.node_id w.inner ≡ some c
    pub config : PeerConfig
    pub device : peer w.device k ≡ some config
    pub keepalive : config.keepalive ≡ 10
    pub endpoint : config.endpoint ≡ some (ip, c.port)
    pub allowed : (n : IpNet) → Elem n config.allowed ↔ Listed c.secondary_cidr n

  -- A connection to the node is there whose first key has the text of `k`.
  pub record SameInnerKey (w : Wireguard wgctrl) (c : DaemonConfig) (k : Key) : Type 0 where
    pub old_key : Key
    pub old_first : Text
    pub old_rest : List Text
    pub found : old_keys wgctrl (lookup c.node_id w.inner) ≡ some (old_first ∷ old_rest)
    pub parsed : parse_key old_first ≡ some old_key
    pub same : text_eq (key_text old_key) (key_text k) ≡ true

  module _ (w : Wireguard wgctrl) (c : DaemonConfig) (ip : ℕ) (k : Key) where
    create_inner-Tracks :
        (v : Wireguard wgctrl)
        → (create_inner wgctrl v c ip k).1 ≡ done
        → TracksInner (create_inner wgctrl v c ip k).0 c ip k
    unfolding create_inner configure_device inner_config
    create_inner-Tracks v h =
        let (q, at, d) = configured v.device k (inner_config wgctrl c ip) (ground arith) in
        record {
          tracked = lookup-insert_self c.node_id c v.inner;
          config = q;
          device = at;
          keepalive = d.keepalive;
          endpoint = d.endpoint;
          allowed = λ n. (
            λ m. (parse_subnets-Listed c.secondary_cidr n).0 ((d.allowed n).0 m),
            λ l. (d.allowed n).1 ((parse_subnets-Listed c.secondary_cidr n).1 l),
          );
        }

    by_creation :
        (r : Wireguard wgctrl × Status) (v : Wireguard wgctrl)
        → r ≡ create_inner wgctrl v c ip k
        → r.1 ≡ done
        → TracksInner r.0 c ip k
    by_creation r v e h =
        subst (λ q. TracksInner q.0 c ip k) (sym e)
          (create_inner-Tracks v (subst (λ q. q.1 ≡ done) e h))

    -- A connection that was there is replaced, unless it has the same key.
    abbrev Outcome : Wireguard wgctrl × Status → Type 0
    Outcome r =
        SameInnerKey w c k
        ⊎ ((v : Wireguard wgctrl) × (r ≡ create_inner wgctrl v c ip k))
        ⊎ (r.1 ≡ panicked)

    dropped : Wireguard wgctrl → Wireguard wgctrl
    dropped v = record v { inner = delete c.node_id v.inner }

    replace_inner-Outcome :
        (o : Option (List Text))
        → old_keys wgctrl (lookup c.node_id w.inner) ≡ o
        → Outcome (replace_inner wgctrl w c ip k o)
    unfolding replace_inner dropped
    replace_inner-Outcome none e = inr (inl (w, refl))
    replace_inner-Outcome (some []) e = inr (inr refl)
    replace_inner-Outcome (some (old ∷ keys)) e = elim (Option-cases (parse_key old)) [
      | inl n ↦ inr (inl (dropped w, rw (n, replace_inner) refl))
      | inr (j, s) ↦ elim (Bool-cases (text_eq (key_text j) (key_text k))) [
        | inl same ↦ inl (record {
          old_key = j;
          old_first = old;
          old_rest = keys;
          found = e;
          parsed = s;
          same = same;
        })
        | inr other ↦
            inr (inl (dropped (remove_tunnel wgctrl w j).0, rw (s, other, replace_inner) refl))
      ]
    ]

    -- A node that is added without an error, and that is not there yet under the same key, is in the
    -- map afterwards. Under its first key the device has a keepalive of ten seconds, its address and
    -- port, and as allowed networks exactly those of which a text of its CIDRs is the text.
    pub add_inner_cluster_tunnel-Tracks :
        (keys : List Text) (first : Text)
        → parse_ip c.endpoint_ip ≡ some ip
        → c.public_key ≡ first ∷ keys
        → parse_key first ≡ some k
        → ¬ SameInnerKey w c k
        → (add_inner_cluster_tunnel wgctrl w c).1 ≡ done
        → TracksInner (add_inner_cluster_tunnel wgctrl w c).0 c ip k
    unfolding add_inner_cluster_tunnel connect_inner
    add_inner_cluster_tunnel-Tracks keys first address has parsed fresh h =
        let E = add_eq keys first address has parsed in
        let o = old_keys wgctrl (lookup c.node_id w.inner) in
        elim (replace_inner-Outcome o refl) [
          | inl same ↦ absurd (fresh same)
          | inr (inl (v, e)) ↦ by_creation (add_inner_cluster_tunnel wgctrl w c) v (E ∙ e) h
          | inr (inr e) ↦ absurd (not_panicked (subst (λ q. q.1 ≡ panicked) (sym E) e) h)
        ]
      where
        add_eq :
            (keys : List Text) (first : Text)
            → parse_ip c.endpoint_ip ≡ some ip
            → c.public_key ≡ first ∷ keys
            → parse_key first ≡ some k
            → add_inner_cluster_tunnel wgctrl w c
              ≡ replace_inner wgctrl w c ip k (old_keys wgctrl (lookup c.node_id w.inner))
        add_eq keys first address has parsed =
            simp (address, has, parsed, add_inner_cluster_tunnel, connect_inner)

        not_panicked : {st : Status} → st ≡ panicked → st ≡ done → ⊥
        not_panicked e f = cc
