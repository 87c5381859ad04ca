-- ===== src/Tunnel/Device.antt =====
-- What the code calls of wgctrl: keys, and the configuration of the device "wg0". Its own state is
-- not code of this repository, so it is a parameter with the documented behaviour of
-- ConfigureDevice. A peer that is removed is gone. A peer that is configured has the keepalive and the
-- allowed networks given, in some order, and the endpoint given; when none is given, an endpoint that
-- it has stays. Nothing is assumed of other peers, from which allowed networks can move to the one
-- configured, nor of a call that fails.
use fleetboard.Prelude.{ℕ, ◌≡◌, ◌↔◌, Bool, true, List, Option, none, some, Elem}
use fleetboard.Prelude.Text.{Text}
use fleetboard.Net.Addr.{IpNet}

-- wgtypes.PeerConfig, for a peer that is configured; UpdateOnly is always false and
-- ReplaceAllowedIPs always true. Also what the device has of a peer.
pub record PeerConfig : Type 0 where
  pub endpoint : Option (ℕ × ℕ)
  pub keepalive : ℕ
  pub allowed : List IpNet

-- The endpoint that a peer has when no other is given.
abbrev pub endpoint_before : Option PeerConfig → Option (ℕ × ℕ)
endpoint_before none = none
endpoint_before (some q) = q.endpoint

abbrev pub endpoint_after : Option PeerConfig → Option (ℕ × ℕ) → Option (ℕ × ℕ)
endpoint_after old none = endpoint_before old
endpoint_after old (some e) = some e

-- A peer that was `old` has the configuration `c`.
pub record Configured (old : Option PeerConfig) (c q : PeerConfig) : Type 0 where
  pub endpoint : q.endpoint ≡ endpoint_after old c.endpoint
  pub keepalive : q.keepalive ≡ c.keepalive
  pub allowed : (n : IpNet) → Elem n q.allowed ↔ Elem n c.allowed

pub record Wgctrl : Type 1 where
  pub Key : Type 0
  -- wgtypes.ParseKey and Key.String
  pub parse_key : Text → Option Key
  pub key_text : Key → Text
  pub Device : Type 0
  -- ConfigureDevice with one peer, to configure it (`some`) or to remove it (`none`): the device
  -- afterwards and whether the call succeeded.
  pub configure : Device → Key → Option PeerConfig → Device × Bool
  -- What the device has of a peer.
  pub peer : Device → Key → Option PeerConfig
  pub removed :
      (d : Device) (k : Key)
      → (configure d k none).1 ≡ true
      → ◌≡◌ {A = Option PeerConfig} (peer (configure d k none).0 k) none
  pub configured :
      (d : Device) (k : Key) (c : PeerConfig)
      → (configure d k (some c)).1 ≡ true
      → (q : PeerConfig) × (peer (configure d k (some c)).0 k ≡ some q) × Configured (peer d k) c q
