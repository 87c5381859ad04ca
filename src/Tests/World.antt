-- ===== src/Tests/World.antt =====
-- The parameters of the model, instantiated: a device, a routing table, an API server.
use fleetboard.Prelude.{
  Bool, true, false, List, [], ◌∷◌, Option, none, some, ◌≡◌, ◌≢◌, refl, ◌==◌, ◌&&◌, ◌||◌, Status,
  done, failed, panicked, conflict, Error, ok, arith, ==_iff,
}
use fleetboard.Prelude.Text.{Text, codes, text_eq_refl}
use fleetboard.Prelude.Dict.{Dict, lookup, insert, delete, lookup-insert_self, lookup-delete}
use fleetboard.Net.Addr.{IpNet}
use fleetboard.Tunnel.Types.{Peer}
use fleetboard.Tunnel.Device.{Wgctrl, PeerConfig, Configured, endpoint_after}
use fleetboard.Controllers.Routes.{Netlink, added}
use fleetboard.Pods.{Pod}
use fleetboard.Pods.Patch.{PodApi}
use fleetboard.Controllers.Inter.{PeerApi}

-- A peer with a new configuration.
abbrev configured_peer : Option PeerConfig → PeerConfig → PeerConfig
configured_peer old c = record {
  endpoint = endpoint_after old c.endpoint;
  keepalive = c.keepalive;
  allowed = c.allowed;
}

abbrev configure_map : Dict PeerConfig → Text → Option PeerConfig → Dict PeerConfig
configure_map d k none = delete k d
configure_map d k (some c) = insert k (configured_peer (lookup k d) c) d

pub configure_map_removed :
    (d : Dict PeerConfig) (k : Text)
    → ◌≡◌ {A = Option PeerConfig} (lookup k (configure_map d k none)) none
configure_map_removed d k = rw (lookup-delete k k d, text_eq_refl k) refl

pub configure_map-Configured :
    (d : Dict PeerConfig) (k : Text) (c : PeerConfig)
    → (q : PeerConfig) × (lookup k (configure_map d k (some c)) ≡ some q)
      × Configured (lookup k d) c q
configure_map-Configured d k c = (
  configured_peer (lookup k d) c,
  lookup-insert_self k (configured_peer (lookup k d) c) d,
  record { endpoint = refl; keepalive = refl; allowed = λ n. (λ m. m, λ m. m) },
)

-- A device that is a map, and whose calls all succeed or all fail; every text is a key.
abbrev pub wireguard_device : Bool → Wgctrl
wireguard_device works = record {
  Key = Text;
  parse_key = some;
  key_text = λ k. k;
  Device = Dict PeerConfig;
  configure = λ d k c. (configure_map d k c, works);
  peer = λ d k. lookup k d;
  removed = λ d k h. configure_map_removed d k;
  configured = λ d k c h. configure_map-Configured d k c;
}

abbrev same_net : IpNet → IpNet → Bool
same_net m n = (m.ip == n.ip) && (m.bits == n.bits)

abbrev listed : List IpNet → IpNet → Bool
listed [] n = false
listed (m ∷ t) n = same_net m n || listed t n

pub same_net_refl : (n : IpNet) → same_net n n ≡ true
same_net_refl n = ground (arith, ==_iff n.ip n.ip, ==_iff n.bits n.bits)

pub listed-head : (n : IpNet) (t : List IpNet) → listed (n ∷ t) n ≡ true
listed-head n t = ground (arith, same_net_refl n)

pub listed-tail : (n m : IpNet) (t : List IpNet) → listed t m ≡ true → listed (n ∷ t) m ≡ true
listed-tail n m t h = ground arith

abbrev pub route_table : Netlink
route_table = record {
  Table = List IpNet;
  device_index = λ t. some 4;
  route_add = λ t i n. (n ∷ t, added);
  route_del = λ t i n. (t, true);
  has_route = listed;
  added_has_route = λ t i n h. listed-head n t;
  exists_has_route = λ t i n h. listed-head n t;
  route_add_keeps = λ t i n m h. listed-tail n m t h;
}

abbrev retry_answer :
    (Text × Pod → (Text × Pod) × Status) → (Text × Pod) × Status → (Text × Pod) × Status
retry_answer f (s, failed conflict) = f s
retry_answer f (s, st) = (s, st)

pub retry_answer_once :
    (f : Text × Pod → (Text × Pod) × Status) (r : (Text × Pod) × Status)
    → r.1 ≢ failed conflict
    → retry_answer f r ≡ r
retry_answer_once f (s, done) h = refl
retry_answer_once f (s, panicked) h = refl
retry_answer_once f (s, failed conflict) h = absurd (h refl)
retry_answer_once f (s, failed e) h = refl

-- An API server that stores nothing, has one pod, and answers each patch with a conflict if told so.
abbrev pub pod_server : Pod → Option Error → PodApi
pod_server pod answer = record {
  Server = Text;
  get_pod = λ s namespace name. ok pod;
  list_pods = λ s namespace selector. ok (pod ∷ []);
  patch_pod = λ s old new. (s, answer);
  update_pod = λ s new. (s, answer);
  retry_on_conflict = λ f s. retry_answer f (f s);
  retry_once = λ f s h. retry_answer_once f (f s) h;
  own_name = codes "cnf-a";
  own_namespace = codes "fleetboard-system";
}

-- The hub, which keeps what is written to it.
abbrev pub hub_server : PeerApi
hub_server = record { Hub = List Peer; update_peer = λ h p. (p ∷ h, none) }
