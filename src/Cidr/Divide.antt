-- ===== src/Cidr/Divide.antt =====
-- divideTunnelNetwork and divideClusterNetwork of utils/netutil.go: the prefix lengths of the subnets
-- that a tunnel network gives to clusters, and a cluster network to nodes.
use fleetboard.Prelude.{
  ℕ, ◌+◌, ◌≤◌, ◌≡◌, ◌≢◌, ◌&&◌, none, some, arith, leb, ltb, if◌then◌else◌, Result, ok, err,
  invalid_text, too_small,
}
use fleetboard.Prelude.Text.{Text}
use fleetboard.Net.Addr.{IpNet}
use fleetboard.Net.Format.{parse_cidr}

-- The switch over the size of the network's mask.
unfoldable pub tunnel_bits : ℕ → Result ℕ
tunnel_bits bits =
    if leb 13 bits && leb bits 16
    then ok (bits + 2)
    else if leb 9 bits && leb bits 12
    then ok (bits + 4)
    else if leb bits 8
    then ok (bits + 4)
    else err too_small

unfoldable pub divide_tunnel_network : Text → Result ℕ
divide_tunnel_network cidr = elim (parse_cidr cidr) [
  | none ↦ err invalid_text
  | some (a, n) ↦ tunnel_bits n.bits
]

-- The switch of the cluster's side.
unfoldable pub cluster_bits : ℕ → Result ℕ
cluster_bits bits =
    if ltb 13 bits && leb bits 18 then ok 24 else if leb bits 12 then ok 22 else err too_small

unfoldable pub divide_cluster_network : Text → Result ℕ
divide_cluster_network cidr = elim (parse_cidr cidr) [
  | none ↦ err invalid_text
  | some (a, n) ↦ cluster_bits n.bits
]

module _ (tunnel cluster : Text) {a b : ℕ} {t c : IpNet} where
  -- A subnet of the size that divideTunnelNetwork chooses for a cluster is in turn accepted by
  -- divideClusterNetwork, which leaves at least 6 bits for the nodes of the cluster and at least 8
  -- for the pods of a node, for every tunnel network that is accepted except one of prefix length 9.
  pub divide_cluster_network-divide_tunnel_network :
      parse_cidr tunnel ≡ some (a, t)
      → parse_cidr cluster ≡ some (b, c)
      → divide_tunnel_network tunnel ≡ ok c.bits
      → t.bits ≢ 9
      → (node : ℕ) × (divide_cluster_network cluster ≡ ok node)
        × (c.bits + 6 ≤ node)
        × (node + 8 ≤ 32)
  unfolding divide_tunnel_network divide_cluster_network tunnel_bits cluster_bits
  divide_cluster_network-divide_tunnel_network pt pc d h =
      (if leb c.bits 12 then 22 else 24, ground arith, ground arith, ground arith)

  -- From a tunnel network of prefix length 9 a cluster gets a subnet of prefix length 13, and
  -- divideClusterNetwork refuses that one as too small.
  pub divide_cluster_network-refuses_13 :
      parse_cidr tunnel ≡ some (a, t)
      → parse_cidr cluster ≡ some (b, c)
      → divide_tunnel_network tunnel ≡ ok c.bits
      → t.bits ≡ 9
      → (c.bits ≡ 13) × (divide_cluster_network cluster ≡ err too_small)
  unfolding divide_tunnel_network divide_cluster_network tunnel_bits cluster_bits
  divide_cluster_network-refuses_13 pt pc d h = (ground arith, ground arith)
