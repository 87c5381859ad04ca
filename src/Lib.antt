-- ===== src/Lib.antt =====
-- Fleetboard connects clusters by WireGuard tunnels: a hub cluster holds a Peer resource for every
-- cluster, the CNF pods build tunnels and routes from these resources, and every cluster and every
-- node gets a subnet of one tunnel network. This development models the parts that decide: the
-- choice of subnets and addresses, the annotations by which pods tell each other about them, the
-- tunnels with their maps of connections, the controllers that follow the Peer resources and the pods,
-- the controllers that carry the endpoint slices of a service from cluster to cluster, the names of
-- services in DNS, and what the proxy of a node keeps of services and endpoints.
--
-- Prelude: booleans, tests on numbers, lists, results, texts as lists of codes, and maps
--   with keys that are strings (Dict) or of any type that can be compared (Keyed).
-- Net: what package net of the Go library does with IPv4 addresses and networks, and the ranges of
--   addresses that a network contains; an address is a number below 2 ^ 32, a network its address
--   and prefix length. IPv6 is left out: a text that names an IPv6 address reads as no address.
-- Cidr: utils/netutil.go. Cidr.Index is GetIndexIPFromCIDR with inc on the four bytes, Cidr.Divide
--   divideTunnelNetwork and divideClusterNetwork, Cidr.Blocks findAvailableCIDR and its two callers.
--   The loops run on a number of rounds that the source bounds them by: `index` for the search of
--   an address, 2 ^ hostBits for the search of a subnet.
-- Slices: utils/slice.go.
-- Pods: liveness and addresses of pods (utils/utils.go, utils/netutil.go), their annotations
--   (GetSpecificAnnotation, SetSpecificAnnotations) and the call that patches them. The API server
--   and client-go's RetryOnConflict are the record PodApi.
-- Tunnel: pkg/tunnel. Tunnel.Options is Validate and Complete of options.go. Wireguard holds the maps
--   of connections and the device; the device itself, wgctrl, is the record Wgctrl with the documented
--   behaviour of ConfigureDevice: an endpoint that is not given stays as it was, and nothing is assumed
--   of the other peers. Locks are left out: each function holds the one lock over its whole change of
--   the maps.
-- Controllers: pkg/controller/tunnels. Routes is configHostRoutingRules over a routing table, the
--   record Netlink. Inter is InterClusterTunnelController: its state is the tunnel, the cache of
--   the informer, the table, and the two API servers; `handle` is Handle, `recycle_peer` RecyclePeer.
--   A handler answers with a Reply: when to come back, and the error; a nil dereference `panics`.
--   Inner is InnerClusterTunnelController: the tunnel, the CIDRs in use, the current leader, the
--   cache of pods, the table and the API server; `handle_pod` is its Handle, `recycle_resources`
--   recycleResources, `should_handler_pod` ShouldHandlerPod. Inter.Own is ApplyPeerConfig with
--   utils/peerManager.go, and RecycleAllResources. Both controllers mutate objects of
--   their informer's cache, which is why the caches are part of the states.
-- Dns: pkg/plugin. Parse reads the labels of a query name (parse.go); Answer builds the answers from
--   service imports and endpoint slices (crossdns.go). Splitting a name into labels is coredns code
--   and an argument; the listers, which answer the slices whose labels match, and the client are the
--   record Source.
-- Services: the network for virtual services (utils/endpointslice.go), tried a hundred times as in the
--   source, and the parameters of the control plane's pods (utils/pod.go). The random numbers are a
--   function from rounds, which can answer an error. The controllers of pkg/controller/mcs share
--   Services.Apply, which is ApplyEndPointSliceWithRetry and the goroutines that call it, and
--   Services.Sync, which is RemoveNonexistentEndpointslice and the end of a handler, over SliceApi, the
--   calls of an API server with their documented laws. Services.Imports is serviceimport_controller.go over a record
--   Cluster of what it calls besides, `handle_import` its Handle; Services.Exports is
--   serviceexport_controller.go, `handle_export` its Handle. The goroutines of one call
--   share its variable `err`: `turn` is one turn of one of them, a list of numbers says whose turn it
--   is, and `wait` runs to the end what that list leaves. A turn is a whole call of
--   ApplyEndPointSliceWithRetry with the assignment, the test, or the send; `unraced` says of a
--   schedule that no goroutine assigns `err` between the assignment and the test of another.
-- Resync: utils/deploy.go, which decides whether a slice has to be updated.
-- Proxy: pkg/proxy. Ports and Changes are service_import.go: `update_changes` is Update of the
--   tracker, `update_service_map` Update of ServicePortMap, and the Steps of Changes.Refined are the
--   informer's reports and the proxy's syncs. Slices is endpointslicecache.go, `update_tracker`
--   updatePending for one service, `apply_pending` the loop of checkoutChanges; Endpoints is
--   endpoints.go. A nil map and a nil pointer are `none`. itoa runs on as many rounds as
--   its number, which has no more digits.
-- Interfaces: pkg/dedinic/ipam.go, GetIP and DelIP over the record Store, the host-local plugin,
--   whose Release can fail.
-- Tests: the parameters instantiated, and the theorems at concrete inputs.
--
-- Not modelled: creating the link and the keys, work queues and informers, leader election, the command
-- lines, the copy of the Kubernetes endpoint slice controller, the parts of pkg/proxy that are copies of
-- kube-proxy (IPVS, netlink, ipsets), the metrics and the recording of trigger times, generated clients,
-- and logging.
pub mod Prelude
pub mod Net
pub mod Cidr
pub mod Slices
pub mod Pods
pub mod Tunnel
pub mod Controllers
pub mod Dns
pub mod Resync
pub mod Proxy
pub mod Services
pub mod Interfaces
pub mod Tests
