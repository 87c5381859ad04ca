-- ===== src/Tests/Proxy.antt =====
-- pkg/proxy at concrete inputs.
use fleetboard.Prelude.{◌≡◌, sym, ap, ℕ, ◌==◌, ==_iff, true, false, [], ◌∷◌, Option, none, some}
use fleetboard.Prelude.Text.{Text, codes}
use fleetboard.Prelude.Keyed.{Equal, find}
use fleetboard.Proxy.Ports.{
  ServicePortName, NamespacedName, ServiceImport, Factory, service_equal, port_equal,
}
use fleetboard.Proxy.Changes.{PortView, entries}
use fleetboard.Proxy.Changes.Tracked.{Named, ports_of}
use fleetboard.Proxy.Changes.Refined.{
  Node, here, next, report, start, reported, synced, synced-refines,
}
use fleetboard.Proxy.Slices.{BaseEndpointInfo}
use fleetboard.Proxy.Endpoints.{EndpointsChange, apply_endpoints}
use fleetboard.Proxy.Endpoints.Lost.{apply_endpoints_last}

instance unfoldable number_equal : Equal ℕ
number_equal = record { same = ◌==◌; same_iff = ==_iff }

-- A proxier that keeps the number of a port.
abbrev numbers : Factory ℕ
numbers = record { parse_ip_sloppy = λ t. none; make_service_info = λ p si b. b.port }

abbrev tcp : PortView ℕ
tcp = record { protocol = λ p. codes "TCP"; cluster_ip = λ p. [] }

abbrev shop_web : NamespacedName
shop_web = record { namespace = codes "shop"; name = codes "web" }

abbrev imported : ServiceImport
imported = record {
  name = codes "web";
  namespace = codes "shop";
  ips = codes "10.0.1.5" ∷ [];
  ports = record { name = codes "http"; protocol = codes "TCP"; port = 80 } ∷ [];
}

abbrev first_port : ServicePortName
first_port = record { service = shop_web; port = codes "0"; protocol = codes "TCP" }

imported-Named : Named shop_web (some imported)
imported-Named si e = ap import_name_of (sym e)
  where
    import_name_of : Option ServiceImport → NamespacedName
    import_name_of none = shop_web
    import_name_of (some i) = record { namespace = i.namespace; name = i.name }

abbrev added : Node {V = ℕ} numbers tcp
added = reported numbers tcp (start numbers tcp) shop_web (some imported)

synced-refines_example :
    (find first_port (synced numbers tcp added).service_map
      ≡ find first_port (entries (ports_of numbers added.world shop_web)))
    × ((synced numbers tcp added).items ≡ [])
synced-refines_example =
    synced-refines numbers tcp
      (next here (report (start numbers tcp) shop_web (some imported) imported-Named)) first_port

abbrev endpoint_at : Text → BaseEndpointInfo
endpoint_at t = record {
  endpoint = t;
  is_local = false;
  zone_hints = [];
  ready = true;
  serving = true;
  terminating = false;
  node_name = [];
  zone = [];
}

abbrev change_to : Text → EndpointsChange
change_to t = record { previous = []; current = (first_port, endpoint_at t ∷ []) ∷ [] }

-- Of the endpoints in two clusters, those of the second are left.
apply_endpoints_last_example :
    (find first_port (change_to (codes "10.2.0.9:80")).current
        ≡ some (endpoint_at (codes "10.2.0.9:80") ∷ [])
      → find first_port (
          apply_endpoints
            (apply_endpoints [] (change_to (codes "10.1.0.9:80")))
            (change_to (codes "10.2.0.9:80")))
        ≡ some (endpoint_at (codes "10.2.0.9:80") ∷ []))
    × (find first_port (change_to (codes "10.2.0.9:80")).current ≡ none
        → find first_port (change_to (codes "10.2.0.9:80")).previous
          ≡ some (endpoint_at (codes "10.2.0.9:80") ∷ [])
        → find first_port (
            apply_endpoints
              (apply_endpoints [] (change_to (codes "10.1.0.9:80")))
              (change_to (codes "10.2.0.9:80")))
          ≡ none)
apply_endpoints_last_example =
    apply_endpoints_last first_port [] (change_to (codes "10.1.0.9:80"))
      (change_to (codes "10.2.0.9:80")) (endpoint_at (codes "10.2.0.9:80") ∷ [])
