-- ===== src/Proxy/Slices/Sets.antt =====
-- The endpoints of the service ports: from addEndpoints to getEndpointsMap of
-- pkg/proxy/endpointslicecache.go.
use fleetboard.Prelude.{
  ℕ, suc, ◌==◌, not, ◌&&◌, ◌||◌, List, [], ◌∷◌, Option, none, some, if◌then◌else◌, is_nil, Result,
  ok, err, panic,
}
use fleetboard.Prelude.Text.{Text}
use fleetboard.Prelude.Dict.{Dict, lookup, insert}
use fleetboard.Prelude.Keyed.{Keyed, find, put}
use fleetboard.Proxy.Ports.{ServicePortName, service_equal, port_equal, itoa}
use fleetboard.Proxy.Slices.{
  EndpointPort, EndpointInfo, EndpointSliceInfo, BaseEndpointInfo, Setting, new_base_endpoint_info,
  sort, text_less,
}
use fleetboard.Proxy.Slices.Cache.{InfoByName}

module _ (setting : Setting) where
  -- The endpoint set of a port: an endpoint that is there is replaced by a local one.
  abbrev pub add_endpoint : Dict BaseEndpointInfo → BaseEndpointInfo → Dict BaseEndpointInfo
  add_endpoint set e = elim (lookup e.endpoint set) [
    | none ↦ insert e.endpoint e set
    | some old ↦ if e.is_local then insert e.endpoint e set else set
  ]

  abbrev pub add_address :
      ℕ → EndpointInfo → List Text → Dict BaseEndpointInfo → Dict BaseEndpointInfo
  add_address port e [] set = set
  add_address port e (ip ∷ ips) set =
      if setting.is_ipv6 && setting.is_ipv6_string ip
        || not setting.is_ipv6 && not (setting.is_ipv6_string ip)
      then add_endpoint set (new_base_endpoint_info setting ip port e)
      else set

  -- addEndpoints
  unfoldable pub add_endpoints :
      ℕ → Dict BaseEndpointInfo → List EndpointInfo → Dict BaseEndpointInfo
  unfolding new_base_endpoint_info
  add_endpoints port set [] = set
  add_endpoints port set (e ∷ endpoints) =
      add_endpoints port (add_address port e e.addresses set) endpoints

  -- spToEndpointMap
  abbrev pub EndpointSets : Type 0
  EndpointSets = Keyed ServicePortName (Dict BaseEndpointInfo)

  abbrev set_or_new : Option (Dict BaseEndpointInfo) → Dict BaseEndpointInfo
  set_or_new none = []
  set_or_new (some set) = set

  -- One port, whose name is its index among the sorted ports; it needs a name and a number.
  abbrev pub add_port :
      EndpointSliceInfo → ℕ → Text → Option Text → Option ℕ → EndpointSets → EndpointSets
  add_port info i protocol none port sets = sets
  add_port info i protocol (some name) none sets = sets
  add_port info i protocol (some name) (some port) sets =
      let key : ServicePortName = record {
        service = info.service;
        port = itoa i;
        protocol = protocol;
      } in
      if port == 0
      then sets
      else put key (add_endpoints port (set_or_new (find key sets)) info.endpoints) sets

  unfoldable pub add_slice_ports :
      EndpointSliceInfo → ℕ → List EndpointPort → EndpointSets → EndpointSets
  unfolding add_endpoints
  add_slice_ports info i [] sets = sets
  add_slice_ports info i (p ∷ ports) sets =
      add_slice_ports info (suc i) ports (add_port info i p.protocol p.name p.port sets)

  -- endpointInfoByServicePort; a nil slice panics.
  unfoldable pub endpoint_info_by_service_port : InfoByName → EndpointSets → Result EndpointSets
  unfolding add_slice_ports
  endpoint_info_by_service_port [] sets = ok sets
  endpoint_info_by_service_port ((name, none) ∷ slices) sets = panic
  endpoint_info_by_service_port ((name, some info) ∷ slices) sets =
      endpoint_info_by_service_port slices (add_slice_ports info 0 info.ports sets)

  abbrev pub set_values : Dict BaseEndpointInfo → List BaseEndpointInfo
  set_values [] = []
  set_values ((k, e) ∷ set) = e ∷ set_values set

  -- endpointsMapFromEndpointInfo: the sets that are not empty, sorted by their texts.
  unfoldable pub endpoints_map_from_endpoint_info :
      EndpointSets → Keyed ServicePortName (List BaseEndpointInfo)
  unfolding sort text_less
  endpoints_map_from_endpoint_info [] = []
  endpoints_map_from_endpoint_info ((key, set) ∷ sets) =
      let rest = endpoints_map_from_endpoint_info sets in
      if is_nil set
      then rest
      else (key, sort (λ e f. text_less e.endpoint f.endpoint) (set_values set)) ∷ rest

  abbrev pub map_of_sets :
      Result EndpointSets → Result (Keyed ServicePortName (List BaseEndpointInfo))
  map_of_sets panic = panic
  map_of_sets (err e) = err e
  map_of_sets (ok sets) = ok (endpoints_map_from_endpoint_info sets)

  -- getEndpointsMap
  unfoldable pub get_endpoints_map :
      InfoByName → Result (Keyed ServicePortName (List BaseEndpointInfo))
  unfolding endpoint_info_by_service_port endpoints_map_from_endpoint_info
  get_endpoints_map slices = map_of_sets (endpoint_info_by_service_port slices [])
