-- ===== src/Proxy/Slices.antt =====
-- Endpoint slices as pkg/proxy/endpointslicecache.go reads them. The protocol of a port is one that
-- the API server fills in; its name and its number may be missing.
pub mod Cache
pub mod Sets
pub mod Settled
pub mod Checkout
use fleetboard.Prelude.{
  ℕ, zero, suc, ltb, ◌==◌, Bool, true, false, not, ◌&&◌, ◌||◌, List, [], ◌∷◌, ◌++◌, Option, none,
  some, if◌then◌else◌, is_nil, Result, ok, err, panic, Error, invalid_text,
}
use fleetboard.Prelude.Text.{Text, codes, join, text_eq, contains_byte}
use fleetboard.Prelude.Dict.{Dict, lookup}
use fleetboard.Prelude.Keyed.{Equal, Keyed, find, put}
use fleetboard.Services.Imports.Handler.{label_service_name, label_service_namespace}
use fleetboard.Proxy.Ports.{NamespacedName, ServicePortName, port_equal, itoa}

-- discovery.EndpointPort
pub record EndpointPort : Type 0 where
  pub name : Option Text
  pub port : Option ℕ
  pub protocol : Text

-- discovery.Endpoint, with its conditions and hints.
pub record SliceEndpoint : Type 0 where
  pub addresses : List Text
  pub node_name : Option Text
  pub zone : Option Text
  pub ready : Option Bool
  pub serving : Option Bool
  pub terminating : Option Bool
  pub hints : List Text

-- discovery.EndpointSlice
pub record EndpointSlice : Type 0 where
  pub name : Text
  pub namespace : Text
  pub labels : Dict Text
  pub ports : List EndpointPort
  pub endpoints : List SliceEndpoint

-- endpointInfo
pub record EndpointInfo : Type 0 where
  pub addresses : List Text
  pub node_name : Option Text
  pub zone : Option Text
  pub zone_hints : List Text
  pub ready : Bool
  pub serving : Bool
  pub terminating : Bool

-- endpointSliceInfo
pub record EndpointSliceInfo : Type 0 where
  pub ports : List EndpointPort
  pub endpoints : List EndpointInfo
  pub remove : Bool
  pub service : NamespacedName

-- BaseEndpointInfo
pub record BaseEndpointInfo : Type 0 where
  pub endpoint : Text
  pub is_local : Bool
  pub zone_hints : List Text
  pub ready : Bool
  pub serving : Bool
  pub terminating : Bool
  pub node_name : Text
  pub zone : Text

-- sort.Sort, for lists in which it inserts one item after the other.
module _ {A : Type 0} (less : A → A → Bool) where
  unfoldable pub insert_item : A → List A → List A
  insert_item x [] = x ∷ []
  insert_item x (y ∷ ys) = let rest = insert_item x ys in if less x y then x ∷ y ∷ ys else y ∷ rest

  unfoldable pub sort : List A → List A
  unfolding insert_item
  sort [] = []
  sort (x ∷ xs) = insert_item x (sort xs)

-- s < t for strings
unfoldable pub text_less : Text → Text → Bool
text_less [] [] = false
text_less [] (c ∷ t) = true
text_less (b ∷ s) [] = false
text_less (b ∷ s) (c ∷ t) = ltb b c || (b == c) && text_less s t

abbrev port_number : Option ℕ → ℕ
port_number none = 0
port_number (some n) = n

abbrev lacks_number : List EndpointPort → Bool
lacks_number [] = false
lacks_number (p ∷ ports) = (elim p.port [ none ↦ true | some n ↦ false ]) || lacks_number ports

abbrev is_single : List EndpointPort → Bool
is_single [] = true
is_single (p ∷ ports) = is_nil ports

-- The sort by number, which dereferences it as soon as there are two ports.
unfoldable pub sort_ports : List EndpointPort → Result (List EndpointPort)
unfolding sort
sort_ports ports =
    if lacks_number ports && not (is_single ports)
    then panic
    else ok (sort (λ p q. ltb (port_number p.port) (port_number q.port)) ports)

abbrev or_true : Option Bool → Bool
or_true none = true
or_true (some b) = b

abbrev or_false : Option Bool → Bool
or_false none = false
or_false (some b) = b

abbrev or_empty : Option Text → Text
or_empty none = []
or_empty (some t) = t

-- Whether the feature TopologyAwareHints is on, the host's name and family, and what is an IPv6 text.
pub record Setting : Type 0 where
  pub topology_hints : Bool
  pub hostname : Text
  pub is_ipv6 : Bool
  pub is_ipv6_string : Text → Bool

module _ (setting : Setting) where
  unfoldable pub endpoint_info : SliceEndpoint → EndpointInfo
  endpoint_info e = record {
    addresses = e.addresses;
    node_name = e.node_name;
    zone = e.zone;
    zone_hints = if setting.topology_hints then e.hints else [];
    ready = or_true e.ready;
    serving = or_true e.serving;
    terminating = or_false e.terminating;
  }

  unfoldable pub endpoint_infos : List SliceEndpoint → List EndpointInfo
  unfolding endpoint_info
  endpoint_infos [] = []
  endpoint_infos (e ∷ endpoints) = endpoint_info e ∷ endpoint_infos endpoints

  abbrev pub sorted_endpoints : Bool → List SliceEndpoint → List EndpointInfo
  sorted_endpoints remove endpoints =
      if remove
      then []
      else sort (λ e f. text_less (join b',' e.addresses) (join b',' f.addresses))
          (endpoint_infos endpoints)

  abbrev pub info_of_ports :
      EndpointSlice
      → Bool
      → NamespacedName
      → Result (List EndpointPort)
      → Result (Option EndpointSliceInfo)
  info_of_ports s remove nn panic = panic
  info_of_ports s remove nn (err e) = err e
  info_of_ports s remove nn (ok ports) = ok (
      some (record {
        ports = ports;
        endpoints = sorted_endpoints remove s.endpoints;
        remove = remove;
        service = nn;
      }))

  abbrev pub info_of_labels :
      EndpointSlice → Bool → Option Text → Option Text → Result (Option EndpointSliceInfo)
  info_of_labels s remove none namespace = ok none
  info_of_labels s remove (some name) none = ok none
  info_of_labels s remove (some name) (some namespace) =
      info_of_ports s remove (record { namespace = namespace; name = name }) (sort_ports s.ports)

  -- newEndpointSliceInfo; `none` is nil.
  unfoldable pub new_endpoint_slice_info : EndpointSlice → Bool → Result (Option EndpointSliceInfo)
  unfolding sort_ports endpoint_infos text_less
  new_endpoint_slice_info s remove =
      info_of_labels s remove (lookup label_service_name s.labels)
        (lookup label_service_namespace s.labels)

  -- isLocal
  abbrev pub is_local : Text → Bool
  is_local hostname = not (is_nil setting.hostname) && text_eq hostname setting.hostname

  -- net.JoinHostPort
  abbrev pub join_host_port : Text → Text → Text
  join_host_port host port =
      if contains_byte b':' host then b'[' ∷ (host ++ b']' ∷ b':' ∷ port) else host ++ b':' ∷ port

  -- newBaseEndpointInfo, for the first address of an endpoint.
  unfoldable pub new_base_endpoint_info : Text → ℕ → EndpointInfo → BaseEndpointInfo
  new_base_endpoint_info ip port e = record {
    endpoint = join_host_port ip (itoa port);
    is_local = elim e.node_name [ none ↦ false | some n ↦ is_local n ];
    zone_hints = e.zone_hints;
    ready = e.ready;
    serving = e.serving;
    terminating = e.terminating;
    node_name = or_empty e.node_name;
    zone = or_empty e.zone;
  }
