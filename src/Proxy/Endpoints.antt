-- ===== src/Proxy/Endpoints.antt =====
-- EndpointsMap of pkg/proxy/endpoints.go, and the whole of checkoutChanges of endpointslicecache.go. Go
-- maps are iterated in the order of the list. Recording the times of triggers and the
-- callback processEndpointsMapChange, which the proxier leaves nil, are left out.
pub mod Lost
pub mod Local
use fleetboard.Prelude.{
  ◌>>=◌, ℕ, suc, ltb, ◌==◌, Bool, true, false, not, ◌&&◌, ◌||◌, List, [], ◌∷◌, ◌++◌, Option, none,
  some, if◌then◌else◌, is_nil, Result, ok, err, panic,
}
use fleetboard.Prelude.Text.{Text, codes, text_eq}
use fleetboard.Prelude.Keyed.{Equal, Keyed, find, put, drop}
use fleetboard.Slices.{contains_string}
use fleetboard.Proxy.Ports.{NamespacedName, ServicePortName, service_equal, port_equal}
use fleetboard.Proxy.Slices.{EndpointSliceInfo, BaseEndpointInfo, EndpointSlice, Setting}
use fleetboard.Proxy.Slices.Cache.{
  InfoByName, EndpointSliceTracker, Trackers, apply_pending, update_pending,
}
use fleetboard.Proxy.Slices.Sets.{get_endpoints_map}

-- EndpointsMap and endpointsChange
abbrev pub EndpointsMap : Type 0
EndpointsMap = Keyed ServicePortName (List BaseEndpointInfo)

pub record EndpointsChange : Type 0 where
  pub previous : EndpointsMap
  pub current : EndpointsMap

-- The changes by service.
abbrev pub Changes : Type 0
Changes = Keyed NamespacedName EndpointsChange

-- ServiceEndpoint
pub record ServiceEndpoint : Type 0 where
  pub endpoint : Text
  pub port : ServicePortName

abbrev same_flag : Bool → Bool → Bool
same_flag true b = b
same_flag false b = not b

-- Equal
abbrev pub equal_endpoint : BaseEndpointInfo → BaseEndpointInfo → Bool
equal_endpoint e f =
    text_eq e.endpoint f.endpoint && (same_flag e.is_local f.is_local && same_flag e.ready f.ready)

-- supportedEndpointSliceAddressTypes and EndpointSliceUpdate, without the trigger times: the keys that
-- it asks for are asked for again by updatePending.
unfoldable pub endpoint_slice_update :
    ⦃infos : Equal (Option EndpointSliceInfo)⦄
    → Setting
    → Text
    → Trackers
    → Text
    → EndpointSlice
    → Bool
    → Result (Trackers × Bool)
unfolding update_pending
endpoint_slice_update setting label_service trackers address_type s remove =
    if contains_string (codes "IPv4" ∷ codes "IPv6" ∷ []) address_type
    then update_pending setting label_service trackers s remove
    else ok (trackers, false)

module _ (setting : Setting) where
  -- One service of checkoutChanges that has pending slices.
  unfoldable pub checkout_tracker :
      EndpointSliceTracker → Result (EndpointSliceTracker × EndpointsChange)
  unfolding apply_pending get_endpoints_map
  checkout_tracker t = do
    previous ← get_endpoints_map setting t.applied
    applied ← apply_pending t.applied t.pending
    current ← get_endpoints_map setting applied
    ok (
      record { applied = applied; pending = [] },
      record { previous = previous; current = current },
    )

  abbrev pub with_change :
      NamespacedName
      → EndpointSliceTracker × EndpointsChange
      → Trackers × Changes
      → Trackers × Changes
  with_change nn (t, change) (trackers, changes) = ((nn, t) ∷ trackers, (nn, change) ∷ changes)

  abbrev pub without_change :
      NamespacedName → EndpointSliceTracker → Trackers × Changes → Trackers × Changes
  without_change nn t (trackers, changes) = ((nn, t) ∷ trackers, changes)

  abbrev skipped :
      NamespacedName
      → EndpointSliceTracker
      → Result (Trackers × Changes)
      → Result (Trackers × Changes)
  skipped nn t rest = do others ← rest; ok (without_change nn t others)

  abbrev taken :
      NamespacedName
      → Result (EndpointSliceTracker × EndpointsChange)
      → Result (Trackers × Changes)
      → Result (Trackers × Changes)
  taken nn checked rest = do change ← checked; others ← rest; ok (with_change nn change others)

  -- checkoutChanges
  unfoldable pub checkout_changes : Trackers → Result (Trackers × Changes)
  unfolding checkout_tracker
  checkout_changes [] = ok ([], [])
  checkout_changes ((nn, t) ∷ trackers) =
      let rest = checkout_changes trackers in
      if is_nil t.pending then skipped nn t rest else taken nn (checkout_tracker t) rest

-- merge and unmerge
unfoldable pub merge_endpoints : EndpointsMap → EndpointsMap → EndpointsMap
merge_endpoints m [] = m
merge_endpoints m ((k, endpoints) ∷ other) = put k endpoints (merge_endpoints m other)

unfoldable pub unmerge_endpoints : EndpointsMap → EndpointsMap → EndpointsMap
unmerge_endpoints m [] = m
unmerge_endpoints m ((k, endpoints) ∷ other) = drop k (unmerge_endpoints m other)

-- One change of the loop of Update.
unfoldable pub apply_endpoints : EndpointsMap → EndpointsChange → EndpointsMap
unfolding merge_endpoints unmerge_endpoints
apply_endpoints m change = merge_endpoints (unmerge_endpoints m change.previous) change.current

abbrev entry : Option (List BaseEndpointInfo) → List BaseEndpointInfo
entry none = []
entry (some endpoints) = endpoints

abbrev has_equal : BaseEndpointInfo → List BaseEndpointInfo → Bool
has_equal e [] = false
has_equal e (f ∷ endpoints) = equal_endpoint f e || has_equal e endpoints

-- The first loop of detectStaleConntrackEntries: the ready endpoints of a UDP port that are gone.
unfoldable pub deleted_endpoints :
    ServicePortName → List BaseEndpointInfo → List BaseEndpointInfo → List ServiceEndpoint
deleted_endpoints k [] current = []
deleted_endpoints k (e ∷ endpoints) current =
    let rest = deleted_endpoints k endpoints current in
    if e.ready && not (has_equal e current)
    then record { endpoint = e.endpoint; port = k } ∷ rest
    else rest

abbrev is_udp : ServicePortName → Bool
is_udp k = text_eq k.protocol (codes "UDP")

unfoldable pub deleted_udp_endpoints : EndpointsMap → EndpointsMap → List ServiceEndpoint
unfolding deleted_endpoints
deleted_udp_endpoints [] current = []
deleted_udp_endpoints ((k, endpoints) ∷ previous) current =
    let rest = deleted_udp_endpoints previous current in
    if is_udp k then deleted_endpoints k endpoints (entry (find k current)) ++ rest else rest

abbrev any_ready : List BaseEndpointInfo → Bool
any_ready [] = false
any_ready (e ∷ endpoints) = e.ready || any_ready endpoints

-- The second loop: the UDP ports that have a ready endpoint and had none.
unfoldable pub newly_active_udp_services : EndpointsMap → EndpointsMap → List ServicePortName
newly_active_udp_services previous [] = []
newly_active_udp_services previous ((k, endpoints) ∷ current) =
    let rest = newly_active_udp_services previous current in
    if is_udp k && (any_ready endpoints && not (any_ready (entry (find k previous))))
    then k ∷ rest
    else rest

-- UpdateEndpointMapResult: the names are a set in the source.
pub record UpdateEndpointMapResult : Type 0 where
  pub updated_services : List NamespacedName
  pub deleted_udp : List ServiceEndpoint
  pub newly_active_udp : List ServicePortName

abbrev with_endpoints :
    NamespacedName → EndpointsChange → UpdateEndpointMapResult → UpdateEndpointMapResult
with_endpoints nn change r = record {
  updated_services = nn ∷ r.updated_services;
  deleted_udp = deleted_udp_endpoints change.previous change.current ++ r.deleted_udp;
  newly_active_udp = newly_active_udp_services change.previous change.current ++ r.newly_active_udp;
}

-- The loop of Update over the changes that are checked out.
unfoldable pub update_endpoints_map :
    EndpointsMap → Changes → EndpointsMap × UpdateEndpointMapResult
unfolding apply_endpoints deleted_udp_endpoints newly_active_udp_services
update_endpoints_map m [] =
    (m, record { updated_services = []; deleted_udp = []; newly_active_udp = [] })
update_endpoints_map m ((nn, change) ∷ changes) =
    let (applied, r) = update_endpoints_map (apply_endpoints m change) changes in
    (applied, with_endpoints nn change r)
