-- ===== src/Proxy/Changes.antt =====
-- ServiceImportChangeTracker and ServicePortMap of pkg/proxy/service_import.go. A Go map is iterated in
-- any order; here it is that of the list. The lock of the tracker is held over each of the calls, and
-- the callback processServiceMapChange, which the proxier leaves nil, is left out.
pub mod Found
pub mod Sound
pub mod Tracked
pub mod Refined
use fleetboard.Prelude.{
  Bool, true, false, not, ◌&&◌, List, [], ◌∷◌, Option, none, some, if◌then◌else◌, is_nil,
}
use fleetboard.Prelude.Text.{Text, codes, text_eq}
use fleetboard.Prelude.Keyed.{Equal, Keyed, find, put, drop}
use fleetboard.Slices.{contains_string}
use fleetboard.Proxy.Ports.{
  service_equal, port_equal, NamespacedName, ServicePortName, ServiceImport, Factory, import_name,
  service_import_to_service_map,
}

-- ServicePortMap; a change keeps two of them, or nil.
abbrev pub ServicePortMap : Type 0 → Type 0
ServicePortMap V = Keyed ServicePortName V

-- serviceImportChange
pub record ServiceImportChange (V : Type 0) : Type 0 where
  pub previous : Option (ServicePortMap V)
  pub current : Option (ServicePortMap V)

-- The field `items` of ServiceImportChangeTracker.
abbrev pub Items : Type 0 → Type 0
Items V = Keyed NamespacedName (ServiceImportChange V)

-- A nil map reads like an empty one.
abbrev pub entries : {V : Type 0} → Option (ServicePortMap V) → ServicePortMap V
entries none = []
entries (some m) = m

-- Of the interface ServicePort: Protocol() and ClusterIP().String().
pub record PortView (V : Type 0) : Type 0 where
  pub protocol : V → Text
  pub cluster_ip : V → Text

-- UpdateServiceMapResult: sets, as lists.
pub record UpdateServiceMapResult : Type 0 where
  pub updated_services : List NamespacedName
  pub deleted_udp_cluster_ips : List Text

module _ {V : Type 0} ⦃values : Equal V⦄ where
  abbrev pub has_value : V → Option V → Bool
  has_value v none = false
  has_value v (some w) = values.same v w

  unfoldable pub within : ServicePortMap V → ServicePortMap V → Bool
  within [] b = true
  within ((k, v) ∷ a) b = has_value v (find k b) && within a b

  -- reflect.DeepEqual on two maps, of which either may be nil.
  unfoldable pub deep_equal : Option (ServicePortMap V) → Option (ServicePortMap V) → Bool
  unfolding within
  deep_equal none none = true
  deep_equal none (some b) = false
  deep_equal (some a) none = false
  deep_equal (some a) (some b) = within a b && within b a

  -- The previous ports of a change that may be pending already.
  abbrev pub previous_ports :
      Option (ServiceImportChange V) → Option (ServicePortMap V) → Option (ServicePortMap V)
  previous_ports none m = m
  previous_ports (some change) m = change.previous

  module _ (factory : Factory V) where
    abbrev pub note_change :
        NamespacedName → Option ServiceImport → Option ServiceImport → Items V → Items V
    note_change nn previous current items =
        let before =
          previous_ports (find nn items) (service_import_to_service_map factory previous) in
        let after = service_import_to_service_map factory current in
        if deep_equal before after
        then drop nn items
        else put nn (record { previous = before; current = after }) items

    abbrev pub pending : Items V → Items V × Bool
    pending items = (items, not (is_nil items))

    -- Update of the tracker: a previous and a current import, of which either may be nil.
    unfoldable pub update_changes :
        Items V → Option ServiceImport → Option ServiceImport → Items V × Bool
    unfolding deep_equal service_import_to_service_map
    update_changes items none none = (items, false)
    update_changes items (some previous) none =
        pending (note_change (import_name previous) (some previous) none items)
    update_changes items previous (some current) =
        pending (note_change (import_name current) previous (some current) items)

module _ {V : Type 0} where
  -- merge
  unfoldable pub merge : ServicePortMap V → ServicePortMap V → ServicePortMap V
  merge m [] = m
  merge m ((k, v) ∷ other) = put k v (merge m other)

  abbrev pub is_some : Option V → Bool
  is_some none = false
  is_some (some v) = true

  -- filter
  unfoldable pub filter_out : ServicePortMap V → ServicePortMap V → ServicePortMap V
  filter_out [] other = []
  filter_out ((k, v) ∷ m) other =
      let rest = filter_out m other in if is_some (find k other) then rest else (k, v) ∷ rest

  module _ (ports : PortView V) where
    -- The address of a port that is removed, if it is one of UDP.
    abbrev pub with_udp : V → List Text → List Text
    with_udp info ips =
        if text_eq (ports.protocol info) (codes "UDP")
        then (if contains_string ips (ports.cluster_ip info)
            then ips
            else ports.cluster_ip info ∷ ips)
        else ips

    abbrev pub unmerge_port :
        ServicePortName → Option V → ServicePortMap V × List Text → ServicePortMap V × List Text
    unmerge_port k none (m, ips) = (m, ips)
    unmerge_port k (some info) (m, ips) = (drop k m, with_udp info ips)

    -- unmerge
    unfoldable pub unmerge :
        ServicePortMap V × List Text → ServicePortMap V → ServicePortMap V × List Text
    unmerge s [] = s
    unmerge s ((k, v) ∷ other) = unmerge (unmerge_port k (find k s.0) s) other

    -- One change of the loop of Update.
    unfoldable pub apply_change :
        ServicePortMap V × List Text → ServiceImportChange V → ServicePortMap V × List Text
    unfolding merge filter_out unmerge
    apply_change (m, ips) change =
        unmerge (merge m (entries change.current), ips)
          (filter_out (entries change.previous) (entries change.current))

    unfoldable pub apply_changes :
        ServicePortMap V × List Text → Items V → ServicePortMap V × List Text
    unfolding apply_change
    apply_changes s [] = s
    apply_changes s ((nn, change) ∷ items) = apply_changes (apply_change s change) items

    abbrev pub names : Items V → List NamespacedName
    names [] = []
    names ((nn, change) ∷ items) = nn ∷ names items

    -- Update of the map: the map, the tracker's items, and the result.
    unfoldable pub update_service_map :
        ServicePortMap V → Items V → (ServicePortMap V × Items V) × UpdateServiceMapResult
    unfolding apply_changes
    update_service_map m items =
        let (applied, ips) = apply_changes (m, []) items in
        ((applied, []), record { updated_services = names items; deleted_udp_cluster_ips = ips })
