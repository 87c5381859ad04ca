-- ===== src/Proxy/Endpoints/Local.antt =====
-- The local endpoints that are ready (getLocalReadyEndpointIPs and LocalReadyEndpoints of
-- pkg/proxy/endpoints.go), and the times of triggers (checkoutTriggerTimes). A set is a list in which
-- each text stands once.
use fleetboard.Prelude.{ℕ, ◌&&◌, List, [], ◌∷◌, ◌++◌, Option, none, some, if◌then◌else◌, length}
use fleetboard.Prelude.Text.{Text}
use fleetboard.Prelude.Keyed.{Keyed, find, put}
use fleetboard.Slices.{contains_string}
use fleetboard.Proxy.Ports.{NamespacedName, service_equal}
use fleetboard.Proxy.Slices.{BaseEndpointInfo}
use fleetboard.Proxy.Endpoints.{EndpointsMap}

abbrev insert_text : Text → List Text → List Text
insert_text t set = if contains_string set t then set else t ∷ set

abbrev set_of : Option (List Text) → List Text
set_of none = []
set_of (some set) = set

abbrev pub LocalIps : Type 0
LocalIps = Keyed NamespacedName (List Text)

-- proxyutil.IPPart is the argument.
module _ (ip_part : Text → Text) where
  abbrev pub add_local : NamespacedName → BaseEndpointInfo → LocalIps → LocalIps
  add_local nn e ips =
      if e.ready && e.is_local
      then put nn (insert_text (ip_part e.endpoint) (set_of (find nn ips))) ips
      else ips

  unfoldable pub add_all_local : NamespacedName → List BaseEndpointInfo → LocalIps → LocalIps
  add_all_local nn [] ips = ips
  add_all_local nn (e ∷ endpoints) ips = add_all_local nn endpoints (add_local nn e ips)

  -- getLocalReadyEndpointIPs
  unfoldable pub get_local_ready_endpoint_ips : EndpointsMap → LocalIps → LocalIps
  unfolding add_all_local
  get_local_ready_endpoint_ips [] ips = ips
  get_local_ready_endpoint_ips ((k, endpoints) ∷ m) ips =
      get_local_ready_endpoint_ips m (add_all_local k.service endpoints ips)

  unfoldable pub counted : LocalIps → Keyed NamespacedName ℕ
  counted [] = []
  counted ((nn, ips) ∷ m) = (nn, length ips) ∷ counted m

  -- LocalReadyEndpoints
  unfoldable pub local_ready_endpoints : EndpointsMap → Keyed NamespacedName ℕ
  unfolding get_local_ready_endpoint_ips counted
  local_ready_endpoints m = counted (get_local_ready_endpoint_ips m [])

-- The times of triggers by service, for times of any type.
abbrev pub TriggerTimes : Type 0 → Type 0
TriggerTimes T = Keyed NamespacedName (List T)

module _ {T : Type 0} where
  abbrev pub joined_times : Option (List T) → List T → List T
  joined_times none times = times
  joined_times (some before) times = before ++ times

  -- checkoutTriggerTimes: the times that were collected go into the result, and none is left.
  unfoldable pub move_times : TriggerTimes T → TriggerTimes T → TriggerTimes T
  move_times result [] = result
  move_times result ((nn, times) ∷ collected) =
      move_times (put nn (joined_times (find nn result) times) result) collected

  unfoldable pub checkout_trigger_times :
      TriggerTimes T → TriggerTimes T → TriggerTimes T × TriggerTimes T
  unfolding move_times
  checkout_trigger_times collected result = ([], move_times result collected)
