-- ===== src/Pods.antt =====
-- What utils/utils.go, utils/netutil.go and pkg/tunnel/tunnel.go do with pods: whether they are
-- alive, their addresses and their annotations.
pub mod Annotations
pub mod Patch
pub mod ServiceCidr
use fleetboard.Prelude.{
  Bool, true, false, not, ◌&&◌, ◌||◌, List, [], ◌∷◌, Option, none, some, if◌then◌else◌, is_nil,
  Result, ok, err, panic, no_parallel_ip, ◌≡◌, ◌↔◌, arith,
}
use fleetboard.Prelude.Text.{Text, codes, text_eq, text_eq_iff}
use fleetboard.Prelude.Dict.{Dict, lookup}
use fleetboard.Net.Format.{parse_ip}

-- v1.PodPhase
pub data Phase : Type 0 where
  pending running succeeded failed_phase unknown : Phase

-- v1.RestartPolicy
pub data RestartPolicy : Type 0 where
  always on_failure never : RestartPolicy

-- v1.Pod: of it what the code reads. A nil map reads as an empty one.
pub record Pod : Type 0 where
  pub name : Text
  pub namespace : Text
  pub node_name : Text
  pub annotations : Dict Text
  pub labels : Dict Text
  pub deleting : Bool
  pub phase : Phase
  pub reason : Text
  pub restart_policy : RestartPolicy
  pub pod_ips : List Text

abbrev is_always : RestartPolicy → Bool
is_always always = true
is_always _ = false

abbrev is_never : RestartPolicy → Bool
is_never never = true
is_never _ = false

-- isPodStatusPhaseAlive
unfoldable pub is_pod_status_phase_alive : Phase → RestartPolicy → Text → Bool
is_pod_status_phase_alive succeeded policy reason = is_always policy
is_pod_status_phase_alive failed_phase policy reason =
    not (is_never policy) && not (text_eq reason (codes "Evicted"))
is_pod_status_phase_alive _ policy reason = true

-- IsPodAlive
unfoldable pub is_pod_alive : Pod → Bool
is_pod_alive p =
    if p.deleting then false else is_pod_status_phase_alive p.phase p.restart_policy p.reason

unfoldable pub first_ip : List Text → Text
first_ip [] = []
first_ip (ip ∷ ips) = if is_nil ip then first_ip ips else ip

-- GetEth0IP
unfoldable pub get_eth0_ip : Pod → Text
get_eth0_ip p = first_ip p.pod_ips

unfoldable pub has_ip : List Text → Bool
has_ip [] = false
has_ip (ip ∷ ips) = not (is_nil ip) || has_ip ips

abbrev is_running : Phase → Bool
is_running running = true
is_running _ = false

-- IsRunningAndHasIP
unfoldable pub is_running_and_has_ip : Pod → Bool
is_running_and_has_ip p = is_running p.phase && has_ip p.pod_ips

-- A list of addresses has one exactly when the first address found is not empty.
first_ip-has_ip : (ips : List Text) → has_ip ips ≡ not (is_nil (first_ip ips))
unfolding first_ip has_ip
first_ip-has_ip [] = ground arith
first_ip-has_ip ([] ∷ ips) = first_ip-has_ip ips
first_ip-has_ip ((c ∷ ip) ∷ ips) = ground arith
