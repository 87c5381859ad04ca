-- ===== src/Services/Parameters.antt =====
-- utils/pod.go: the parameters on the command lines of the control plane's pods.
use mathlib.Core.List.{append-nil}
use fleetboard.Prelude.{
  subst, ◌≡◌, refl, true, false, List, [], ◌∷◌, ◌++◌, Option, none, some, if◌then◌else◌, is_nil,
  invalid_text, Result, ok, err, panic, ◌>>=◌, All, arith,
}
use fleetboard.Prelude.Text.{
  Text, codes, has_prefix, contains_byte, split, split-append, split-Lacks, Lacks,
}

-- A container: its command and its arguments.
pub record Container : Type 0 where
  pub command : List Text
  pub args : List Text

-- strings.Split(arg, "=")[1], which panics without a "=".
abbrev pub second_part : List Text → Result Text
second_part [] = panic
second_part (x ∷ []) = panic
second_part (x ∷ y ∷ ys) = ok y

-- The inner loop, over the words of an argument.
unfoldable pub word_value : List Text → Text → Option (Result Text)
word_value [] parameter = none
word_value (word ∷ words) parameter =
    let rest = word_value words parameter in
    if has_prefix word parameter then some (second_part (split b'=' word)) else rest

abbrev pub result_or : Option (Result Text) → Result Text → Result Text
result_or none rest = rest
result_or (some r) rest = r

-- getParameterValue
unfoldable pub get_parameter_value : List Text → Text → Result Text
unfolding word_value
get_parameter_value [] parameter = ok []
get_parameter_value (arg ∷ args) parameter =
    let rest = get_parameter_value args parameter in
    if has_prefix arg parameter
    then second_part (split b'=' arg)
    else if contains_byte b' ' arg
    then result_or (word_value (split b' ' arg) parameter) rest
    else rest

-- The loops of FindPodCommandParameter, over all containers of the pods.
unfoldable pub first_parameter : List Container → Text → Result Text
unfolding get_parameter_value
first_parameter [] parameter = ok []
first_parameter (c ∷ containers) parameter =
    let rest = first_parameter containers parameter in
    get_parameter_value c.command parameter >>= λ v.
    if is_nil v
    then get_parameter_value c.args parameter >>= (λ w. if is_nil w then rest else ok w)
    else ok v

-- findPods and os.Getenv, as far as they are used: the containers of the pods with a label, in order.
pub record ControlPlane : Type 0 where
  pub containers : Text → Text → Result (List Container)
  pub service_cidr : Text
  pub cluster_cidr : Text

-- FindPodCommandParameter
unfoldable pub find_pod_command_parameter : ControlPlane → Text → Text → Text → Result Text
unfolding first_parameter
find_pod_command_parameter plane key value parameter = do
  containers ← plane.containers key value
  first_parameter containers parameter

-- Tries one label after the other, until there is a value or an error.
unfoldable pub first_found : ControlPlane → List (Text × Text) → Text → Text → Result Text
unfolding find_pod_command_parameter
first_found plane [] parameter env = if is_nil env then err invalid_text else ok env
first_found plane ((key, value) ∷ labels) parameter env =
    let rest = first_found plane labels parameter env in
    (do v ← find_pod_command_parameter plane key value parameter; if is_nil v then rest else ok v)

-- FindClusterServiceIPRange
unfoldable pub find_cluster_service_ip_range : ControlPlane → Result Text
unfolding first_found
find_cluster_service_ip_range plane =
    first_found plane
      ((codes "component", codes "kube-apiserver")
        ∷ (codes "app.kubernetes.io/component", codes "kube-apiserver")
        ∷ (codes "component", codes "kube-controller-manager")
        ∷ (codes "app.kubernetes.io/component", codes "kube-controller-manager")
        ∷ [])
      (codes "--service-cluster-ip-range") plane.service_cidr

-- FindClusterPodIPRange
unfoldable pub find_cluster_pod_ip_range : ControlPlane → Result Text
unfolding first_found
find_cluster_pod_ip_range plane =
    first_found plane
      ((codes "component", codes "kube-controller-manager")
        ∷ (codes "app.kubernetes.io/component", codes "kube-controller-manager")
        ∷ (codes "k8s-app", codes "kube-proxy")
        ∷ [])
      (codes "--cluster-cidr") plane.cluster_cidr

has_prefix-append : (s t : Text) → has_prefix (s ++ t) s ≡ true
unfolding has_prefix
has_prefix-append [] t = ground arith
has_prefix-append (c ∷ s) t = ground (arith, has_prefix-append s t)

-- An argument that has neither the parameter nor words.
abbrev pub Unrelated : Text → Text → Type 0
Unrelated parameter arg = (has_prefix arg parameter ≡ false) × (contains_byte b' ' arg ≡ false)

-- The value of a parameter that is written with "=", neither of them with another "=", is found behind
-- any arguments that do not begin with the parameter and have no space; a parameter that stands there
-- without "=" makes the call panic.
pub get_parameter_value-append :
    (before after : List Text) (parameter value : Text)
    → All (Unrelated parameter) before
    → Lacks b'=' parameter
    → Lacks b'=' value
    → (get_parameter_value (before ++ (parameter ++ b'=' ∷ value) ∷ after) parameter ≡ ok value)
      × (get_parameter_value (before ++ parameter ∷ after) parameter ≡ panic)
unfolding get_parameter_value
get_parameter_value-append [] after parameter value _ hp hv = (
  rw
      (
        has_prefix-append parameter (b'=' ∷ value),
        split-append b'=' parameter value hp,
        split-Lacks b'=' value hv,
        get_parameter_value,
      )
      refl,
  rw (whole, split-Lacks b'=' parameter hp, get_parameter_value) refl,
)
  where
    whole : has_prefix parameter parameter ≡ true
    whole =
        subst (λ s. has_prefix s parameter ≡ true) (append-nil parameter)
          (has_prefix-append parameter [])
get_parameter_value-append (arg ∷ before) after parameter value ((other, spaceless), rest) hp hv =
    let (found, panics) = get_parameter_value-append before after parameter value rest hp hv in
    (
      rw (other, spaceless, get_parameter_value) found,
      rw (other, spaceless, get_parameter_value) panics,
    )
