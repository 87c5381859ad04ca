-- ===== src/Tests/ServiceNetworks.antt =====
-- utils/pod.go, utils/endpointslice.go, pkg/controller/mcs/serviceimport_controller.go and
-- pkg/tunnel/options.go at concrete inputs.
use fleetboard.Prelude.{false, ℕ, ◌<◌, ◌≡◌, refl, [], ◌∷◌, ◌++◌, Result, ok, panic, Elem, arith}
use fleetboard.Prelude.Text.{Text, codes, has_prefix, contains_byte, split, join}
use fleetboard.Net.Addr.{shr, shl, prefix, masked, contains}
use fleetboard.Net.Format.{
  parse_octet, from_octets, parse_parts, parse_ip, digits_value, parse_bits, parse_cidr_parts,
  parse_cidr, cidr_text, octets, octet_text, ip_text,
}
use fleetboard.Cidr.Blocks.{overlapping_nets, is_overlapping_cidr}
use fleetboard.Controllers.Inner.Allocation.{Shares}
use fleetboard.Prelude.{true, not, none, is_nil, ◌&&◌, ◌||◌}
use fleetboard.Slices.{contains_string}
use fleetboard.Services.Imports.{Import, Cluster, add_initial_info, add_initial_info_again}
use fleetboard.Tunnel.Options.{Options, validate, complete, validate-complete}
use fleetboard.Services.Parameters.{get_parameter_value, get_parameter_value-append}
use fleetboard.Services.Random.{
  PrivateRange, ten, random_cidr, conflicts, try_random, generate_random_service_cidr,
  generate_random_service_cidr-apart,
}

abbrev pick : ℕ → Result (PrivateRange × ℕ)
pick i = ok (ten, i)

generated : generate_random_service_cidr pick (codes "10.0.0.0/24" ∷ []) ≡ ok (codes "10.0.1.0/24")
unfolding generate_random_service_cidr try_random conflicts random_cidr is_overlapping_cidr
    overlapping_nets cidr_text ip_text octets octet_text join contains parse_cidr parse_cidr_parts
    parse_ip parse_parts parse_octet from_octets digits_value parse_bits split masked prefix shr shl
generated = refl

generate_random_service_cidr-apart_example :
    ((round : ℕ) × (drawn : PrivateRange × ℕ) × (round < 100)
      × (pick round ≡ ok drawn)
      × (codes "10.0.1.0/24" ≡ random_cidr drawn))
    × ((e : Text) → Elem e (codes "10.0.0.0/24" ∷ []) → ¬ Shares (codes "10.0.1.0/24") e)
generate_random_service_cidr-apart_example =
    generate_random_service_cidr-apart pick (codes "10.0.0.0/24" ∷ []) (codes "10.0.1.0/24")
      generated

unrelated :
    (has_prefix (codes "kube") (codes "--p") ≡ false) × (contains_byte b' ' (codes "kube") ≡ false)
unfolding has_prefix contains_byte
unrelated = (refl, refl)

get_parameter_value-append_example :
    (get_parameter_value
        ((codes "kube" ∷ []) ++ (codes "--p" ++ b'=' ∷ codes "10") ∷ [])
        (codes "--p")
      ≡ ok (codes "10"))
    × (get_parameter_value ((codes "kube" ∷ []) ++ codes "--p" ∷ []) (codes "--p") ≡ panic)
get_parameter_value-append_example =
    get_parameter_value-append (codes "kube" ∷ []) [] (codes "--p") (codes "10") (unrelated, tt)
      (omega arith) (omega arith)

-- A service import without an address, and an address for it.
abbrev imported : Import
imported = record {
  name = codes "web";
  namespace = codes "shop";
  headless = false;
  deleting = false;
  ips = [];
  finalizers = [];
}

abbrev cluster : Cluster
cluster = record {
  State = Text;
  acquire_ip = λ s. (s, ok (codes "10.0.1.5"));
  release_ip = λ s ip. (s, none);
  delete_slices = λ s namespace name. (s, none);
  update_import = λ s si. (s, none);
}

abbrev initialised : Import
initialised = record imported {
  ips = codes "10.0.1.5" ∷ [];
  finalizers = codes "apps.fleetboard.io/finalizer" ∷ [];
}

first_time : add_initial_info cluster (codes "s") imported ≡ ((codes "s", initialised), ok true)
unfolding add_initial_info contains_string
first_time = refl

add_initial_info_again_example :
    add_initial_info cluster (codes "s") initialised ≡ ((codes "s", initialised), ok false)
add_initial_info_again_example =
    add_initial_info_again cluster (codes "s") (codes "s") imported initialised true refl first_time
      refl

abbrev options : Options
options = record {
  hub_secret_namespace = [];
  hub_secret_name = [];
  share_namespace = codes "syncer";
  as_hub = true;
  as_cluster = false;
  cidr = [];
  hub_url = [];
}

validate-complete_example : is_nil (validate (complete options)) ≡ (
    (options.as_hub || not (is_nil options.hub_url))
    && not (is_nil options.share_namespace)
    && (not options.as_cluster
        || (not (is_nil options.hub_secret_namespace) && not (is_nil options.hub_secret_name))))
validate-complete_example = validate-complete options
