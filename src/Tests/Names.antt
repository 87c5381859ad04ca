-- ===== src/Tests/Names.antt =====
-- The DNS server of pkg/plugin at concrete inputs.
use mathlib.Core.List.{reverse}
use fleetboard.Prelude.{
  ◌≡◌, ◌≢◌, refl, sym, subst, All, Result, true, false, List, [], ◌∷◌, map, none, ok,
}
use fleetboard.Prelude.Text.{Text, codes, text_eq}
use fleetboard.Prelude.Dict.{Dict, lookup}
use fleetboard.Net.Format.{parse_ip}
use fleetboard.Dns.Parse.{
  QueryType, a, RecordRequest, is_apex, parse_request, parse_labels, parse_segments,
}
use fleetboard.Dns.Names.{IsAddress, labels_of, parse_request-labels_of, labels_of-parse_request}
use fleetboard.Dns.Answer.{
  EndpointSlice, Source, Answer, namespace_label, service_label, cluster_label, matching,
  get_dns_record,
}
use fleetboard.Dns.Headless.{all_addresses, slices_for, Addressed, get_dns_record_headless}

abbrev request : RecordRequest
request = record {
  port = [];
  protocol = [];
  hostname = [];
  cluster = codes "east";
  service = codes "web";
  namespace = codes "shop";
  pod_or_svc = codes "svc";
}

request-IsAddress : IsAddress request
unfolding text_eq
request-IsAddress = record { kind = refl; port = refl; protocol = refl; host = refl }

below_zone : is_apex (codes "east.web.shop.svc") ≡ false
unfolding text_eq
below_zone = refl

parse_request-labels_of_example :
    parse_request a (codes "east.web.shop.svc") (reverse (labels_of request)) ≡ ok (request, none)
parse_request-labels_of_example =
    parse_request-labels_of (codes "east.web.shop.svc") request below_zone request-IsAddress

abbrev labels : List Text
labels = codes "east" ∷ codes "web" ∷ codes "shop" ∷ codes "svc" ∷ []

read : parse_request a (codes "east.web.shop.svc") labels ≡ ok (request, none)
unfolding parse_request parse_labels parse_segments text_eq
read = refl

labels_of-parse_request_example : labels ≡ reverse (labels_of request)
labels_of-parse_request_example =
    labels_of-parse_request (codes "east.web.shop.svc") request below_zone labels
      (refl, (refl, (refl, (refl, tt)))) read refl

-- A slice of the cluster that is asked for, and one of another.
abbrev labelled : Text → List (List Text) → EndpointSlice
labelled cluster endpoints = record {
  labels =
      (namespace_label, codes "shop")
      ∷ (service_label, codes "web")
      ∷ (cluster_label, cluster)
      ∷ [];
  endpoints = endpoints;
}

abbrev slices : List EndpointSlice
slices =
    labelled (codes "east") ((codes "10.0.0.1" ∷ []) ∷ (codes "10.0.0.2" ∷ []) ∷ [])
    ∷ labelled (codes "west") ((codes "10.0.0.3" ∷ []) ∷ [])
    ∷ []

source_listed :
    (labels : Dict Text) {found : List EndpointSlice}
    → ◌≡◌ {A = Result (List EndpointSlice)} (ok (matching labels slices)) (ok found)
    → found ≡ matching labels slices
source_listed labels e = cc

abbrev source : Source
source = record {
  get_import = λ namespace name. ok (record { cluster_set_ip = false; ips = [] });
  stored = λ namespace. slices;
  list_slices = λ namespace labels. ok (matching labels slices);
  listed = λ namespace labels e. source_listed labels e;
  write = λ m. true;
}

east_only :
    slices_for request slices
    ≡ labelled (codes "east") ((codes "10.0.0.1" ∷ []) ∷ (codes "10.0.0.2" ∷ []) ∷ []) ∷ []
unfolding lookup text_eq
east_only = refl

east-Addressed : All Addressed (slices_for request slices)
east-Addressed = subst (All Addressed) (sym east_only) ((refl, (refl, tt)), tt)

get_dns_record_headless_example :
    ((answers : List Answer) × (get_dns_record source a (codes "web.shop.svc") request ≡ ok answers)
      × (map (λ (x : Answer). x.address) answers
          ≡ map parse_ip (all_addresses (slices_for request slices))))
    × ((q : QueryType) → q ≢ a → get_dns_record source q (codes "web.shop.svc") request ≡ ok [])
get_dns_record_headless_example =
    get_dns_record_headless source (codes "web.shop.svc") request (λ m. refl)
      (record { cluster_set_ip = false; ips = [] }) refl refl
      (λ labels. (matching labels slices, refl)) east-Addressed
