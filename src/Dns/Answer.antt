-- ===== src/Dns/Answer.antt =====
-- getDNSRecord, getAllRecordsFromEndpointslice, createARecords and writeResponse of
-- pkg/plugin/crossdns.go, once the caches are synced.
use fleetboard.Prelude.{
  ℕ, ◌≡◌, Bool, List, [], ◌∷◌, ◌++◌, Option, none, some, if◌then◌else◌, is_nil, Result, ok, err,
  panic, ◌>>=◌, write_failed,
}
use fleetboard.Prelude.Text.{Text, codes}
use fleetboard.Prelude.Dict.{Dict, lookup}
use fleetboard.Net.Format.{parse_ip}
use fleetboard.Services.Api.{selects}
use fleetboard.Dns.Parse.{QueryType, a, RecordRequest}

-- Of a ServiceImport and of an EndpointSlice what the code reads.
pub record ServiceImport : Type 0 where
  pub cluster_set_ip : Bool
  pub ips : List Text

pub record EndpointSlice : Type 0 where
  pub labels : Dict Text
  -- The addresses of each endpoint.
  pub endpoints : List (List Text)

-- DNSRecord
pub record DnsRecord : Type 0 where
  pub ip : Text
  pub host_name : Text
  pub cluster_name : Text

-- dns.A with its header; an address that does not parse is nil.
pub record Answer : Type 0 where
  pub name : Text
  pub ttl : ℕ
  pub address : Option ℕ

-- The slices that a selector made from a set of labels picks.
abbrev pub matching : Dict Text → List EndpointSlice → List EndpointSlice
matching labels [] = []
matching labels (eps ∷ slices) =
    if selects labels eps.labels then eps ∷ matching labels slices else matching labels slices

-- The listers, and the client that the message is written to.
pub record Source : Type 0 where
  pub get_import : Text → Text → Result ServiceImport
  -- The slices of a namespace, in the order in which the lister goes through them.
  pub stored : Text → List EndpointSlice
  pub list_slices : Text → Dict Text → Result (List EndpointSlice)
  -- The lister answers the slices of the namespace whose labels match.
  pub listed :
      (namespace : Text) (labels : Dict Text) {slices : List EndpointSlice}
      → list_slices namespace labels ≡ ok slices
      → slices ≡ matching labels (stored namespace)
  pub write : List Answer → Bool

-- known.LabelServiceNameSpace, known.LabelServiceName and known.LabelClusterID
abbrev pub namespace_label : Text
namespace_label = codes "services.fleetboard.io/multi-cluster-service-LocalNamespace"

abbrev pub service_label : Text
service_label = codes "services.fleetboard.io/multi-cluster-service-name"

abbrev pub cluster_label : Text
cluster_label = codes "services.fleetboard.io/multi-cluster-cluster-ID"

-- The labels of a request.
unfoldable pub selector : RecordRequest → Dict Text
selector r =
    (namespace_label, r.namespace)
    ∷ (service_label, r.service)
    ∷ (if is_nil r.cluster then [] else (cluster_label, r.cluster) ∷ [])

abbrev pub text_or_empty : Option Text → Text
text_or_empty none = []
text_or_empty (some t) = t

-- One slice; reading the first address of an endpoint that has none panics.
unfoldable pub slice_records : Text → List (List Text) → Result (List DnsRecord)
slice_records cluster [] = ok []
slice_records cluster ([] ∷ endpoints) = panic
slice_records cluster ((ip ∷ ips) ∷ endpoints) = do
  records ← slice_records cluster endpoints
  ok (record { ip = ip; host_name = []; cluster_name = cluster } ∷ records)

-- getAllRecordsFromEndpointslice
unfoldable pub get_all_records : List EndpointSlice → Result (List DnsRecord)
unfolding slice_records
get_all_records [] = ok []
get_all_records (eps ∷ slices) = do
  records ← slice_records (text_or_empty (lookup cluster_label eps.labels)) eps.endpoints
  rest ← get_all_records slices
  ok (records ++ rest)

-- createARecords
unfoldable pub create_a_records : Text → List DnsRecord → List Answer
create_a_records qname [] = []
create_a_records qname (r ∷ records) =
    record { name = qname; ttl = 5; address = parse_ip r.ip } ∷ create_a_records qname records

abbrev pub first_record : List Text → List DnsRecord
first_record [] = []
first_record (ip ∷ ips) = record { ip = ip; host_name = []; cluster_name = [] } ∷ []

-- Writing the reply, and writeResponse.
unfoldable pub write_answer : Source → List Answer → Result (List Answer)
write_answer source answers = if source.write answers then ok answers else err write_failed

abbrev pub answer_records : Source → QueryType → Text → List DnsRecord → Result (List Answer)
answer_records source q qname [] = write_answer source []
answer_records source a qname (r ∷ records) =
    write_answer source (create_a_records qname (r ∷ records))
answer_records source q qname (r ∷ records) = write_answer source []

abbrev pub import_records : Source → RecordRequest → Result ServiceImport → Result (List DnsRecord)
import_records source r panic = panic
import_records source r (err e) = err write_failed
import_records source r (ok si) =
    if si.cluster_set_ip
    then ok (first_record si.ips)
    else (elim (source.list_slices r.namespace (selector r)) [
      | panic ↦ panic
      | err e ↦ err write_failed
      | ok slices ↦ get_all_records slices
    ])

-- getDNSRecord: the answers of the reply that was written, or a server failure.
unfoldable pub get_dns_record : Source → QueryType → Text → RecordRequest → Result (List Answer)
unfolding create_a_records get_all_records write_answer selector
get_dns_record source q qname r = do
  records ← import_records source r (source.get_import r.namespace r.service)
  answer_records source q qname records
