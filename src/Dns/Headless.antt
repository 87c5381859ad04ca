-- ===== src/Dns/Headless.antt =====
-- What getDNSRecord of pkg/plugin/crossdns.go answers for a headless service.
use mathlib.Core.Path.{ap₂}
use mathlib.Core.List.{map-append}
use fleetboard.Prelude.{
  ◌≡◌, refl, ap, sym, subst, ◌≢◌, ◌∙◌, Bool, true, false, ◌&&◌, ◌||◌, List, [], ◌∷◌, ◌++◌, map,
  none, some, if◌then◌else◌, is_nil, ok, ◌>>=◌, All, arith,
}
use fleetboard.Prelude.Text.{Text, text_eq}
use fleetboard.Prelude.Dict.{Dict, lookup}
use fleetboard.Net.Format.{parse_ip}
use fleetboard.Services.Api.{selects}
use fleetboard.Dns.Parse.{QueryType, a, aaaa, srv, other, RecordRequest}
use fleetboard.Dns.Answer.{
  ServiceImport, EndpointSlice, DnsRecord, Answer, Source, namespace_label, service_label,
  cluster_label, selector, matching, text_or_empty, slice_records, get_all_records,
  create_a_records, write_answer, answer_records, import_records, get_dns_record,
}

-- A slice has a label with this value.
abbrev pub has_label : Text → Text → EndpointSlice → Bool
has_label key value eps = elim (lookup key eps.labels) [ none ↦ false | some v ↦ text_eq v value ]

-- A slice is labelled with the service and its namespace, and with the cluster if one is asked for.
abbrev pub asked_for : RecordRequest → EndpointSlice → Bool
asked_for r eps =
    has_label service_label r.service eps
    && has_label namespace_label r.namespace eps
    && (is_nil r.cluster || has_label cluster_label r.cluster eps)

abbrev pub slices_for : RecordRequest → List EndpointSlice → List EndpointSlice
slices_for r [] = []
slices_for r (eps ∷ slices) =
    if asked_for r eps then eps ∷ slices_for r slices else slices_for r slices

selects-asked_for :
    (r : RecordRequest) (eps : EndpointSlice) → selects (selector r) eps.labels ≡ asked_for r eps
unfolding selector selects
selects-asked_for r eps =
    of_tests (has_label namespace_label r.namespace eps) (has_label service_label r.service eps)
      (is_nil r.cluster)
  where
    of_tests :
        (x y z : Bool)
        → (x && (y && selects (if z then [] else (cluster_label, r.cluster) ∷ []) eps.labels))
          ≡ (y && x && (z || has_label cluster_label r.cluster eps))
    of_tests true true true = refl
    of_tests true true false = ground arith
    of_tests true false z = refl
    of_tests false true z = refl
    of_tests false false z = refl

matching-slices_for :
    (r : RecordRequest) (slices : List EndpointSlice)
    → matching (selector r) slices ≡ slices_for r slices
matching-slices_for r [] = refl
matching-slices_for r (eps ∷ slices) =
    ap₂ (λ (b : Bool) (l : List EndpointSlice). if b then eps ∷ l else l) (selects-asked_for r eps)
      (matching-slices_for r slices)

-- The first address of every endpoint, slice by slice.
abbrev pub first_addresses : List (List Text) → List Text
first_addresses [] = []
first_addresses ([] ∷ endpoints) = first_addresses endpoints
first_addresses ((ip ∷ ips) ∷ endpoints) = ip ∷ first_addresses endpoints

abbrev pub all_addresses : List EndpointSlice → List Text
all_addresses [] = []
all_addresses (eps ∷ slices) = first_addresses eps.endpoints ++ all_addresses slices

-- Every endpoint has an address.
abbrev pub Addressed : EndpointSlice → Type 0
Addressed eps = All (λ ips. is_nil ips ≡ false) eps.endpoints

slice_records-ok :
    (cluster : Text) (endpoints : List (List Text))
    → All (λ ips. is_nil ips ≡ false) endpoints
    → (records : List DnsRecord) × (slice_records cluster endpoints ≡ ok records)
      × (map (λ (r : DnsRecord). r.ip) records ≡ first_addresses endpoints)
unfolding slice_records
slice_records-ok cluster [] h = ([], refl, refl)
slice_records-ok cluster ([] ∷ endpoints) (f, h) = cc
slice_records-ok cluster ((ip ∷ ips) ∷ endpoints) (f, h) =
    let (records, e, same) = slice_records-ok cluster endpoints h in
    (
      record { ip = ip; host_name = []; cluster_name = cluster } ∷ records,
      rw (e, slice_records) refl,
      ap (λ l. ip ∷ l) same,
    )

get_all_records-ok :
    (slices : List EndpointSlice)
    → All Addressed slices
    → (records : List DnsRecord) × (get_all_records slices ≡ ok records)
      × (map (λ (r : DnsRecord). r.ip) records ≡ all_addresses slices)
unfolding get_all_records
get_all_records-ok [] h = ([], refl, refl)
get_all_records-ok (eps ∷ slices) (f, h) =
    let (here, e, same) =
      slice_records-ok (text_or_empty (lookup cluster_label eps.labels)) eps.endpoints f in
    let (rest, e', same') = get_all_records-ok slices h in
    (
      here ++ rest,
      rw (e, e', get_all_records) refl,
      map-append (λ (r : DnsRecord). r.ip) here rest ∙ ap₂ (λ (x y : List Text). x ++ y) same same',
    )

create_a_records_address :
    (qname : Text) (records : List DnsRecord)
    → map (λ (x : Answer). x.address) (create_a_records qname records)
      ≡ map parse_ip (map (λ (r : DnsRecord). r.ip) records)
unfolding create_a_records
create_a_records_address qname [] = refl
create_a_records_address qname (r ∷ records) =
    ap (λ l. parse_ip r.ip ∷ l) (create_a_records_address qname records)

module _ (source : Source) (qname : Text) (r : RecordRequest)
    (writes : (m : List Answer) → source.write m ≡ true) where
  written : (m : List Answer) → write_answer source m ≡ ok m
  unfolding write_answer
  written m = rw (writes m, write_answer) refl

  address_answer :
      (records : List DnsRecord)
      → answer_records source a qname records ≡ ok (create_a_records qname records)
  unfolding create_a_records
  address_answer [] = written []
  address_answer (x ∷ records) = written (create_a_records qname (x ∷ records))

  other_answer :
      (q : QueryType)
      → q ≢ a
      → (records : List DnsRecord) → answer_records source q qname records ≡ ok []
  other_answer q h [] = written []
  other_answer a h (x ∷ records) = absurd (h refl)
  other_answer aaaa h (x ∷ records) = written []
  other_answer srv h (x ∷ records) = written []
  other_answer other h (x ∷ records) = written []

  -- For a headless service, when its slices can be listed, the reply can be written, and every
  -- endpoint of the slices that are labelled with the service, its namespace and, if the request has
  -- one, the cluster, has an address: an address query is answered by the first address of every
  -- endpoint of these slices, in their order, also when the request has the name of a host; every
  -- other query is answered by nothing.
  pub get_dns_record_headless :
      (si : ServiceImport)
      → source.get_import r.namespace r.service ≡ ok si
      → si.cluster_set_ip ≡ false
      → ((labels : Dict Text)
          → (slices : List EndpointSlice) × (source.list_slices r.namespace labels ≡ ok slices))
      → All Addressed (slices_for r (source.stored r.namespace))
      → ((answers : List Answer) × (get_dns_record source a qname r ≡ ok answers)
          × (map (λ (x : Answer). x.address) answers
              ≡ map parse_ip (all_addresses (slices_for r (source.stored r.namespace)))))
        × ((q : QueryType) → q ≢ a → get_dns_record source q qname r ≡ ok [])
  unfolding get_dns_record
  get_dns_record_headless si import headless listable addressed =
      let (slices, listed) = listable (selector r) in
      let wanted =
        source.listed r.namespace (selector r) listed
        ∙ matching-slices_for r (source.stored r.namespace) in
      let (records, found, same) =
        get_all_records-ok slices (subst (All Addressed) (sym wanted) addressed) in
      let E = imported slices listed found in
      (
        (
          create_a_records qname records,
          ap (λ m. m >>= answer_records source a qname) E ∙ address_answer records,
          create_a_records_address qname records
              ∙ ap (map parse_ip) (same ∙ ap all_addresses wanted),
        ),
        λ q h. ap (λ m. m >>= answer_records source q qname) E ∙ other_answer q h records,
      )
    where
      imported :
          (slices : List EndpointSlice) {records : List DnsRecord}
          → source.list_slices r.namespace (selector r) ≡ ok slices
          → get_all_records slices ≡ ok records
          → import_records source r (source.get_import r.namespace r.service) ≡ ok records
      imported slices listed found =
          ap (import_records source r) import ∙ simp (headless, listed, found)
