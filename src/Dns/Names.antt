-- ===== src/Dns/Names.antt =====
-- Which names pkg/plugin/parse.go reads for an address query, and as what.
use mathlib.Core.List.{reverse, reverse_aux, reverse-reverse}
use fleetboard.Prelude.{
  refl, ◌∙◌, sym, ap, All, ◌≡◌, true, false, not, ◌&&◌, ◌||◌, List, [], ◌∷◌, none, if◌then◌else◌,
  is_nil, ok, arith,
}
use fleetboard.Prelude.Text.{Text, text_eq}
use fleetboard.Dns.Parse.{
  is_apex, parse_request, empty_request, Parsed, a, RecordRequest, svc, pod, parse_segments,
  parse_labels,
}

-- The labels of a name, the rightmost first: host.cluster.service.namespace.svc, where the host, or
-- the host and the cluster, may be missing.
unfoldable pub labels_of : RecordRequest → List Text
labels_of r =
    r.pod_or_svc
    ∷ r.namespace
    ∷ r.service
    ∷ (if is_nil r.cluster
        then []
        else r.cluster ∷ (if is_nil r.hostname then [] else r.hostname ∷ []))

-- A request for the addresses of a service.
pub record IsAddress (r : RecordRequest) : Type 0 where
  pub kind : (text_eq r.pod_or_svc pod || text_eq r.pod_or_svc svc) ≡ true
  pub port : r.port ≡ []
  pub protocol : r.protocol ≡ []
  pub host : (is_nil r.cluster && not (is_nil r.hostname)) ≡ false

parse_labels-labels_of :
    (r : RecordRequest) → IsAddress r → parse_labels a (labels_of r) ≡ ok (r, none)
unfolding parse_labels parse_segments labels_of
parse_labels-labels_of r w = ground (arith, w.kind, w.port, w.protocol, w.host)

abbrev request_of : Parsed → RecordRequest
request_of (ok (r, e)) = r
request_of _ = empty_request

nil_or : (t : Text) → t ≡ [] → is_nil t ≡ false → ⊥
nil_or [] e h = cc
nil_or (x ∷ t) e h = cc

no_service :
    {r : RecordRequest} {x : Parsed}
    → x ≡ ok (r, none)
    → (request_of x).service ≡ []
    → is_nil r.service ≡ false
    → ⊥
no_service {r} e f h = nil_or r.service (ap (λ y. (request_of y).service) (sym e) ∙ f) h

abbrev pub Filled : List Text → Type 0
Filled = All (λ l. is_nil l ≡ false)

labels_of-parse_labels :
    (labels : List Text) (r : RecordRequest)
    → Filled labels
    → parse_labels a labels ≡ ok (r, none)
    → is_nil r.service ≡ false
    → labels_of r ≡ labels
unfolding parse_labels parse_segments labels_of
labels_of-parse_labels [] r f h s = absurd (no_service h refl s)
labels_of-parse_labels (k ∷ []) r f h s = ground arith
labels_of-parse_labels (k ∷ n ∷ []) r f h s = ground arith
labels_of-parse_labels (k ∷ n ∷ v ∷ []) r f h s = ground arith
labels_of-parse_labels (k ∷ n ∷ v ∷ c ∷ []) r f h s = ground arith
labels_of-parse_labels (k ∷ n ∷ v ∷ c ∷ x ∷ []) r f h s = ground arith
labels_of-parse_labels (k ∷ n ∷ v ∷ c ∷ x ∷ y ∷ ls) r f h s = ground arith

Filled-reverse_aux : (xs ys : List Text) → Filled xs → Filled ys → Filled (reverse_aux xs ys)
Filled-reverse_aux [] ys _ h = h
Filled-reverse_aux (x ∷ xs) ys (f, fs) h = Filled-reverse_aux xs (x ∷ ys) fs (f, h)

parse_request-parse_labels :
    (base : Text) (labels : List Text)
    → is_apex base ≡ false
    → parse_request a base labels ≡ parse_labels a (reverse labels)
unfolding parse_request
parse_request-parse_labels base labels h = simp (h, parse_request)

module _ (base : Text) (r : RecordRequest) (below : is_apex base ≡ false) where
  -- The name of a request for addresses, host.cluster.service.namespace.svc without the parts that the
  -- request leaves out, is read as that request.
  pub parse_request-labels_of :
      IsAddress r → parse_request a base (reverse (labels_of r)) ≡ ok (r, none)
  parse_request-labels_of w =
      parse_request-parse_labels base (reverse (labels_of r)) below
      ∙ ap (parse_labels a) (reverse-reverse (labels_of r))
      ∙ parse_labels-labels_of r w

  -- When an address query whose labels are not empty is read as a request for a service, the labels
  -- are those of the request's name: no other name is read as it.
  pub labels_of-parse_request :
      (labels : List Text)
      → Filled labels
      → parse_request a base labels ≡ ok (r, none)
      → is_nil r.service ≡ false
      → labels ≡ reverse (labels_of r)
  labels_of-parse_request labels filled h s =
      sym (reverse-reverse labels)
      ∙ ap reverse (
          sym (
            labels_of-parse_labels (reverse labels) r (Filled-reverse_aux labels [] filled tt)
              (sym (parse_request-parse_labels base labels below) ∙ h) s))
