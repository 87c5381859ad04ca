-- ===== src/Dns/Parse.antt =====
-- parseRequest, parseSegments and stripUnderscore of pkg/plugin/parse.go. What dnsutil.TrimZone leaves
-- of the name, and the labels that dns.SplitDomainName splits it into, are arguments.
use mathlib.Core.List.{reverse}
use fleetboard.Prelude.{
  Bool, not, ◌&&◌, ◌||◌, List, [], ◌∷◌, Option, none, some, if◌then◌else◌, is_nil, Error,
  invalid_request, Result, ok, panic, ◌>>=◌, ◌==◌,
}
use fleetboard.Prelude.Text.{Text, codes, text_eq}

-- The types of queries that the code tells apart.
pub data QueryType : Type 0 where
  a aaaa srv other : QueryType

-- recordRequest
pub record RecordRequest : Type 0 where
  pub port : Text
  pub protocol : Text
  pub hostname : Text
  pub cluster : Text
  pub service : Text
  pub namespace : Text
  pub pod_or_svc : Text

abbrev pub empty_request : RecordRequest
empty_request = record {
  port = [];
  protocol = [];
  hostname = [];
  cluster = [];
  service = [];
  namespace = [];
  pod_or_svc = [];
}

-- A request comes back with an error as well, and then only its parts so far are set.
abbrev pub Parsed : Type 0
Parsed = Result (RecordRequest × Option Error)

-- Svc and Pod
abbrev pub svc : Text
svc = codes "svc"

abbrev pub pod : Text
pod = codes "pod"

-- stripUnderscore; reading the first byte of an empty text panics.
unfoldable pub strip_underscore : Text → Result Text
strip_underscore [] = panic
strip_underscore (c ∷ s) = if c == b'_' then ok s else ok (c ∷ s)

abbrev pub endpoint : RecordRequest → Text → Text → Parsed
endpoint r protocol port = do
  p ← strip_underscore protocol
  q ← strip_underscore port
  ok (record r { protocol = p; port = q }, none)

-- parseSegments, on the labels left of the service, the rightmost first.
unfoldable pub parse_segments : QueryType → RecordRequest → List Text → Parsed
unfolding strip_underscore
parse_segments a r (c ∷ []) = ok (record r { cluster = c }, none)
parse_segments a r (c ∷ h ∷ []) = ok (record r { cluster = c; hostname = h }, none)
parse_segments a r _ = ok (r, some invalid_request)
parse_segments srv r (c ∷ []) = ok (record r { cluster = c }, none)
parse_segments srv r (protocol ∷ port ∷ []) = endpoint r protocol port
parse_segments srv r (c ∷ protocol ∷ port ∷ []) = endpoint (record r { cluster = c }) protocol port
parse_segments srv r _ = ok (r, some invalid_request)
parse_segments _ r _ = ok (r, none)

-- What parseRequest does with the labels, the rightmost first.
unfoldable pub parse_labels : QueryType → List Text → Parsed
unfolding parse_segments
parse_labels q [] = ok (empty_request, none)
parse_labels q (kind ∷ labels) =
    let r = record empty_request { pod_or_svc = kind } in
    if not (text_eq kind pod) && not (text_eq kind svc)
    then ok (r, some invalid_request)
    else elim labels [
      | [] ↦ ok (r, none)
      | namespace ∷ rest ↦ elim rest [
        | [] ↦ ok (record r { namespace = namespace }, none)
        | service ∷ rest' ↦
            let r' = record r { namespace = namespace; service = service } in
            elim rest' [ [] ↦ ok (r', none) | c ∷ cs ↦ parse_segments q r' (c ∷ cs) ]
      ]
    ]

-- What is left of the name of the zone itself.
abbrev pub is_apex : Text → Bool
is_apex base = is_nil base || text_eq base svc || text_eq base pod

-- parseRequest
unfoldable pub parse_request : QueryType → Text → List Text → Parsed
unfolding parse_labels
parse_request q base labels =
    if is_apex base then ok (empty_request, none) else parse_labels q (reverse labels)
