-- ===== src/Proxy/Slices/Cache.antt =====
-- EndpointSliceCache of pkg/proxy/endpointslicecache.go: the slices of every service, those that are
-- applied and those that are pending. The cache's lock is held over each of the calls.
use fleetboard.Prelude.{
  Bool, true, false, not, ◌||◌, [], ◌∷◌, Option, none, some, if◌then◌else◌, is_nil, Result, ok, err,
  panic, invalid_text,
}
use fleetboard.Prelude.Text.{Text, text_eq, text_eq_iff}
use fleetboard.Prelude.Dict.{lookup}
use fleetboard.Prelude.Keyed.{Equal, Keyed, find, put, drop}
use fleetboard.Proxy.Ports.{NamespacedName, service_equal, port_equal}
use fleetboard.Proxy.Slices.{EndpointSlice, EndpointSliceInfo, Setting, new_endpoint_slice_info}

instance unfoldable pub text_equal : Equal Text
text_equal = record { same = text_eq; same_iff = text_eq_iff }

-- endpointSliceInfoByName; a nil pointer may be stored.
abbrev pub InfoByName : Type 0
InfoByName = Keyed Text (Option EndpointSliceInfo)

-- endpointSliceTracker
pub record EndpointSliceTracker : Type 0 where
  pub applied : InfoByName
  pub pending : InfoByName

-- newEndpointSliceTracker
abbrev pub empty_tracker : EndpointSliceTracker
empty_tracker = record { applied = []; pending = [] }

-- trackerByServiceMap
abbrev pub Trackers : Type 0
Trackers = Keyed NamespacedName EndpointSliceTracker

-- endpointSliceCacheKeys, for the value of the service's label.
abbrev pub keys_of_label : EndpointSlice → Option Text → Result (NamespacedName × Text)
keys_of_label s none = err invalid_text
keys_of_label s (some name) =
    if is_nil name || (is_nil s.namespace || is_nil s.name)
    then err invalid_text
    else ok (record { namespace = s.namespace; name = name }, s.name)

unfoldable pub endpoint_slice_cache_keys : Text → EndpointSlice → Result (NamespacedName × Text)
endpoint_slice_cache_keys label_service s = keys_of_label s (lookup label_service s.labels)

abbrev pub tracker_or_new : Option EndpointSliceTracker → EndpointSliceTracker
tracker_or_new none = empty_tracker
tracker_or_new (some t) = t

module _ ⦃infos : Equal (Option EndpointSliceInfo)⦄ where
  -- What there is when neither map has the slice: reading Remove of nil panics.
  abbrev pub new_slice_changed : Option EndpointSliceInfo → Result Bool
  new_slice_changed none = panic
  new_slice_changed (some info) = ok (not info.remove)

  abbrev pub changed_from :
      Option (Option EndpointSliceInfo)
      → Option (Option EndpointSliceInfo)
      → Option EndpointSliceInfo
      → Result Bool
  changed_from (some pending) applied info = ok (not (infos.same info pending))
  changed_from none (some applied) info = ok (not (infos.same info applied))
  changed_from none none info = new_slice_changed info

  -- esInfoChanged, for the service's tracker.
  unfoldable pub es_info_changed :
      EndpointSliceTracker → Text → Option EndpointSliceInfo → Result Bool
  es_info_changed t name info = changed_from (find name t.pending) (find name t.applied) info

  abbrev pub note_slice :
      EndpointSliceTracker
      → Text
      → Option EndpointSliceInfo
      → Result Bool
      → Result (EndpointSliceTracker × Bool)
  note_slice t name info panic = panic
  note_slice t name info (err e) = err e
  note_slice t name info (ok false) = ok (t, false)
  note_slice t name info (ok true) =
      ok (record { applied = t.applied; pending = put name info t.pending }, true)

  -- The part of updatePending behind the slice's keys and its info.
  unfoldable pub update_tracker :
      EndpointSliceTracker → Text → Option EndpointSliceInfo → Result (EndpointSliceTracker × Bool)
  unfolding es_info_changed
  update_tracker t name info = note_slice t name info (es_info_changed t name info)

  abbrev pub store_tracker :
      Trackers → NamespacedName → Result (EndpointSliceTracker × Bool) → Result (Trackers × Bool)
  store_tracker trackers nn panic = panic
  store_tracker trackers nn (err e) = err e
  store_tracker trackers nn (ok (t, changed)) = ok (put nn t trackers, changed)

  abbrev pub update_info :
      Trackers
      → NamespacedName × Text
      → Result (Option EndpointSliceInfo)
      → Result (Trackers × Bool)
  update_info trackers (nn, name) panic = panic
  update_info trackers (nn, name) (err e) = err e
  update_info trackers (nn, name) (ok info) =
      store_tracker trackers nn (update_tracker (tracker_or_new (find nn trackers)) name info)

  -- updatePending. A slice without keys is logged and changes nothing.
  abbrev pub update_keys :
      Setting
      → Trackers
      → EndpointSlice
      → Bool
      → Result (NamespacedName × Text)
      → Result (Trackers × Bool)
  update_keys setting trackers s remove panic = panic
  update_keys setting trackers s remove (err e) = ok (trackers, false)
  update_keys setting trackers s remove (ok keys) =
      update_info trackers keys (new_endpoint_slice_info setting s remove)

  unfoldable pub update_pending :
      Setting → Text → Trackers → EndpointSlice → Bool → Result (Trackers × Bool)
  unfolding update_tracker endpoint_slice_cache_keys new_endpoint_slice_info
  update_pending setting label_service trackers s remove =
      update_keys setting trackers s remove (endpoint_slice_cache_keys label_service s)

-- One pending slice of checkoutChanges.
abbrev pub apply_slice_info : Text → EndpointSliceInfo → InfoByName → InfoByName
apply_slice_info name info applied =
    if info.remove then drop name applied else put name (some info) applied

unfoldable pub apply_pending : InfoByName → InfoByName → Result InfoByName
apply_pending applied [] = ok applied
apply_pending applied ((name, none) ∷ pending) = panic
apply_pending applied ((name, some info) ∷ pending) =
    apply_pending (apply_slice_info name info applied) pending
