-- ===== src/Tests/Slices.antt =====
-- The trackers of endpoint slices at concrete inputs.
use fleetboard.Prelude.{
  if◌then◌else◌, ◌≡◌, refl, Bool, true, false, [], ◌∷◌, Option, none, some, ok,
}
use fleetboard.Prelude.Text.{Text, codes, text_eq}
use fleetboard.Prelude.Keyed.{find}
use fleetboard.Proxy.Slices.{EndpointSliceInfo}
use fleetboard.Proxy.Slices.Cache.{
  EndpointSliceTracker, InfoByName, text_equal, update_tracker, apply_pending,
}
use fleetboard.Proxy.Slices.Settled.{
  Reported, Follows, effective, read, effective, set_reported, update_tracker-Follows,
}
use fleetboard.Proxy.Slices.Checkout.{apply_pending-Follows}
use fleetboard.Tests.Equalities.{pointers_equal}

abbrev info : EndpointSliceInfo
info = record {
  ports = record { name = some (codes "http"); port = some 80; protocol = codes "TCP" } ∷ [];
  endpoints = [];
  remove = false;
  service = record { namespace = codes "shop"; name = codes "web" };
}

abbrev removal : EndpointSliceInfo
removal = record info { remove = true }

-- Slice "a" is applied, and slice "b" is pending.
abbrev tracker : EndpointSliceTracker
tracker = record { applied = (codes "a", some info) ∷ []; pending = (codes "b", some info) ∷ [] }

abbrev reported : Reported
reported n = read (find n ((codes "b", some info) ∷ (codes "a", some info) ∷ []))

abbrev at : Bool → Option (Option EndpointSliceInfo) → Option (Option EndpointSliceInfo)
at x o = if x then some (some info) else o

not_nil : (x : Bool) → ¬ (at x none ≡ some none)
not_nil true h = cc
not_nil false h = cc

has_info :
    (x : Bool) (o : Option EndpointSliceInfo)
    → at x none ≡ some o
    → (i : EndpointSliceInfo) × (o ≡ some i) × (i.remove ≡ false)
has_info true o h = (info, cc, refl)
has_info false o h = cc

stands_for : (x y : Bool) → effective (at x none) (at y none) ≡ read (at x (at y none))
stands_for true y = refl
stands_for false y = refl

follows : Follows reported tracker
unfolding find text_equal
follows = record {
  unique = (refl, tt);
  no_nil = λ n. not_nil (text_eq (codes "b") n);
  lasting = λ n. has_info (text_eq (codes "a") n);
  stands = λ n. stands_for (text_eq (codes "b") n) (text_eq (codes "a") n);
}

update_tracker-Follows_example :
    (u : EndpointSliceTracker) × (changed : Bool) × (update_tracker tracker
        (codes "a")
        (some removal)
      ≡ ok (u, changed))
    × Follows (set_reported reported (codes "a") removal) u
update_tracker-Follows_example = update_tracker-Follows reported tracker (codes "a") removal follows

apply_pending-Follows_example :
    (u : InfoByName) × (apply_pending tracker.applied tracker.pending ≡ ok u)
    × ((n : Text) → read (find n u) ≡ reported n)
    × Follows reported (record { applied = u; pending = [] })
apply_pending-Follows_example = apply_pending-Follows reported tracker follows
