-- ===== src/Interfaces.antt =====
-- pkg/dedinic/ipam.go: the addresses of a pod's interface, one from every range of the configuration.
-- The host-local plugin of the CNI project is the record Store: its configuration is read, its store is
-- opened, and an allocator for each range gets and releases the addresses of one container.
pub mod Released
use fleetboard.Prelude.{
  ℕ, suc, ◌≡◌, Bool, true, false, ◌||◌, List, [], ◌∷◌, ◌++◌, Option, none, some, if◌then◌else◌,
  is_nil, Error, external, invalid_request, Result, ok, err, panic,
}
use fleetboard.Prelude.Text.{Text}

-- The plugin, for the container and the interface of one request.
pub record Store : Type 1 where
  pub State : Type 0
  pub RangeSet : Type 0
  -- An address with its gateway, as the allocator answers it.
  pub Address : Type 0
  pub contains : RangeSet → Text → Bool
  -- The allocator of the range with this index.
  pub get : State → ℕ → RangeSet → Option Text → State × Result Address
  pub release : State → ℕ → State × Option Error
  -- Whether the container holds an address of the range.
  pub holds : State → ℕ → Bool
  -- Getting an address touches its own range, and only when it succeeds.
  pub get_keeps :
      (t : State) (i : ℕ) (v : RangeSet) (ip : Option Text) (j : ℕ)
      → holds (get t i v ip).0 j ≡ true
      → (j ≡ i → (e : Error) × ((get t i v ip).1 ≡ err e))
      → holds t j ≡ true
  -- Releasing takes the range's address away unless it answers an error, and gives none.
  pub released : (t : State) (i : ℕ) → (release t i).1 ≡ none → holds (release t i).0 i ≡ false
  pub release_keeps : (t : State) (i j : ℕ) → holds (release t i).0 j ≡ true → holds t j ≡ true

-- The configuration: the texts of the requested addresses, each once, and the ranges.
pub record IpamConfig (store : Store) : Type 0 where
  pub requested : List Text
  pub ranges : List (Store.RangeSet store)

module _ (store : Store) where
  open store use {State, RangeSet, Address, contains, get, release}

  -- A requested address of the range, and the others.
  unfoldable pub take_requested : RangeSet → List Text → Option Text × List Text
  take_requested v [] = (none, [])
  take_requested v (ip ∷ requested) =
      let (found, rest) = take_requested v requested in
      if contains v ip then (some ip, requested) else (found, ip ∷ rest)

  -- The errors of releasing are dropped.
  unfoldable pub release_all : State → List ℕ → State
  release_all t [] = t
  release_all t (i ∷ allocs) = release_all (release t i).0 allocs

  abbrev pub if_fulfilled :
      State → List ℕ → List Address → List Text → State × Result (List Address)
  if_fulfilled t allocs ips [] = (t, ok ips)
  if_fulfilled t allocs ips (ip ∷ requested) = (release_all t allocs, err invalid_request)

  abbrev pub after_get :
      List ℕ
      → State × Result Address
      → (State → Address → State × Result (List Address))
      → State × Result (List Address)
  after_get allocs (t, panic) next = (t, panic)
  after_get allocs (t, err e) next = (release_all t allocs, err external)
  after_get allocs (t, ok ip) next = next t ip

  -- The loop over the ranges, from index `i` on, with the ranges that have been served.
  unfoldable pub get_ranges :
      State → ℕ → List RangeSet → List Text → List ℕ → List Address → State × Result (List Address)
  unfolding release_all take_requested
  get_ranges t i [] requested allocs ips = if_fulfilled t allocs ips requested
  get_ranges t i (v ∷ ranges) requested allocs ips =
      let (ip, rest) = take_requested v requested in
      after_get allocs (get t i v ip)
        (λ u a. get_ranges u (suc i) ranges rest (allocs ++ (i ∷ [])) (ips ++ (a ∷ [])))

  -- GetIP, for the configuration that is read and whether the store can be opened.
  unfoldable pub get_ip :
      State → Result (IpamConfig store) → Option Error → State × Result (List Address)
  unfolding get_ranges
  get_ip t panic opened = (t, panic)
  get_ip t (err e) opened = (t, err e)
  get_ip t (ok config) (some e) = (t, err e)
  get_ip t (ok config) none = get_ranges t 0 config.ranges config.requested [] []

  -- The loop of DelIP goes on behind an error; what comes back is whether there was one.
  unfoldable pub release_ranges : State → ℕ → List RangeSet → State × Bool
  release_ranges t i [] = (t, false)
  release_ranges t i (v ∷ ranges) =
      let r = release t i in
      let rest = release_ranges r.0 (suc i) ranges in
      (rest.0, elim r.1 [ none ↦ rest.1 | some e ↦ true ])

  abbrev pub joined : State × Bool → State × Option Error
  joined (t, true) = (t, some external)
  joined (t, false) = (t, none)

  -- DelIP
  unfoldable pub del_ip : State → Result (IpamConfig store) → Option Error → State × Option Error
  unfolding release_ranges
  del_ip t panic opened = (t, some external)
  del_ip t (err e) opened = (t, some e)
  del_ip t (ok config) (some e) = (t, some e)
  del_ip t (ok config) none = joined (release_ranges t 0 config.ranges)
