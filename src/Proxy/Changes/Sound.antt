-- ===== src/Proxy/Changes/Sound.antt =====
-- Maps that reflect.DeepEqual takes for equal, and the ports that the map of an import has.
use fleetboard.Prelude.{
  ◌≡◌, ◌∙◌, refl, sym, ap, subst, ℕ, suc, Bool, true, false, List, [], ◌∷◌, Option, none, some,
  if◌then◌else◌, is_nil, inl, inr, Bool-cases, arith,
}
use fleetboard.Prelude.Text.{Text}
use fleetboard.Prelude.Keyed.{Equal, find, put, find-put}
use fleetboard.Proxy.Ports.{
  ServicePortName, NamespacedName, ServiceImport, ImportPort, Factory, import_name, same_port,
  same_service, same_port_iff, port_equal, add_ports, map_of_ip, service_import_to_service_map,
}
use fleetboard.Proxy.Changes.{ServicePortMap, entries, has_value, within, deep_equal}
use fleetboard.Proxy.Changes.Found.{find-nil}

module _ {V : Type 0} ⦃values : Equal V⦄ where
  has_value-eq : (v : V) (o : Option V) → has_value v o ≡ true → o ≡ some v
  has_value-eq v none h = cc
  has_value-eq v (some w) h = ap some (sym ((values.same_iff v w).0 h))

  within-find :
      (a b : ServicePortMap V) (j : ServicePortName) {v : V}
      → within a b ≡ true
      → find j a ≡ some v
      → find j b ≡ some v
  unfolding within find port_equal
  within-find [] b j h e = cc
  within-find ((k, w) ∷ a) b j {v} h e =
      of_test (same_port k j) refl e (has_value-eq w (find k b) (ground arith))
        (within-find a b j (ground arith))
    where
      of_test :
          (x : Bool)
          → same_port k j ≡ x
          → (if x then some w else find j a) ≡ some v
          → find k b ≡ some w
          → (find j a ≡ some v → find j b ≡ some v)
          → find j b ≡ some v
      of_test true s f g ih = subst (λ i. find i b ≡ some w) ((same_port_iff k j).0 s) g ∙ f
      of_test false s f g ih = ih f

  same_found :
      (o p : Option V)
      → ((v : V) → o ≡ some v → p ≡ some v)
      → ((v : V) → p ≡ some v → o ≡ some v)
      → o ≡ p
  same_found none none f g = refl
  same_found none (some w) f g = g w refl
  same_found (some v) p f g = sym (f v refl)

  pub deep_equal-find :
      (a b : Option (ServicePortMap V)) (j : ServicePortName)
      → deep_equal a b ≡ true
      → find j (entries a) ≡ find j (entries b)
  unfolding deep_equal
  deep_equal-find none none j h = refl
  deep_equal-find none (some b) j h = cc
  deep_equal-find (some a) none j h = cc
  deep_equal-find (some a) (some b) j h =
      same_found (find j a) (find j b) (λ v. within-find a b j (ground arith))
        (λ v. within-find b a j (ground arith))

module _ {V : Type 0} (factory : Factory V) where
  add_ports-other :
      (si : ServiceImport) (ip : Text) (i : ℕ) (ports : List ImportPort) (m : ServicePortMap V)
      (j : ServicePortName)
      → same_service (import_name si) j.service ≡ false
      → find j (add_ports factory si ip i ports m) ≡ find j m
  unfolding add_ports port_equal
  add_ports-other si ip i [] m j h = refl
  add_ports-other si ip i (p ∷ ports) m j h =
      add_ports-other si ip (suc i) ports (put _ _ m) j h ∙ find-put _ j _ m ∙ rw h refl

  map_of_ip-other :
      (si : ServiceImport) (ips : List Text) (j : ServicePortName)
      → same_service (import_name si) j.service ≡ false
      → find j (entries (map_of_ip factory si ips)) ≡ none
  map_of_ip-other si [] j h = find-nil j
  map_of_ip-other si (ip ∷ ips) j h = elim (Bool-cases (is_nil ip)) [
    | inl e ↦ rw e (find-nil j)
    | inr e ↦ rw e (add_ports-other si ip 0 si.ports [] j h ∙ find-nil j)
  ]

  -- The map of an import has ports of its own name only.
  pub service_import_to_service_map-other :
      (o : Option ServiceImport) (nn : NamespacedName) (j : ServicePortName)
      → ((si : ServiceImport) → o ≡ some si → import_name si ≡ nn)
      → same_service nn j.service ≡ false
      → find j (entries (service_import_to_service_map factory o)) ≡ none
  unfolding service_import_to_service_map
  service_import_to_service_map-other none nn j named h = find-nil j
  service_import_to_service_map-other (some si) nn j named h =
      map_of_ip-other si si.ips j
        (subst (λ n. same_service n j.service ≡ false) (sym (named si refl)) h)
