-- ===== src/Proxy/Changes/Tracked.antt =====
-- What the proxier's map of service ports and the pending changes stand for together, and that the
-- tracker's Update keeps it.
use fleetboard.Prelude.{
  ◌≡◌, ◌∙◌, refl, sym, ap, subst, false, Option, none, some, if◌then◌else◌, inl, inr, Bool-cases,
}
use fleetboard.Prelude.Keyed.{
  Equal, find, put, drop, Unique, Unique-drop, Unique-put, find-put, find-drop, Unique, Unique-drop,
  Unique-put,
}
use fleetboard.Proxy.Ports.{
  ServicePortName, NamespacedName, ServiceImport, Factory, import_name, same_service,
  same_service_iff, service_equal, port_equal, service_import_to_service_map,
}
use fleetboard.Proxy.Changes.{
  ServicePortMap, ServiceImportChange, Items, entries, deep_equal, previous_ports, note_change,
  update_changes,
}
use fleetboard.Proxy.Changes.Sound.{deep_equal-find, service_import_to_service_map-other}

-- The imports of the cluster by name.
abbrev pub World : Type 0
World = NamespacedName → Option ServiceImport

abbrev pub set_import : World → NamespacedName → Option ServiceImport → World
set_import world nn o n = if same_service nn n then o else world n

-- A name's import has that name.
abbrev pub Named : NamespacedName → Option ServiceImport → Type 0
Named nn o = (si : ServiceImport) → o ≡ some si → import_name si ≡ nn

module _ {V : Type 0} ⦃values : Equal V⦄ (factory : Factory V) where
  abbrev pub ports_of : World → NamespacedName → Option (ServicePortMap V)
  ports_of world nn = service_import_to_service_map factory (world nn)

  -- What a name's ports are in the map: those from before its pending change, if there is one.
  abbrev pub base : World → Items V → NamespacedName → Option (ServicePortMap V)
  base world items nn = previous_ports (find nn items) (ports_of world nn)

  pub record Tracks (world : World) (items : Items V) (m : ServicePortMap V) : Type 0 where
    pub named : (nn : NamespacedName) → Named nn (world nn)
    pub unique : Unique items
    pub current :
        (nn : NamespacedName) {c : ServiceImportChange V}
        → find nn items ≡ some c
        → c.current ≡ ports_of world nn
    pub own :
        (nn : NamespacedName) {c : ServiceImportChange V} (j : ServicePortName)
        → find nn items ≡ some c
        → same_service nn j.service ≡ false
        → find j (entries c.previous) ≡ none
    pub found : (j : ServicePortName) → find j m ≡ find j (entries (base world items j.service))

  base-other :
      (world : World) (items : Items V) (nn n : NamespacedName) (o : Option ServiceImport)
      → same_service nn n ≡ false
      → ports_of (set_import world nn o) n ≡ ports_of world n
  base-other world items nn n o h = rw h refl

  module _ (w : World) (items : Items V) (m : ServicePortMap V) (t : Tracks w items m)
      (nn : NamespacedName) (o : Option ServiceImport) (named : Named nn o) where
    abbrev before : Option (ServicePortMap V)
    before = base w items nn

    abbrev after : Option (ServicePortMap V)
    after = service_import_to_service_map factory o

    abbrev change : ServiceImportChange V
    change = record { previous = before; current = after }

    named' : (n : NamespacedName) → Named n (set_import w nn o n)
    named' n = elim (Bool-cases (same_service nn n)) [
      | inl e ↦ rw e (subst (λ x. Named x o) ((same_service_iff nn n).0 e) named)
      | inr e ↦ rw e (t.named n)
    ]

    own_before :
        (j : ServicePortName) → same_service nn j.service ≡ false → find j (entries before) ≡ none
    own_before j h = of_pending (find nn items) refl
      where
        of_pending :
            (p : Option (ServiceImportChange V))
            → find nn items ≡ p
            → find j (entries (previous_ports p (ports_of w nn))) ≡ none
        of_pending none e = service_import_to_service_map-other factory (w nn) nn j (t.named nn) h
        of_pending (some c) e = t.own nn j e h

    -- The items, when the name has the pending change `p` and the others have what they had.
    renewed :
        (items' : Items V) (p : Option (ServiceImportChange V))
        → Unique items'
        → ((n : NamespacedName) → find n items' ≡ (if same_service nn n then p else find n items))
        → ((c : ServiceImportChange V) → p ≡ some c → (c.current ≡ after) × (c.previous ≡ before))
        → ((j : ServicePortName)
            → find j (entries before) ≡ find j (entries (previous_ports p after)))
        → Tracks (set_import w nn o) items' m
    renewed items' p unique at of_change of_ports = record {
      named = named';
      unique = unique;
      current = λ n {c} e. elim (Bool-cases (same_service nn n)) [
        | inl b ↦ rw b (of_change c (sym (at n ∙ rw b refl) ∙ e)).0
        | inr b ↦ rw b (t.current n (sym (at n ∙ rw b refl) ∙ e))
      ];
      own = λ n {c} j e h. elim (Bool-cases (same_service nn n)) [
        | inl b ↦
            ap (λ x. find j (entries x)) (of_change c (sym (at n ∙ rw b refl) ∙ e)).1
            ∙ own_before j (
                subst (λ x. same_service x j.service ≡ false) (sym ((same_service_iff nn n).0 b)) h)
        | inr b ↦ t.own n j (sym (at n ∙ rw b refl) ∙ e) h
      ];
      found = λ j. elim (Bool-cases (same_service nn j.service)) [
        | inl b ↦
            t.found j
            ∙ ap (λ x. find j (entries (base w items x)))
                (sym ((same_service_iff nn j.service).0 b))
            ∙ of_ports j
            ∙ rw (at j.service, b) refl
        | inr b ↦ t.found j ∙ rw (at j.service, b) refl
      ];
    }

    note_change-Tracks : Tracks (set_import w nn o) (note_change factory nn (w nn) o items) m
    unfolding service_equal
    note_change-Tracks = elim (Bool-cases (deep_equal before after)) [
      | inl e ↦ rw e (
          renewed (drop nn items) none (Unique-drop nn items t.unique) (λ n. find-drop nn n items)
            (λ c h. cc) (λ j. deep_equal-find before after j e))
      | inr e ↦ rw e (
          renewed (put nn change items) (some change) (Unique-put nn change items t.unique)
            (λ n. find-put nn n change items) (λ c h. (cc, cc)) (λ j. refl))
    ]

  Tracks-world :
      (v w : World) (items : Items V) (m : ServicePortMap V)
      → ((n : NamespacedName) → v n ≡ w n)
      → Tracks w items m
      → Tracks v items m
  Tracks-world v w items m h t = record {
    named = λ n si e. t.named n si (sym (h n) ∙ e);
    unique = t.unique;
    current = λ n e. t.current n e ∙ ap (service_import_to_service_map factory) (sym (h n));
    own = λ n j. t.own n j;
    found = λ j.
        t.found j
        ∙ ap
            (λ x. find j (
              entries
                (previous_ports (find j.service items) (service_import_to_service_map factory x))))
            (sym (h j.service));
  }

  pub update_changes-Tracks :
      (w : World) (items : Items V) (m : ServicePortMap V) (nn : NamespacedName)
      (o : Option ServiceImport)
      → Tracks w items m
      → Named nn o
      → Tracks (set_import w nn o) (update_changes factory items (w nn) o).0 m
  unfolding update_changes
  update_changes-Tracks w items m nn o t named = of_imports (w nn) o refl refl
    where
      of_imports :
          (x y : Option ServiceImport)
          → w nn ≡ x
          → o ≡ y
          → Tracks (set_import w nn o) (update_changes factory items x y).0 m
      of_imports none none e f =
          Tracks-world (set_import w nn o) w items m
            (λ n. elim (Bool-cases (same_service nn n)) [
              | inl b ↦ rw b (f ∙ sym e ∙ ap w ((same_service_iff nn n).0 b))
              | inr b ↦ rw b refl
            ])
            t
      of_imports (some p) none e f =
          subst (λ k. Tracks (set_import w nn o) (note_change factory k (some p) none items) m)
            (sym (t.named nn p e))
            (subst (λ y. Tracks (set_import w nn o) (note_change factory nn y none items) m) e
              (subst (λ z. Tracks (set_import w nn o) (note_change factory nn (w nn) z items) m) f
                (note_change-Tracks w items m t nn o named)))
      of_imports x (some c) e f =
          subst (λ k. Tracks (set_import w nn o) (note_change factory k x (some c) items) m)
            (sym (named c f))
            (subst (λ y. Tracks (set_import w nn o) (note_change factory nn y (some c) items) m) e
              (subst (λ z. Tracks (set_import w nn o) (note_change factory nn (w nn) z items) m) f
                (note_change-Tracks w items m t nn o named)))
