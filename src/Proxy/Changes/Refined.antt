-- ===== src/Proxy/Changes/Refined.antt =====
-- The proxier's map of service ports against the imports that the informer reported. The reports and
-- the syncs come in any order, as steps of a machine.
use fleetboard.Prelude.{
  List, [], ◌∷◌, Bool-cases, inl, inr, refl, ◌∙◌, sym, ap, subst, if◌then◌else◌, List, ◌≡◌, ◌∙◌,
  refl, sym, ap, subst, false, Option, none, some, if◌then◌else◌, inl, inr, Bool-cases,
}
use fleetboard.Prelude.Keyed.{same_refl, find-cons, Equal, find}
use fleetboard.Proxy.Ports.{
  ServicePortName, NamespacedName, ServiceImport, Factory, same_service, same_service_iff,
  service_equal, port_equal, service_import_to_service_map,
}
use fleetboard.Proxy.Changes.{
  apply_changes, apply_change, is_some, Text, ServicePortMap, ServiceImportChange, Items, PortView,
  entries, previous_ports, update_changes, update_service_map,
}
use fleetboard.Proxy.Changes.Sound.{service_import_to_service_map-other}
use fleetboard.Proxy.Changes.Found.{or_else, find-apply_change}
use fleetboard.Proxy.Changes.Tracked.{
  World, set_import, Named, Tracks, ports_of, base, update_changes-Tracks,
}

module _ {V : Type 0} ⦃values : Equal V⦄ (factory : Factory V) (ports : PortView V) where
  -- The imports, and what the proxier has.
  pub record Node : Type 0 where
    pub world : World
    pub items : Items V
    pub service_map : ServicePortMap V

  -- The informer reports an import that is added, changed or deleted, with what it was before.
  abbrev pub reported : Node → NamespacedName → Option ServiceImport → Node
  reported n nn o = record {
    world = set_import n.world nn o;
    items = (update_changes factory n.items (n.world nn) o).0;
    service_map = n.service_map;
  }

  -- The proxier applies the changes.
  abbrev pub synced : Node → Node
  synced n = record {
    world = n.world;
    items = (update_service_map ports n.service_map n.items).0.1;
    service_map = (update_service_map ports n.service_map n.items).0.0;
  }

  pub data Step : Node → Node → Type 0 where
    report :
        (n : Node) (nn : NamespacedName) (o : Option ServiceImport)
        → Named nn o
        → Step n (reported n nn o)
    sync : (n : Node) → Step n (synced n)

  pub data Reach (s : Node) : Node → Type 0 where
    here : Reach s s
    next : {t u : Node} → Reach s t → Step t u → Reach s u

  -- Where a change is applied, its own ports become current and the others stay.
  applied_port : (c p o : Option V) → o ≡ p → or_else c (if is_some p then none else o) ≡ c
  applied_port none none o h = h
  applied_port none (some v) o h = refl
  applied_port (some v) p o h = refl

  find-head :
      (nn : NamespacedName) (c : ServiceImportChange V) (items : Items V)
      → find nn ((nn, c) ∷ items) ≡ some c
  find-head nn c items = find-cons nn nn c items ∙ rw (same_refl nn) refl

  find-tail :
      (nn n : NamespacedName) (c : ServiceImportChange V) (items : Items V)
      → same_service nn n ≡ false
      → find n ((nn, c) ∷ items) ≡ find n items
  unfolding service_equal
  find-tail nn n c items h = find-cons nn n c items ∙ rw h refl

  find-tail_some :
      (nn n : NamespacedName) (c : ServiceImportChange V) (items : Items V)
      {d : ServiceImportChange V}
      → find nn items ≡ none
      → find n items ≡ some d
      → find n ((nn, c) ∷ items) ≡ some d
  find-tail_some nn n c items u e = elim (Bool-cases (same_service nn n)) [
    | inl b ↦ absurd (cc (subst (λ x. find x items ≡ none) ((same_service_iff nn n).0 b) u))
    | inr b ↦ find-tail nn n c items b ∙ e
  ]

  module _ (w : World) (nn : NamespacedName) (c : ServiceImportChange V) (items : Items V)
      (m : ServicePortMap V) (ips : List Text) (t : Tracks factory w ((nn, c) ∷ items) m) where
    is_current : c.current ≡ ports_of factory w nn
    is_current = t.current nn (find-head nn c items)

    apply_change-own :
        (j : ServicePortName)
        → nn ≡ j.service
        → find j (apply_change ports (m, ips) c).0
          ≡ find j (entries (base factory w items j.service))
    apply_change-own j e =
        find-apply_change ports j m ips c
        ∙ applied_port (find j (entries c.current)) (find j (entries c.previous)) (find j m) (
            t.found j
            ∙ ap (λ x. find j (entries (previous_ports x (ports_of factory w j.service))))
                (subst (λ x. find x ((nn, c) ∷ items) ≡ some c) e (find-head nn c items)))
        ∙ ap (λ x. find j (entries x)) is_current
        ∙ ap (λ x. find j (entries (ports_of factory w x))) e
        ∙ ap (λ x. find j (entries (previous_ports x (ports_of factory w j.service))))
            (sym (subst (λ x. find x items ≡ none) e t.unique.0))

    apply_change-other :
        (j : ServicePortName)
        → same_service nn j.service ≡ false
        → find j (apply_change ports (m, ips) c).0
          ≡ find j (entries (base factory w items j.service))
    apply_change-other j b =
        find-apply_change ports j m ips c
        ∙ rw
            (
              t.own nn j (find-head nn c items) b,
              is_current,
              service_import_to_service_map-other factory (w nn) nn j (t.named nn) b,
            )
            (t.found j
              ∙ ap (λ x. find j (entries (previous_ports x (ports_of factory w j.service))))
                  (find-tail nn j.service c items b))

    apply_change-Tracks : Tracks factory w items (apply_change ports (m, ips) c).0
    apply_change-Tracks = record {
      named = t.named;
      unique = t.unique.1;
      current = λ n e. t.current n (find-tail_some nn n c items t.unique.0 e);
      own = λ n j e. t.own n j (find-tail_some nn n c items t.unique.0 e);
      found = λ j. elim (Bool-cases (same_service nn j.service)) [
        | inl b ↦ apply_change-own j ((same_service_iff nn j.service).0 b)
        | inr b ↦ apply_change-other j b
      ];
    }

  apply_changes-Tracks :
      (w : World) (items : Items V) (s : ServicePortMap V × List Text)
      → Tracks factory w items s.0
      → Tracks factory w [] (apply_changes ports s items).0
  unfolding apply_changes
  apply_changes-Tracks w [] s t = t
  apply_changes-Tracks w ((nn, c) ∷ items) s t =
      apply_changes-Tracks w items (apply_change ports s c)
        (apply_change-Tracks w nn c items s.0 s.1 t)

  abbrev pub TracksNode : Node → Type 0
  TracksNode n = Tracks factory n.world n.items n.service_map

  Step-Tracks : {s t : Node} → Step s t → TracksNode s → TracksNode t
  unfolding update_service_map
  Step-Tracks (report n nn o named) t =
      update_changes-Tracks factory n.world n.items n.service_map nn o t named
  Step-Tracks (sync n) t = apply_changes-Tracks n.world n.items (n.service_map, []) t

  -- A proxier that has just started.
  abbrev pub start : Node
  start = record { world = λ n. none; items = []; service_map = [] }

  start-Tracks : TracksNode start
  unfolding service_import_to_service_map find
  start-Tracks = record {
    named = λ nn si e. cc;
    unique = tt;
    current = λ nn e. absurd (no_item nn e);
    own = λ nn j e h. absurd (no_item nn e);
    found = λ j. refl;
  }
    where
      no_item : (nn : NamespacedName) {c : ServiceImportChange V} → ¬ (find nn [] ≡ some c)
      no_item nn e = cc

  pub Reach-Tracks : {s t : Node} → TracksNode s → Reach s t → TracksNode t
  Reach-Tracks h here = h
  Reach-Tracks h (next r step) = Step-Tracks step (Reach-Tracks h r)

  -- Whatever reports and syncs came before, in any order, as long as each report tells what the import
  -- was before, after a sync the proxier's map has for every service port what the import of that name
  -- has for it now, and nothing else; and no change is pending.
  pub synced-refines :
      {n : Node}
      → Reach start n
      → (j : ServicePortName)
      → (find j (synced n).service_map ≡ find j (entries (ports_of factory n.world j.service)))
        × ((synced n).items ≡ [])
  unfolding update_service_map find
  synced-refines {n} r j = ((Step-Tracks (sync n) (Reach-Tracks start-Tracks r)).found j, refl)
