-- ===== src/Proxy/Changes/Found.antt =====
-- What is found in a service port map after merge, filter and unmerge, and after a whole change.
use fleetboard.Prelude.{
  ◌≡◌, ◌∙◌, refl, sym, subst, Bool, true, false, List, [], ◌∷◌, Option, none, some, if◌then◌else◌,
  inl, inr, Bool-cases, Option-cases,
}
use fleetboard.Prelude.Text.{Text}
use fleetboard.Prelude.Keyed.{find-cons, find, drop, find-put, find-drop}
use fleetboard.Proxy.Ports.{ServicePortName, same_port, same_port_iff, port_equal}
use fleetboard.Proxy.Changes.{
  ServicePortMap, ServiceImportChange, PortView, entries, is_some, merge, filter_out, unmerge_port,
  with_udp, unmerge, apply_change,
}

abbrev pub or_else : {V : Type 0} → Option V → Option V → Option V
or_else none o = o
or_else (some v) o = some v

module _ {V : Type 0} where
  pub find-merge :
      (j : ServicePortName) (m other : ServicePortMap V)
      → find j (merge m other) ≡ or_else (find j other) (find j m)
  unfolding merge find port_equal
  find-merge j m [] = refl
  find-merge j m ((k, v) ∷ other) = elim (Bool-cases (same_port k j)) [
    | inl e ↦ find-put k j v (merge m other) ∙ rw e refl
    | inr e ↦ find-put k j v (merge m other) ∙ rw e (find-merge j m other)
  ]

  -- A key that is in the other map is so under any name.
  found_as :
      (k j : ServicePortName) (other : ServicePortMap V) (b : Bool)
      → same_port k j ≡ true
      → is_some (find k other) ≡ b
      → is_some (find j other) ≡ b
  found_as k j other b e h = subst (λ i. is_some (find i other) ≡ b) ((same_port_iff k j).0 e) h

  pub find-nil : (j : ServicePortName) → ◌≡◌ {A = Option V} (find j []) none
  unfolding find
  find-nil j = refl

  either : (b : Bool) → ◌≡◌ {A = Option V} (if b then none else none) none
  either true = refl
  either false = refl

  -- The three steps of a change together.
  three_steps :
      (c p o : Option V)
      → (if is_some (if is_some c then none else p) then none else or_else c o)
        ≡ or_else c (if is_some p then none else o)
  three_steps none p o = refl
  three_steps (some v) p o = refl

  find-filter_out :
      (j : ServicePortName) (m other : ServicePortMap V)
      → find j (filter_out m other) ≡ (if is_some (find j other) then none else find j m)
  unfolding filter_out port_equal
  find-filter_out j [] other = rw (find-nil j) (sym (either (is_some (find j other))))
  find-filter_out j ((k, v) ∷ m) other =
      of_test (is_some (find k other)) refl (find-filter_out j m other)
    where
      of_test :
          (b : Bool)
          → is_some (find k other) ≡ b
          → find j (filter_out m other) ≡ (if is_some (find j other) then none else find j m)
          → find j (if b then filter_out m other else (k, v) ∷ filter_out m other)
            ≡ (if is_some (find j other) then none else find j ((k, v) ∷ m))
      of_test true e ih = elim (Bool-cases (same_port k j)) [
        | inl s ↦ ih ∙ rw (found_as k j other true s e) refl
        | inr s ↦ ih ∙ rw (find-cons k j v m, s) refl
      ]
      of_test false e ih = elim (Bool-cases (same_port k j)) [
        | inl s ↦
            rw
              (
                find-cons k j v (filter_out m other),
                find-cons k j v m,
                s,
                found_as k j other false s e,
              )
              refl
        | inr s ↦ rw (find-cons k j v (filter_out m other), find-cons k j v m, s) ih
      ]

  module _ (ports : PortView V) where
    unmerge_step :
        (j k : ServicePortName) (v : V) (m other : ServicePortMap V)
        → (find k m ≡ none)
        → (if is_some (find j other) then none else find j m)
          ≡ (if is_some (find j ((k, v) ∷ other)) then none else find j m)
    unfolding port_equal
    unmerge_step j k v m other e = elim (Bool-cases (same_port k j)) [
      | inl s ↦
          rw (find-cons k j v other, s, subst (λ i. find i m ≡ none) ((same_port_iff k j).0 s) e)
            (either (is_some (find j other)))
      | inr s ↦ rw (find-cons k j v other, s) refl
    ]

    dropped_step :
        (j k : ServicePortName) (v : V) (m other : ServicePortMap V)
        → (if is_some (find j other) then none else find j (drop k m))
          ≡ (if is_some (find j ((k, v) ∷ other)) then none else find j m)
    unfolding port_equal
    dropped_step j k v m other = elim (Bool-cases (same_port k j)) [
      | inl s ↦ rw (find-cons k j v other, find-drop k j m, s) (either (is_some (find j other)))
      | inr s ↦ rw (find-cons k j v other, find-drop k j m, s) refl
    ]

    pub find-unmerge :
        (j : ServicePortName) (m other : ServicePortMap V) (ips : List Text)
        → find j (unmerge ports (m, ips) other).0
          ≡ (if is_some (find j other) then none else find j m)
    unfolding unmerge
    find-unmerge j m [] ips = rw (find-nil j) refl
    find-unmerge j m ((k, v) ∷ other) ips = elim (Option-cases (find k m)) [
      | inl e ↦
          subst
            (λ o.
              find j (unmerge ports (unmerge_port ports k o (m, ips)) other).0
              ≡ (if is_some (find j ((k, v) ∷ other)) then none else find j m))
            (sym e) (find-unmerge j m other ips ∙ unmerge_step j k v m other e)
      | inr (info, e) ↦
          subst
            (λ o.
              find j (unmerge ports (unmerge_port ports k o (m, ips)) other).0
              ≡ (if is_some (find j ((k, v) ∷ other)) then none else find j m))
            (sym e)
            (find-unmerge j (drop k m) other (with_udp ports info ips) ∙ dropped_step j k v m other)
    ]

    -- After a change: what is current, and else what there was before if the change did not have it.
    pub find-apply_change :
        (j : ServicePortName) (m : ServicePortMap V) (ips : List Text)
        (change : ServiceImportChange V)
        → find j (apply_change ports (m, ips) change).0 ≡ (
            or_else
              (find j (entries change.current))
              (if is_some (find j (entries change.previous)) then none else find j m))
    unfolding apply_change
    find-apply_change j m ips change =
        find-unmerge j (merge m (entries change.current))
          (filter_out (entries change.previous) (entries change.current)) ips
        ∙ rw
            (
              find-filter_out j (entries change.previous) (entries change.current),
              find-merge j m (entries change.current),
            )
            (three_steps (find j (entries change.current)) (find j (entries change.previous))
              (find j m))
