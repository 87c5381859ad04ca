-- ===== src/Proxy/Slices/Settled.antt =====
-- What a service's tracker stands for: the slices that the informer reported last.
use fleetboard.Prelude.{
  ◌≡◌, ◌∙◌, refl, sym, ap, subst, Bool, true, false, not, Option, none, some, if◌then◌else◌, inl,
  inr, Bool-cases, ok, arith,
}
use fleetboard.Prelude.Text.{Text, text_eq, text_eq_iff}
use fleetboard.Prelude.Keyed.{Equal, find, put, find-put, Unique, Unique-put}
use fleetboard.Proxy.Slices.{EndpointSliceInfo}
use fleetboard.Proxy.Slices.Cache.{
  InfoByName, EndpointSliceTracker, text_equal, changed_from, note_slice, es_info_changed,
  update_tracker,
}

-- The infos by name, none of a slice that is gone.
abbrev pub Reported : Type 0
Reported = Text → Option EndpointSliceInfo

-- A slice that is not to be removed.
abbrev pub kept : EndpointSliceInfo → Option EndpointSliceInfo
kept info = if info.remove then none else some info

abbrev pub set_reported : Reported → Text → EndpointSliceInfo → Reported
set_reported r name info n = if text_eq name n then kept info else r n

-- What the maps have: nothing, or a pointer.
abbrev pub read : Option (Option EndpointSliceInfo) → Option EndpointSliceInfo
read none = none
read (some o) = o

-- What a name stands for: the pending info, or else the applied one.
abbrev pub effective :
    Option (Option EndpointSliceInfo) → Option (Option EndpointSliceInfo) → Option EndpointSliceInfo
effective none applied = read applied
effective (some none) applied = none
effective (some (some info)) applied = kept info

-- Every pointer of a map is to a slice that is not to be removed.
abbrev pub Lasting : InfoByName → Type 0
Lasting m =
    (n : Text) (o : Option EndpointSliceInfo)
    → find n m ≡ some o
    → (info : EndpointSliceInfo) × (o ≡ some info) × (info.remove ≡ false)

pub record Follows (r : Reported) (t : EndpointSliceTracker) : Type 0 where
  pub unique : Unique t.pending
  pub no_nil : (n : Text) → ¬ (find n t.pending ≡ some none)
  pub lasting : Lasting t.applied
  pub stands : (n : Text) → effective (find n t.pending) (find n t.applied) ≡ r n

module _ (r : Reported) (t : EndpointSliceTracker) (name : Text) (info : EndpointSliceInfo)
    (f : Follows r t) where
  unchanged-Follows :
      effective (find name t.pending) (find name t.applied) ≡ kept info
      → Follows (set_reported r name info) t
  unchanged-Follows e = record {
    unique = f.unique;
    no_nil = f.no_nil;
    lasting = f.lasting;
    stands = λ n. elim (Bool-cases (text_eq name n)) [
      | inl b ↦ rw b (
          subst (λ x. effective (find x t.pending) (find x t.applied) ≡ kept info)
            ((text_eq_iff name n).0 b) e)
      | inr b ↦ rw b (f.stands n)
    ];
  }

  abbrev noted : EndpointSliceTracker
  noted = record { applied = t.applied; pending = put name (some info) t.pending }

  noted-find :
      (n : Text)
      → find n (put name (some info) t.pending)
        ≡ (if text_eq name n then some (some info) else find n t.pending)
  unfolding text_equal
  noted-find n = find-put name n (some info) t.pending

  noted-own :
      (n : Text)
      → text_eq name n ≡ true
      → find n (put name (some info) t.pending) ≡ some (some info)
  noted-own n b = rw (noted-find n, b) refl

  noted-other :
      (n : Text)
      → text_eq name n ≡ false
      → find n (put name (some info) t.pending) ≡ find n t.pending
  noted-other n b = rw (noted-find n, b) refl

  noted-Follows : Follows (set_reported r name info) noted
  noted-Follows = record {
    unique = Unique-put name (some info) t.pending f.unique;
    no_nil = λ n e. elim (Bool-cases (text_eq name n)) [
      | inl b ↦ cc (sym (noted-own n b) ∙ e)
      | inr b ↦ f.no_nil n (sym (noted-other n b) ∙ e)
    ];
    lasting = f.lasting;
    stands = λ n. elim (Bool-cases (text_eq name n)) [
      | inl b ↦ rw (noted-find n, b) refl
      | inr b ↦ rw (noted-find n, b) (f.stands n)
    ];
  }

module _ ⦃infos : Equal (Option EndpointSliceInfo)⦄ where
  -- When a tracker follows the reports so far and the informer reports one more slice that has the
  -- labels of its import, then updatePending, behind the making of the info, does not panic, and the
  -- tracker follows this report too, whether or not it counts as a change.
  pub update_tracker-Follows :
      (r : Reported) (t : EndpointSliceTracker) (name : Text) (info : EndpointSliceInfo)
      → Follows r t
      → (u : EndpointSliceTracker) × (changed : Bool) × (update_tracker t name (some info)
          ≡ ok (u, changed))
        × Follows (set_reported r name info) u
  unfolding update_tracker es_info_changed
  update_tracker-Follows r t name info f =
      of_maps (find name t.pending) (find name t.applied) refl refl
    where
      of_answer :
          (x : Bool)
          → (x ≡ false → effective (find name t.pending) (find name t.applied) ≡ kept info)
          → (u : EndpointSliceTracker) × (changed : Bool) × (note_slice t name (some info) (ok x)
              ≡ ok (u, changed))
            × Follows (set_reported r name info) u
      of_answer false h = (t, false, refl, unchanged-Follows r t name info f (h refl))
      of_answer true h = (noted r t name info f, true, refl, noted-Follows r t name info f)

      equal :
          (o : Option EndpointSliceInfo) → not (infos.same (some info) o) ≡ false → o ≡ some info
      equal o h = sym ((infos.same_iff (some info) o).0 (ground arith))

      removed : (i j : EndpointSliceInfo) → some i ≡ some j → j.remove ≡ false → i.remove ≡ false
      removed i j x y = cc

      gone : (b : Bool) → not b ≡ false → b ≡ true
      gone true x = refl
      gone false x = cc

      of_maps :
          (p a : Option (Option EndpointSliceInfo))
          → find name t.pending ≡ p
          → find name t.applied ≡ a
          → (u : EndpointSliceTracker) × (changed : Bool) × (note_slice t name
                (some info)
                (changed_from p a (some info))
              ≡ ok (u, changed))
            × Follows (set_reported r name info) u
      of_maps (some q) a e g =
          of_answer (not (infos.same (some info) q)) (λ h. rw (e, equal q h) refl)
      of_maps none (some q) e g = of_answer (not (infos.same (some info) q)) (λ h.
          let (i, same, lasts) = f.lasting name q g in
          rw (e, g)
            (equal q h
              ∙ sym (
                  ap (λ b. if b then none else some info)
                    (removed info i (sym (equal q h) ∙ same) lasts))))
      of_maps none none e g =
          of_answer (not info.remove)
            (λ h. rw (e, g) (sym (ap (λ b. if b then none else some info) (gone info.remove h))))
