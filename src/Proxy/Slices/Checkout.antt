-- ===== src/Proxy/Slices/Checkout.antt =====
-- What checkoutChanges makes of a service's tracker.
use fleetboard.Prelude.{
  ◌≡◌, ◌∙◌, refl, sym, subst, Bool, true, false, [], ◌∷◌, Option, none, some, if◌then◌else◌, inl,
  inr, Bool-cases, ok,
}
use fleetboard.Prelude.Text.{Text, text_eq, text_eq_iff}
use fleetboard.Prelude.Keyed.{
  find, put, drop, find-put, find-drop, find-cons, find-nil, same_refl, Unique,
}
use fleetboard.Proxy.Slices.{EndpointSliceInfo}
use fleetboard.Proxy.Slices.Cache.{
  InfoByName, EndpointSliceTracker, text_equal, apply_slice_info, apply_pending,
}
use fleetboard.Proxy.Slices.Settled.{Reported, kept, read, effective, Lasting, Follows}

module _ (name : Text) (info : EndpointSliceInfo) (applied : InfoByName) where
  applied-own : read (find name (apply_slice_info name info applied)) ≡ kept info
  applied-own = of_test info.remove
    where
      of_test :
          (b : Bool)
          → read (find name (if b then drop name applied else put name (some info) applied))
            ≡ (if b then none else some info)
      of_test true = rw (find-drop name name applied, same_refl name) refl
      of_test false = rw (find-put name name (some info) applied, same_refl name) refl

  applied-Lasting : Lasting applied → Lasting (apply_slice_info name info applied)
  unfolding text_equal
  applied-Lasting l = of_test info.remove refl
    where
      put_case :
          (x : Bool) (n : Text) (o : Option EndpointSliceInfo)
          → info.remove ≡ false
          → text_eq name n ≡ x
          → (if x then some (some info) else find n applied) ≡ some o
          → (i : EndpointSliceInfo) × (o ≡ some i) × (i.remove ≡ false)
      put_case true n o r e h = (info, cc, r)
      put_case false n o r e h = l n o h

      drop_case :
          (x : Bool) (n : Text) (o : Option EndpointSliceInfo)
          → (if x then none else find n applied) ≡ some o
          → (i : EndpointSliceInfo) × (o ≡ some i) × (i.remove ≡ false)
      drop_case true n o h = cc
      drop_case false n o h = l n o h

      of_test :
          (b : Bool)
          → info.remove ≡ b
          → Lasting (if b then drop name applied else put name (some info) applied)
      of_test true r n o h = drop_case (text_eq name n) n o (sym (find-drop name n applied) ∙ h)
      of_test false r n o h =
          put_case (text_eq name n) n o r refl (sym (find-put name n (some info) applied) ∙ h)

  applied-other :
      (n : Text)
      → text_eq name n ≡ false
      → find n (apply_slice_info name info applied) ≡ find n applied
  unfolding text_equal
  applied-other n h = of_test info.remove
    where
      of_test :
          (b : Bool)
          → find n (if b then drop name applied else put name (some info) applied) ≡ find n applied
      of_test true = rw (find-drop name n applied, h) refl
      of_test false = rw (find-put name n (some info) applied, h) refl

effective-cons :
    (k : Text) (info : EndpointSliceInfo) (pending applied : InfoByName) (n : Text)
    → find k pending ≡ none
    → effective (find n pending) (find n (apply_slice_info k info applied))
      ≡ effective (find n ((k, some info) ∷ pending)) (find n applied)
unfolding text_equal
effective-cons k info pending applied n e = elim (Bool-cases (text_eq k n)) [
  | inl b ↦
      subst
        (λ x.
          effective (find x pending) (find x (apply_slice_info k info applied))
          ≡ effective (find x ((k, some info) ∷ pending)) (find x applied))
        ((text_eq_iff k n).0 b)
        (rw (e, find-cons k k (some info) pending, same_refl k) (applied-own k info applied))
  | inr b ↦ rw (applied-other k info applied n b, find-cons k n (some info) pending, b) refl
]

no_nil-tail :
    (k : Text) (info : EndpointSliceInfo) (pending : InfoByName)
    → find k pending ≡ none
    → ((n : Text) → ¬ (find n ((k, some info) ∷ pending) ≡ some none))
    → (n : Text) → ¬ (find n pending ≡ some none)
unfolding text_equal
no_nil-tail k info pending e h n x = elim (Bool-cases (text_eq k n)) [
  | inl b ↦ cc (subst (λ y. find y pending ≡ none) ((text_eq_iff k n).0 b) e)
  | inr b ↦ h n (find-cons k n (some info) pending ∙ rw b x)
]

apply_pending-read :
    (applied pending : InfoByName)
    → Unique pending
    → ((n : Text) → ¬ (find n pending ≡ some none))
    → Lasting applied
    → (u : InfoByName) × (apply_pending applied pending ≡ ok u)
      × ((n : Text) → read (find n u) ≡ effective (find n pending) (find n applied))
      × Lasting u
unfolding apply_pending
apply_pending-read applied [] u h l = (applied, refl, (λ n. rw (find-nil n) refl), l)
apply_pending-read applied ((k, none) ∷ pending) (e, u) h l =
    absurd (h k (find-cons k k none pending ∙ rw (same_refl k) refl))
apply_pending-read applied ((k, some info) ∷ pending) (e, u) h l =
    let (v, g, at, lv) =
      apply_pending-read (apply_slice_info k info applied) pending u
        (no_nil-tail k info pending e h) (applied-Lasting k info applied l) in
    (v, g, (λ n. at n ∙ effective-cons k info pending applied n e), lv)

-- When a tracker follows the reports, the loop of checkoutChanges over its pending slices comes to its
-- end without a panic; what is applied then is what was reported last for every slice, with the slices
-- that are gone left out, and the tracker, of which nothing is pending, still follows the reports.
pub apply_pending-Follows :
    (r : Reported) (t : EndpointSliceTracker)
    → Follows r t
    → (u : InfoByName) × (apply_pending t.applied t.pending ≡ ok u)
      × ((n : Text) → read (find n u) ≡ r n)
      × Follows r (record { applied = u; pending = [] })
apply_pending-Follows r t f =
    let (u, e, at, l) = apply_pending-read t.applied t.pending f.unique f.no_nil f.lasting in
    (
      u,
      e,
      (λ n. at n ∙ f.stands n),
      record {
        unique = tt;
        no_nil = λ n x. cc (find-nil n);
        lasting = l;
        stands = λ n. rw (find-nil n) (at n ∙ f.stands n);
      },
    )
