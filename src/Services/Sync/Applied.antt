-- ===== src/Services/Sync/Applied.antt =====
-- What holds of the server's slices after ApplyEndPointSliceWithRetry.
use fleetboard.Prelude.{
  ◌≡◌, ◌∙◌, refl, sym, ap, subst, Bool, true, false, ◌&&◌, List, Option, none, some, if◌then◌else◌,
  Error, already_exists, done, Result, ok, err, panic, arith,
}
use fleetboard.Prelude.Text.{Text, text_eq, text_eq_iff}
use fleetboard.Resync.{Operation, resource_need_resync}
use fleetboard.Services.Api.{SliceApi, Slice, is_slice}
use fleetboard.Services.Apply.{apply_slice, answer, resync, after_create, apply_once}

pub is_slice_iff :
    (namespace name : Text) (s : Slice)
    → is_slice namespace name s ≡ true
    → (s.namespace ≡ namespace) × (s.name ≡ name)
is_slice_iff namespace name s h =
    ((text_eq_iff _ _).0 (ground arith), (text_eq_iff _ _).0 (ground arith))

module _ {State : Type 0} (api : SliceApi State) where
  -- The server has the slice under its name, with its content.
  pub record Applied (t : State) (s : Slice) : Type 0 where
    pub there : Slice
    pub found : api.view t s.namespace s.name ≡ some there
    pub same : there.content ≡ s.content

  pub Applied-kept :
      (t u : State) (s : Slice)
      → api.view u s.namespace s.name ≡ api.view t s.namespace s.name
      → Applied t s
      → Applied u s
  Applied-kept t u s e a = record { there = a.there; found = e ∙ a.found; same = a.same }

  updated-Applied :
      (t : State) (s current : Slice)
      → is_slice s.namespace s.name current ≡ true
      → (answer api (api.update t (record current { content = s.content }))).1 ≡ done
      → Applied (answer api (api.update t (record current { content = s.content }))).0 s
  updated-Applied t s current key h =
      of_answer (api.update t (record current { content = s.content })) refl h
    where
      at_key :
          (v : State)
          → api.view v current.namespace current.name
            ≡ some (record current { content = s.content })
          → Applied v s
      at_key v e =
          let (n, m) = is_slice_iff s.namespace s.name current key in
          record {
            there = record current { content = s.content };
            found =
                subst (λ x. api.view v x s.name ≡ some (record current { content = s.content })) n
                  (subst
                    (λ x.
                      api.view v current.namespace x
                      ≡ some (record current { content = s.content }))
                    m e);
            same = refl;
          }

      of_answer :
          (r : State × Option Error)
          → api.update t (record current { content = s.content }) ≡ r
          → (answer api r).1 ≡ done
          → Applied (answer api r).0 s
      of_answer (v, none) e k = at_key v (
          subst
            (λ q.
              api.view q.0 current.namespace current.name
              ≡ some (record current { content = s.content }))
            e (api.updated t (record current { content = s.content }) (ap (λ q. q.1) e)))
      of_answer (v, some x) e k = cc

  resync-Applied :
      (t : State) (s : Slice) (r : Result Slice)
      → api.get t s.namespace s.name ≡ r
      → (resync api t s r).1 ≡ done
      → Applied (resync api t s r).0 s
  unfolding resource_need_resync
  resync-Applied t s panic e h = cc
  resync-Applied t s (err x) e h = cc
  resync-Applied t s (ok current) e h =
      of_need (resource_need_resync (api.create_patch current s) false) refl h
    where
      there : api.view t s.namespace s.name ≡ some current
      there = api.got t s.namespace s.name e

      same_content :
          (o : Option (List Operation))
          → api.create_patch current s ≡ o
          → resource_need_resync o false ≡ false
          → current.content ≡ s.content
      same_content none p b = absurd (api.patched current s p)
      same_content (some patch) p b = api.unchanged current s p b

      of_need :
          (x : Bool)
          → resource_need_resync (api.create_patch current s) false ≡ x
          → (if x
              then answer api (api.update t (record current { content = s.content }))
              else (t, done)).1
            ≡ done
          → Applied
              (if x
                then answer api (api.update t (record current { content = s.content }))
                else (t, done)).0
              s
      of_need true b k = updated-Applied t s current (api.named t s.namespace s.name there) k
      of_need false b k = record {
        there = current;
        found = there;
        same = same_content (api.create_patch current s) refl b;
      }

  apply_once-Applied :
      (t : State) (s : Slice) → (apply_once api s t).1 ≡ done → Applied (apply_once api s t).0 s
  unfolding apply_once
  apply_once-Applied t s h = of_create (api.create t s) refl h
    where
      of_create :
          (r : State × Option Error)
          → api.create t s ≡ r
          → (after_create api s r).1 ≡ done
          → Applied (after_create api s r).0 s
      of_create (v, none) e k = record {
        there = s;
        found =
            subst (λ q. api.view q.0 s.namespace s.name ≡ some s) e
              (api.created t s (ap (λ q. q.1) e));
        same = refl;
      }
      of_create (v, some already_exists) e k =
          resync-Applied v s (api.get v s.namespace s.name) refl k
      of_create (v, some x) e k = cc

  -- What other keys have is kept.
  answer-kept :
      (r : State × Option Error) (namespace name : Text)
      → api.view (answer api r).0 namespace name ≡ api.view r.0 namespace name
  answer-kept (v, none) namespace name = refl
  answer-kept (v, some e) namespace name = refl

  resync-kept :
      (t : State) (s : Slice) (r : Result Slice) (namespace name : Text)
      → api.get t s.namespace s.name ≡ r
      → is_slice namespace name s ≡ false
      → api.view (resync api t s r).0 namespace name ≡ api.view t namespace name
  resync-kept t s panic namespace name e h = refl
  resync-kept t s (err x) namespace name e h = refl
  resync-kept t s (ok current) namespace name e h =
      of_need (resource_need_resync (api.create_patch current s) false)
    where
      other : is_slice namespace name (record current { content = s.content }) ≡ false
      other =
          let (n, m) =
            is_slice_iff s.namespace s.name current
              (api.named t s.namespace s.name (api.got t s.namespace s.name e)) in
          subst (λ x. (text_eq x namespace && text_eq current.name name) ≡ false) (sym n)
            (subst (λ x. (text_eq s.namespace namespace && text_eq x name) ≡ false) (sym m) h)

      of_need :
          (x : Bool)
          → api.view
              (if x
                then answer api (api.update t (record current { content = s.content }))
                else (t, done)).0
              namespace
              name
            ≡ api.view t namespace name
      of_need true =
          answer-kept (api.update t (record current { content = s.content })) namespace name
          ∙ api.update_keeps t (record current { content = s.content }) namespace name other
      of_need false = refl

  apply_once-kept :
      (t : State) (s : Slice) (namespace name : Text)
      → is_slice namespace name s ≡ false
      → api.view (apply_once api s t).0 namespace name ≡ api.view t namespace name
  unfolding apply_once
  apply_once-kept t s namespace name h =
      of_create (api.create t s) (api.create_keeps t s namespace name h)
    where
      of_create :
          (r : State × Option Error)
          → api.view r.0 namespace name ≡ api.view t namespace name
          → api.view (after_create api s r).0 namespace name ≡ api.view t namespace name
      of_create (v, none) e = e
      of_create (v, some already_exists) e =
          resync-kept v s (api.get v s.namespace s.name) namespace name refl h ∙ e
      of_create (v, some x) e = e

  apply_slice-parts :
      (t : State) (s : Slice)
      → ((namespace name : Text)
          → is_slice namespace name s ≡ false
          → api.view (apply_slice api t s).0 namespace name ≡ api.view t namespace name)
        × ((apply_slice api t s).1 ≡ done → Applied (apply_slice api t s).0 s)
  unfolding apply_slice
  apply_slice-parts t s =
      api.retried (apply_once api s)
        (λ u.
          (namespace name : Text)
          → is_slice namespace name s ≡ false
          → api.view u namespace name ≡ api.view t namespace name)
        (λ u. Applied u s) t (λ namespace name h. refl)
        (λ u p namespace name h. apply_once-kept u s namespace name h ∙ p namespace name h)
        (λ u p. apply_once-Applied u s)

  pub apply_slice-kept :
      (t : State) (s : Slice) (namespace name : Text)
      → is_slice namespace name s ≡ false
      → api.view (apply_slice api t s).0 namespace name ≡ api.view t namespace name
  apply_slice-kept t s = (apply_slice-parts t s).0

  -- When ApplyEndPointSliceWithRetry reports success, the server has the slice under its name, with
  -- its content.
  pub apply_slice-Applied :
      (t : State) (s : Slice) → (apply_slice api t s).1 ≡ done → Applied (apply_slice api t s).0 s
  apply_slice-Applied t s = (apply_slice-parts t s).1
