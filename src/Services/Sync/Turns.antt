-- ===== src/Services/Sync/Turns.antt =====
-- One turn of the goroutines that apply the slices of a handler: what it does to the own slice, and
-- what it leaves of those of the others.
use fleetboard.Prelude.{
  ◌≡◌, ◌∙◌, refl, sym, Bool, true, false, List, [], ◌∷◌, ◌++◌, Option, none, some, if◌then◌else◌,
  Error, Status, done, failed, panicked, All, arith,
}
use fleetboard.Prelude.Text.{text_eq_iff}
use fleetboard.Services.Api.{SliceApi, Slice, is_slice}
use fleetboard.Services.Apply.{
  Progress, applying, assigned, leaving, is_error, is_assigned, apply_slice, Shared, called, assign,
  send, step,
}
use fleetboard.Services.Sync.Applied.{Applied, Applied-kept, apply_slice-kept, apply_slice-Applied}

-- Slices of which no two have the same namespace and name.
abbrev pub DistinctKeys : List Slice → Type 0
DistinctKeys [] = Unit
DistinctKeys (s ∷ slices) =
    All (λ u. is_slice s.namespace s.name u ≡ false) slices × DistinctKeys slices

pub is_slice_sym :
    (s u : Slice) → is_slice s.namespace s.name u ≡ false → is_slice u.namespace u.name s ≡ false
is_slice_sym s u h = ground (
  arith,
  text_eq_iff s.namespace u.namespace,
  text_eq_iff u.namespace s.namespace,
  text_eq_iff s.name u.name,
  text_eq_iff u.name s.name,
)

module _ {State : Type 0} (api : SliceApi State) where
  -- Nothing was sent, and nothing panicked.
  pub record Clean (v : Shared api) : Type 0 where
    pub silent : v.sent ≡ []
    pub alive : v.crashed ≡ false

  -- What holds of a goroutine's slice while nothing is sent.
  abbrev pub Inv : Shared api → Slice → Progress → Type 0
  Inv v s applying = Unit
  Inv v s assigned = Clean v → v.last ≡ none → Applied api v.server s
  Inv v s (leaving b) = Clean v → b ≡ false → Applied api v.server s

  -- `w` is `v` some steps of other goroutines than that of `s` later.
  pub record Later (v w : Shared api) (s : Slice) : Type 0 where
    pub back : Clean w → Clean v
    pub view : api.view w.server s.namespace s.name ≡ api.view v.server s.namespace s.name

  pub Later-Inv :
      (v w : Shared api) (s : Slice) (p : Progress)
      → Later v w s
      → (is_assigned p ≡ true → w.last ≡ v.last)
      → Inv v s p
      → Inv w s p
  Later-Inv v w s applying l e i = tt
  Later-Inv v w s assigned l e i =
      λ c k. Applied-kept api v.server w.server s l.view (i (l.back c) (sym (e refl) ∙ k))
  Later-Inv v w s (leaving b) l e i =
      λ c k. Applied-kept api v.server w.server s l.view (i (l.back c) k)

  pub Later-refl : (v : Shared api) (s : Slice) → Later v v s
  Later-refl v s = record { back = λ c. c; view = refl }

  pub Later-trans : (u v w : Shared api) (s : Slice) → Later u v s → Later v w s → Later u w s
  Later-trans u v w s l m = record { back = λ c. l.back (m.back c); view = m.view ∙ l.view }

  sent-nil : (sent : List (Option Error)) (e : Option Error) → (sent ++ (e ∷ [])) ≡ [] → ⊥
  sent-nil [] e h = cc
  sent-nil (x ∷ sent) e h = cc

  pub send-Later : (b : Bool) (v : Shared api) (s : Slice) → Later v (send api b v) s
  send-Later false v s = Later-refl v s
  send-Later true v s = record { back = λ c. absurd (sent-nil v.sent v.last c.silent); view = refl }

  pub send-Clean : (b : Bool) (v : Shared api) → Clean (send api b v) → b ≡ false
  send-Clean false v c = refl
  send-Clean true v c = absurd (sent-nil v.sent v.last c.silent)

  -- The call of a goroutine, for the slice of another and for its own.
  pub assign-Later :
      (v : Shared api) (u s : Slice)
      → is_slice s.namespace s.name u ≡ false
      → Later v (assign api v u) s
  unfolding assign
  assign-Later v u s h = of_crash v.crashed refl
    where
      of_answer :
          (r : State × Status)
          → api.view r.0 s.namespace s.name ≡ api.view v.server s.namespace s.name
          → v.crashed ≡ false
          → Later v (called api v r) s
      of_answer (t, done) e f = record {
        back = λ c. record { silent = c.silent; alive = f };
        view = e;
      }
      of_answer (t, failed x) e f = record {
        back = λ c. record { silent = c.silent; alive = f };
        view = e;
      }
      of_answer (t, panicked) e f = record {
        back = λ c. record { silent = c.silent; alive = f };
        view = e;
      }

      of_crash :
          (b : Bool)
          → v.crashed ≡ b
          → Later v (if b then v else called api v (apply_slice api v.server u)) s
      of_crash true e = Later-refl v s
      of_crash false e =
          of_answer (apply_slice api v.server u)
            (apply_slice-kept api v.server u s.namespace s.name h) e

  pub assign-Inv : (v : Shared api) (s : Slice) → Inv (assign api v s) s assigned
  unfolding assign
  assign-Inv v s = of_crash v.crashed refl
    where
      of_answer :
          (r : State × Status) → (r.1 ≡ done → Applied api r.0 s) → Inv (called api v r) s assigned
      of_answer (t, done) a = λ c k. a refl
      of_answer (t, failed x) a = λ c k. cc
      of_answer (t, panicked) a = λ c k. absurd (alive_not c.alive)
        where
          alive_not : ◌≡◌ {A = Bool} true false → ⊥
          alive_not e = cc

      of_crash :
          (b : Bool)
          → v.crashed ≡ b
          → Inv (if b then v else called api v (apply_slice api v.server s)) s assigned
      of_crash true e = λ c k. cc (e, c.alive)
      of_crash false e = of_answer (apply_slice api v.server s) (apply_slice-Applied api v.server s)

  pub not_error : (o : Option Error) → is_error o ≡ false → o ≡ none
  not_error none h = refl
  not_error (some e) h = cc

  -- A turn, for its own goroutine and for another.
  pub step-Inv :
      (v : Shared api) (s : Slice) (p : Progress)
      → Inv v s p
      → Inv (step api v s p).0 s (step api v s p).1
  step-Inv v s applying i = assign-Inv v s
  step-Inv v s assigned i = λ c k. i c (not_error v.last k)
  step-Inv v s (leaving b) i = λ c k.
      Applied-kept api v.server (send api b v).server s (send-Later b v s).view
        (i ((send-Later b v s).back c) (send-Clean b v c))

  pub step-Later :
      (v : Shared api) (u s : Slice) (p : Progress)
      → is_slice s.namespace s.name u ≡ false
      → Later v (step api v u p).0 s
  step-Later v u s applying h = assign-Later v u s h
  step-Later v u s assigned h = Later-refl v s
  step-Later v u s (leaving b) h = send-Later b v s
