-- ===== src/Services/Sync/Collected.antt =====
-- What the goroutines that apply the slices of a handler achieve, for the schedules in which none
-- assigns `err` between the assignment and the test of another.
use fleetboard.Prelude.{
  ℕ, map, ◌≡◌, ◌∙◌, refl, sym, ap, subst, Bool, true, false, List, [], ◌∷◌, Option, none,
  if◌then◌else◌, Error, done, failed, Result, ok, panic, All, inl, arith,
}
use fleetboard.Prelude.Text.{Text}
use fleetboard.Services.Api.{SliceApi, Slice, is_slice}
use fleetboard.Services.Apply.{
  Progress, applying, assigned, leaving, Goroutine, goroutine, is_error, quiet, apply_slice, Shared,
  assign, send, turn, run, unraced, finish_turns, wait, started, outcome, apply_all,
}
use fleetboard.Services.Sync.Applied.{Applied, Applied-kept}
use fleetboard.Services.Sync.Turns.{
  DistinctKeys, is_slice_sym, Clean, Inv, Later, Later-refl, Later-trans, send-Later, send-Clean,
  assign-Later, assign-Inv, not_error,
}
use fleetboard.Services.Sync.Fair.{
  slices_of, Invs, Others, turn-slices, turn-Later, Others-Invs, turn-Invs,
}

slices_of-goroutine : (slices : List Slice) → slices_of (map goroutine slices) ≡ slices
slices_of-goroutine [] = refl
slices_of-goroutine (s ∷ slices) = ap (λ l. s ∷ l) (slices_of-goroutine slices)

goroutine-quiet : (slices : List Slice) → quiet (map goroutine slices) ≡ true
unfolding quiet
goroutine-quiet [] = refl
goroutine-quiet (s ∷ slices) = goroutine-quiet slices

module _ {State : Type 0} (api : SliceApi State) where
  run-Later :
      (schedule : List ℕ) (v : Shared api) (gs : List Goroutine) (s : Slice)
      → Others api s (slices_of gs)
      → Later api v (run api schedule v gs).0 s × Others api s (slices_of (run api schedule v gs).1)
  unfolding run
  run-Later [] v gs s h = (Later-refl api v s, h)
  run-Later (i ∷ schedule) v gs s h =
      let r = turn api i v gs in
      let (l, k) =
        run-Later schedule r.0 r.1 s (subst (Others api s) (sym (turn-slices api i v gs)) h) in
      (Later-trans api v r.0 (run api schedule r.0 r.1).0 s (turn-Later api i v gs s h) l, k)

  run-slices :
      (schedule : List ℕ) (v : Shared api) (gs : List Goroutine)
      → slices_of (run api schedule v gs).1 ≡ slices_of gs
  unfolding run
  run-slices [] v gs = refl
  run-slices (i ∷ schedule) v gs =
      run-slices schedule (turn api i v gs).0 (turn api i v gs).1 ∙ turn-slices api i v gs

  run-Invs :
      (schedule : List ℕ) (v : Shared api) (gs : List Goroutine)
      → DistinctKeys (slices_of gs)
      → unraced api schedule v gs ≡ true
      → Invs api v gs
      → Invs api (run api schedule v gs).0 (run api schedule v gs).1
        × (quiet (run api schedule v gs).1 ≡ true)
  unfolding run unraced
  run-Invs [] v gs d q inv = (inv, q)
  run-Invs (i ∷ schedule) v gs d q inv =
      run-Invs schedule (turn api i v gs).0 (turn api i v gs).1
        (subst DistinctKeys (sym (turn-slices api i v gs)) d) (ground arith)
        (turn-Invs api i v gs d (λ e. ground arith) inv)

  -- The rest of a goroutine, for its own slice and for another.
  sent-Applied :
      (v : Shared api) (s : Slice)
      → Inv api v s assigned
      → Clean api (send api (is_error v.last) v)
      → Applied api (send api (is_error v.last) v).server s
  sent-Applied v s i c =
      let l = send-Later api (is_error v.last) v s in
      Applied-kept api v.server (send api (is_error v.last) v).server s l.view
        (i (l.back c) (not_error api v.last (send-Clean api (is_error v.last) v c)))

  finish_turns-Applied :
      (v : Shared api) (s : Slice) (p : Progress)
      → Inv api v s p
      → Clean api (finish_turns api v s p)
      → Applied api (finish_turns api v s p).server s
  finish_turns-Applied v s applying i c = sent-Applied (assign api v s) s (assign-Inv api v s) c
  finish_turns-Applied v s assigned i c = sent-Applied v s i c
  finish_turns-Applied v s (leaving b) i c =
      let l = send-Later api b v s in
      Applied-kept api v.server (send api b v).server s l.view (i (l.back c) (send-Clean api b v c))

  finish_turns-Later :
      (v : Shared api) (u s : Slice) (p : Progress)
      → is_slice s.namespace s.name u ≡ false
      → Later api v (finish_turns api v u p) s
  finish_turns-Later v u s applying h =
      let w = assign api v u in
      Later-trans api v w (send api (is_error w.last) w) s (assign-Later api v u s h)
        (send-Later api (is_error w.last) w s)
  finish_turns-Later v u s assigned h = send-Later api (is_error v.last) v s
  finish_turns-Later v u s (leaving b) h = send-Later api b v s

  wait-Later :
      (v : Shared api) (gs : List Goroutine) (s : Slice)
      → Others api s (slices_of gs)
      → Later api v (wait api v gs) s
  unfolding wait
  wait-Later v [] s h = Later-refl api v s
  wait-Later v (g ∷ gs) s (h, hs) =
      let w = finish_turns api v g.slice g.progress in
      Later-trans api v w (wait api w gs) s (finish_turns-Later v g.slice s g.progress h)
        (wait-Later w gs s hs)

  wait-Applied :
      (v : Shared api) (gs : List Goroutine)
      → DistinctKeys (slices_of gs)
      → quiet gs ≡ true
      → Invs api v gs
      → Clean api (wait api v gs)
      → All (Applied api (wait api v gs).server) (slices_of gs)
  unfolding wait quiet
  wait-Applied v [] d q inv c = tt
  wait-Applied v (g ∷ gs) (d, ds) q (i, inv) c =
      let w = finish_turns api v g.slice g.progress in
      let l = wait-Later w gs g.slice d in
      (
        Applied-kept api w.server (wait api w gs).server g.slice l.view
            (finish_turns-Applied v g.slice g.progress i (l.back c)),
        wait-Applied w gs ds (ground arith)
            (Others-Invs api v w g.slice gs
              (λ u h. finish_turns-Later v g.slice u g.progress (is_slice_sym g.slice u h)) d
              (inl (ground arith)) inv)
            c,
      )

  goroutine-Invs : (v : Shared api) (slices : List Slice) → Invs api v (map goroutine slices)
  goroutine-Invs v [] = tt
  goroutine-Invs v (s ∷ slices) = (tt, goroutine-Invs v slices)

  outcome-Clean : (v : Shared api) (l : Option Error) → (outcome api v).1 ≡ ok ([], l) → Clean api v
  outcome-Clean v l h = of_crash v.crashed refl h
    where
      of_crash :
          (b : Bool)
          → v.crashed ≡ b
          → ◌≡◌ {A = Result (List (Option Error) × Option Error)}
              (if b then panic else ok (v.sent, v.last))
              (ok ([], l))
          → Clean api v
      of_crash true e k = absurd (cc k)
      of_crash false e k = record { silent = cc k; alive = e }

  -- What the slices' goroutines leave alone, whatever the schedule.
  pub apply_all-kept :
      (schedule : List ℕ) (t : State) (slices : List Slice) (namespace name : Text)
      → All (λ u. is_slice namespace name u ≡ false) slices
      → api.view (apply_all api schedule t slices).0 namespace name ≡ api.view t namespace name
  unfolding apply_all
  apply_all-kept schedule t slices namespace name h =
      let key : Slice = record {
        name = name;
        namespace = namespace;
        labels = [];
        content = record { address_type = []; endpoints = []; ports = [] };
      } in
      let v = started api t in
      let gs = map goroutine slices in
      let (l, k) =
        run-Later schedule v gs key (subst (Others api key) (sym (slices_of-goroutine slices)) h) in
      let m = wait-Later (run api schedule v gs).0 (run api schedule v gs).1 key k in
      m.view ∙ l.view

  -- In other schedules a failure can be lost: the first of two calls fails, and before its goroutine
  -- tests `err` the second succeeds. Then no error is sent, though the first slice was not applied.
  apply_all-lost :
      (t v w : State) (s u : Slice) (e : Error)
      → apply_slice api t s ≡ (v, failed e)
      → apply_slice api v u ≡ (w, done)
      → (apply_all api (0 ∷ 1 ∷ 0 ∷ 1 ∷ []) t (s ∷ u ∷ [])).1 ≡ ok ([], none)
  unfolding apply_all run turn wait assign
  apply_all-lost t v w s u e f d = simp (f, d)

  -- When no goroutine of a handler assigns the shared `err` while another has assigned it and not
  -- tested it yet, and the goroutines send no error, then every slice is on the server, with its
  -- content, provided that no two of the slices have the same namespace and name. The goroutines can
  -- take their turns in any such order.
  pub apply_all-Applied :
      (schedule : List ℕ) (t : State) (slices : List Slice) (l : Option Error)
      → unraced api schedule (started api t) (map goroutine slices) ≡ true
      → DistinctKeys slices
      → (apply_all api schedule t slices).1 ≡ ok ([], l)
      → All (Applied api (apply_all api schedule t slices).0) slices
  unfolding apply_all
  apply_all-Applied schedule t slices l fair d h =
      let v = started api t in
      let gs = map goroutine slices in
      let r = run api schedule v gs in
      let e = slices_of-goroutine slices in
      let (inv, q) =
        run-Invs schedule v gs (subst DistinctKeys (sym e) d) fair (goroutine-Invs v slices) in
      let same = run-slices schedule v gs ∙ e in
      subst (All (Applied api (wait api r.0 r.1).server)) same (
        wait-Applied r.0 r.1 (subst DistinctKeys (sym same) d) q inv
          (outcome-Clean (wait api r.0 r.1) l h))
