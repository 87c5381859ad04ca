-- ===== src/Services/Sync/Fair.antt =====
-- A turn among all goroutines that apply the slices of a handler, when it is not the start of one while
-- another has assigned `err` and not tested it yet.
use fleetboard.Prelude.{
  ◌⊎◌, ℕ, zero, suc, ◌≡◌, refl, ap, Bool, true, false, not, ◌&&◌, List, [], ◌∷◌, All, inl, inr,
  arith,
}
use fleetboard.Services.Api.{SliceApi, Slice, is_slice}
use fleetboard.Services.Apply.{
  is_applying, Progress, applying, assigned, leaving, Goroutine, is_assigned, starts, quiet, Shared,
  step, turn,
}
use fleetboard.Services.Sync.Turns.{
  DistinctKeys, is_slice_sym, Inv, Later, Later-Inv, Later-refl, step-Inv, step-Later,
}

abbrev pub slices_of : List Goroutine → List Slice
slices_of [] = []
slices_of (g ∷ gs) = g.slice ∷ slices_of gs

module _ {State : Type 0} (api : SliceApi State) where
  abbrev pub Invs : Shared api → List Goroutine → Type 0
  Invs v gs = All (λ g. Inv api v g.slice g.progress) gs

  -- No goroutine is for the slice `s`.
  abbrev pub Others : Slice → List Slice → Type 0
  Others s slices = All (λ u. is_slice s.namespace s.name u ≡ false) slices

  pub turn-slices :
      (i : ℕ) (v : Shared api) (gs : List Goroutine) → slices_of (turn api i v gs).1 ≡ slices_of gs
  unfolding turn
  turn-slices i v [] = refl
  turn-slices zero v (g ∷ gs) = refl
  turn-slices (suc i) v (g ∷ gs) = ap (λ l. g.slice ∷ l) (turn-slices i v gs)

  pub turn-Later :
      (i : ℕ) (v : Shared api) (gs : List Goroutine) (s : Slice)
      → Others s (slices_of gs)
      → Later api v (turn api i v gs).0 s
  unfolding turn
  turn-Later i v [] s h = Later-refl api v s
  turn-Later zero v (g ∷ gs) s (h, hs) = step-Later api v g.slice s g.progress h
  turn-Later (suc i) v (g ∷ gs) s (h, hs) = turn-Later i v gs s hs

  step-last :
      (v : Shared api) (s : Slice) (p : Progress)
      → is_applying p ≡ false
      → (step api v s p).0.last ≡ v.last
  step-last v s applying h = cc
  step-last v s assigned h = refl
  step-last v s (leaving true) h = refl
  step-last v s (leaving false) h = refl

  turn-last :
      (i : ℕ) (v : Shared api) (gs : List Goroutine)
      → starts i gs ≡ false
      → (turn api i v gs).0.last ≡ v.last
  unfolding turn starts
  turn-last i v [] h = refl
  turn-last zero v (g ∷ gs) h = step-last v g.slice g.progress h
  turn-last (suc i) v (g ∷ gs) h = turn-last i v gs h

  -- The goroutines whose turn it is not.
  pub Others-Invs :
      (v w : Shared api) (s : Slice) (gs : List Goroutine)
      → ((u : Slice) → is_slice s.namespace s.name u ≡ false → Later api v w u)
      → Others s (slices_of gs)
      → (quiet gs ≡ true) ⊎ (w.last ≡ v.last)
      → Invs v gs
      → Invs w gs
  unfolding quiet
  Others-Invs v w s [] l h q inv = tt
  Others-Invs v w s (g ∷ gs) l (h, hs) q (i, inv) = (
    Later-Inv api v w g.slice g.progress (l g.slice h) (same q) i,
    Others-Invs v w s gs l hs (rest q) inv,
  )
    where
      same :
          ((not (is_assigned g.progress) && quiet gs) ≡ true) ⊎ (w.last ≡ v.last)
          → is_assigned g.progress ≡ true
          → w.last ≡ v.last
      same (inl e) a = absurd (not_both (is_assigned g.progress) (quiet gs) e a)
        where
          not_both : (x y : Bool) → (not x && y) ≡ true → x ≡ true → ⊥
          not_both true y p q = cc
          not_both false y p q = cc
      same (inr e) a = e

      rest :
          ((not (is_assigned g.progress) && quiet gs) ≡ true) ⊎ (w.last ≡ v.last)
          → (quiet gs ≡ true) ⊎ (w.last ≡ v.last)
      rest (inl e) = inl (ground arith)
      rest (inr e) = inr e

  pub turn-Invs :
      (i : ℕ) (v : Shared api) (gs : List Goroutine)
      → DistinctKeys (slices_of gs)
      → (starts i gs ≡ true → quiet gs ≡ true)
      → Invs v gs
      → Invs (turn api i v gs).0 (turn api i v gs).1
  unfolding turn starts quiet
  turn-Invs i v [] d q inv = tt
  turn-Invs zero v (g ∷ gs) (d, ds) q (i, inv) = (
    step-Inv api v g.slice g.progress i,
    Others-Invs v (step api v g.slice g.progress).0 g.slice gs
        (λ u h. step-Later api v g.slice u g.progress (is_slice_sym g.slice u h)) d
        (fair (is_applying g.progress) refl) inv,
  )
    where
      fair :
          (b : Bool)
          → is_applying g.progress ≡ b
          → (quiet gs ≡ true) ⊎ ((step api v g.slice g.progress).0.last ≡ v.last)
      fair true e = inl (let h = q e in ground arith)
      fair false e = inr (step-last v g.slice g.progress e)
  turn-Invs (suc j) v (g ∷ gs) (d, ds) q (i, inv) = (
    Later-Inv api v (turn api j v gs).0 g.slice g.progress (turn-Later j v gs g.slice d) same i,
    turn-Invs j v gs ds (λ e. let h = q e in ground arith) inv,
  )
    where
      same : is_assigned g.progress ≡ true → (turn api j v gs).0.last ≡ v.last
      same a = of_starts (starts j gs) refl
        where
          of_starts : (b : Bool) → starts j gs ≡ b → (turn api j v gs).0.last ≡ v.last
          of_starts true e = absurd (let h = q e in ground arith)
          of_starts false e = turn-last j v gs e
