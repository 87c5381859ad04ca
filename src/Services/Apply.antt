-- ===== src/Services/Apply.antt =====
-- ApplyEndPointSliceWithRetry of utils/endpointslice.go, and the goroutines in which both service
-- controllers call it, one for each slice. They share the variable `err` of the handler: a goroutine
-- assigns it the answer of its call, then tests it, then sends what it holds, and between these any
-- other goroutine can take its turns. A schedule says whose turn it is.
use fleetboard.Prelude.{
  ℕ, zero, suc, map, Bool, true, false, not, ◌&&◌, ◌||◌, List, [], ◌∷◌, ◌++◌, Option, none, some,
  if◌then◌else◌, Error, already_exists, Status, done, failed, panicked, Result, ok, err, panic,
}
use fleetboard.Resync.{resource_need_resync}
use fleetboard.Services.Api.{SliceApi, Slice}

-- Where a goroutine is: before its call, between the assignment and the test, or behind the test,
-- with an error to send or not.
pub data Progress : Type 0 where
  applying assigned : Progress
  leaving : Bool → Progress

pub record Goroutine : Type 0 where
  pub slice : Slice
  pub progress : Progress

abbrev pub goroutine : Slice → Goroutine
goroutine s = record { slice = s; progress = applying }

abbrev pub is_applying : Progress → Bool
is_applying applying = true
is_applying assigned = false
is_applying (leaving b) = false

abbrev pub is_assigned : Progress → Bool
is_assigned applying = false
is_assigned assigned = true
is_assigned (leaving b) = false

abbrev pub is_error : Option Error → Bool
is_error none = false
is_error (some e) = true

-- The goroutine whose turn it is has not made its call yet.
unfoldable pub starts : ℕ → List Goroutine → Bool
starts i [] = false
starts zero (g ∷ gs) = is_applying g.progress
starts (suc i) (g ∷ gs) = starts i gs

-- No goroutine has assigned `err` and not tested it yet.
unfoldable pub quiet : List Goroutine → Bool
quiet [] = true
quiet (g ∷ gs) = not (is_assigned g.progress) && quiet gs

module _ {State : Type 0} (api : SliceApi State) where
  abbrev pub answer : State × Option Error → State × Status
  answer (t, none) = (t, done)
  answer (t, some e) = (t, failed e)

  -- The slice exists: it is updated if it differs.
  abbrev pub resync : State → Slice → Result Slice → State × Status
  resync t slice panic = (t, panicked)
  resync t slice (err e) = (t, failed e)
  resync t slice (ok current) =
      if resource_need_resync (api.create_patch current slice) false
      then answer (api.update t (record current { content = slice.content }))
      else (t, done)

  abbrev pub after_create : Slice → State × Option Error → State × Status
  after_create slice (t, none) = (t, done)
  after_create slice (t, some already_exists) =
      resync t slice (api.get t slice.namespace slice.name)
  after_create slice (t, some e) = (t, failed e)

  -- The closure of ApplyEndPointSliceWithRetry.
  unfoldable pub apply_once : Slice → State → State × Status
  apply_once slice t = after_create slice (api.create t slice)

  -- ApplyEndPointSliceWithRetry
  unfoldable pub apply_slice : State → Slice → State × Status
  unfolding apply_once
  apply_slice t slice = api.retry_on_conflict (apply_once slice) t

  -- What the goroutines share: the server, `err`, what has been sent to errCh, and whether one of them
  -- has panicked, which ends the process.
  pub record Shared : Type 0 where
    pub server : State
    pub last : Option Error
    pub sent : List (Option Error)
    pub crashed : Bool

  abbrev pub called : Shared → State × Status → Shared
  called v (t, done) = record v { server = t; last = none }
  called v (t, failed e) = record v { server = t; last = some e }
  called v (t, panicked) = record v { server = t; crashed = true }

  -- The call and the assignment.
  unfoldable pub assign : Shared → Slice → Shared
  unfolding apply_slice
  assign v s = if v.crashed then v else called v (apply_slice v.server s)

  -- errCh <- err, with what `err` holds now.
  abbrev pub send : Bool → Shared → Shared
  send false v = v
  send true v = record v { sent = v.sent ++ (v.last ∷ []) }

  abbrev pub step : Shared → Slice → Progress → Shared × Progress
  step v s applying = (assign v s, assigned)
  step v s assigned = (v, leaving (is_error v.last))
  step v s (leaving b) = (send b v, leaving false)

  unfoldable pub turn : ℕ → Shared → List Goroutine → Shared × List Goroutine
  unfolding assign
  turn i v [] = (v, [])
  turn zero v (g ∷ gs) =
      let r = step v g.slice g.progress in (r.0, record { slice = g.slice; progress = r.1 } ∷ gs)
  turn (suc i) v (g ∷ gs) = let r = turn i v gs in (r.0, g ∷ r.1)

  unfoldable pub run : List ℕ → Shared → List Goroutine → Shared × List Goroutine
  unfolding turn
  run [] v gs = (v, gs)
  run (i ∷ schedule) v gs = let r = turn i v gs in run schedule r.0 r.1

  -- No goroutine assigns `err` while another has assigned it and not tested it yet.
  unfoldable pub unraced : List ℕ → Shared → List Goroutine → Bool
  unfolding turn starts quiet
  unraced [] v gs = quiet gs
  unraced (i ∷ schedule) v gs =
      let r = turn i v gs in (not (starts i gs) || quiet gs) && unraced schedule r.0 r.1

  abbrev pub finish_turns : Shared → Slice → Progress → Shared
  finish_turns v s applying = let w = assign v s in send (is_error w.last) w
  finish_turns v s assigned = send (is_error v.last) v
  finish_turns v s (leaving b) = send b v

  -- wg.Wait(): what the schedule leaves of the goroutines, one behind the other.
  unfoldable pub wait : Shared → List Goroutine → Shared
  unfolding assign
  wait v [] = v
  wait v (g ∷ gs) = wait (finish_turns v g.slice g.progress) gs

  abbrev pub started : State → Shared
  started t = record { server = t; last = none; sent = []; crashed = false }

  abbrev pub outcome : Shared → State × Result (List (Option Error) × Option Error)
  outcome v = (v.server, if v.crashed then panic else ok (v.sent, v.last))

  -- The goroutines of a handler. What comes back is what they sent, and `err`.
  unfoldable pub apply_all :
      List ℕ → State → List Slice → State × Result (List (Option Error) × Option Error)
  unfolding run wait
  apply_all schedule t slices =
      let r = run schedule (started t) (map goroutine slices) in outcome (wait r.0 r.1)
