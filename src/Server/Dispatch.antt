-- ===== src/Server/Dispatch.antt =====
-- One round of `dispatch` of server/server.go, up to the select that hands a task over. It reads the
-- clock for MoveReady (`ready`) and for each claim (`now`).
pub mod Order
pub mod Delivery
use go_task_engine.Prelude.{
  ℕ, zero, suc, Bool, true, false, Option, none, some, List, [], ◌∷◌, if◌then◌else◌, ◌^◌,
}
use go_task_engine.Prelude.Int.{ℤ, pos, leb_ℤ}
use go_task_engine.Prelude.Text.{Text}
use go_task_engine.Errors.{Error, is_queue_empty}
use go_task_engine.Result.{Result, ok, err}
use go_task_engine.Model.{TaskMessage}
use go_task_engine.Storage.{TaskSource}
use go_task_engine.Server.Process.{World}

-- How a round ends: with a task to hand over, or by waiting for some time.
pub data Round : Type 0 where
  hand : TaskMessage → Round
  wait : ℤ → Round

module _ {S : Type 0} where
  -- reportError
  abbrev pub report : Error → World S → World S
  report e w = record w { reports = e ∷ w.reports }

-- The interface limiter.Limiter as dispatch uses it: whether the tokens were granted, and how long to
-- wait otherwise.
pub record Tokens (S : Type 0) : Type 0 where
  pub acquire : S → Result (Bool × ℤ) × S

module _ {S : Type 0} (s : TaskSource S) (ready : ℤ) (now : Text → ℤ) (poll lease : ℤ) where
  unfoldable pub counted : Result ℕ → World S → (World S → Bool × World S) → Bool × World S
  counted (err e) w rest = rest (report e w)
  counted (ok zero) w rest = rest w
  counted (ok (suc n)) w rest = (true, w)

  -- The loop over PendingCount: a queue that cannot be read is passed over, and the first with a
  -- pending task ends it.
  unfoldable pub any_pending : List Text → World S → Bool × World S
  unfolding counted
  any_pending [] w = (false, w)
  any_pending (q ∷ qs) w = counted (s.pending_count q w.store) w (λ w'. any_pending qs w')

  unfoldable pub claimed :
      Result TaskMessage × S
      → World S
      → (World S → Option TaskMessage × World S)
      → Option TaskMessage × World S
  claimed (ok m, s') w rest = (some m, record w { store = s' })
  claimed (err e, s') w rest =
      if is_queue_empty (some e)
      then rest (record w { store = s' })
      else rest (report e (record w { store = s' }))

  -- The loop over Claim: an empty queue is passed over, any other error is reported, and the first
  -- task ends it.
  unfoldable pub claim_first : List Text → World S → Option TaskMessage × World S
  unfolding claimed
  claim_first [] w = (none, w)
  claim_first (q ∷ qs) w = claimed (s.claim q (now q) lease w.store) w (λ w'. claim_first qs w')

  unfoldable pub handed : Option TaskMessage × World S → Round × World S
  handed (none, w) = (wait poll, w)
  handed (some m, w) = (hand m, w)

  -- The tokens that TokenBucket gave.
  unfoldable pub granted : Result (Bool × ℤ) → List Text → World S → Round × World S
  unfolding handed claim_first
  granted (err e) qs w = (wait poll, report e w)
  granted (ok (true, after)) qs w = handed (claim_first qs w)
  granted (ok (false, after)) qs w = (wait after, w)

  unfoldable pub take_tokens : Option (Tokens S) → List Text → World S → Round × World S
  unfolding granted
  take_tokens none qs w = handed (claim_first qs w)
  take_tokens (some t) qs w =
      let (reply, s') = t.acquire w.store in granted reply qs (record w { store = s' })

  unfoldable pub dispatch_pending : Option (Tokens S) → List Text → Bool × World S → Round × World S
  unfolding take_tokens
  dispatch_pending bucket qs (false, w) = (wait poll, w)
  dispatch_pending bucket qs (true, w) = take_tokens bucket qs w

  unfoldable pub dispatch_moved :
      Option (Tokens S) → List Text → Option Error → World S → Round × World S
  unfolding dispatch_pending any_pending
  dispatch_moved bucket qs (some e) w = (wait poll, report e w)
  dispatch_moved bucket qs none w = dispatch_pending bucket qs (any_pending qs w)

  -- MoveReady, the look at the queues, the tokens, and the claims.
  unfoldable pub dispatch_round : Option (Tokens S) → List Text → World S → Round × World S
  unfolding dispatch_moved
  dispatch_round bucket qs w =
      let ((moved, e), s') = s.move_ready ready (pos 100) qs w.store in
      dispatch_moved bucket qs e (record w { store = s' })

-- `if duration <= 0 { duration = time.Millisecond }` of waitOrStop
unfoldable pub wait_time : ℤ → ℤ
wait_time d = if leb_ℤ d (pos 0) then pos (10 ^ 6) else d
