-- ===== src/Server/Pool.antt =====
-- The dispatcher and the workers of a server, the channel of jobs between them, and the stop channel:
-- `dispatch`, `worker` and requestStop of server/server.go as the moves of goroutines that run side
-- by side. What a round of dispatch does is in Server/Dispatch, what a worker does in Server/Process.
pub mod Balance
pub mod Closing
pub mod Shutdown
use go_task_engine.Prelude.{
  ℕ, zero, suc, Bool, true, false, Option, none, some, List, [], ◌∷◌, if◌then◌else◌, get_elem?, set,
}
use go_task_engine.Model.{TaskMessage}

-- Where the dispatcher stands: before the look at stopCh that begins a round, after it, at the select
-- that hands a task over, or gone, when the channel of jobs is closed.
pub data Dispatcher : Type 0 where
  top looking done : Dispatcher
  holding : TaskMessage → Dispatcher

-- A worker waits for a job, has one, or is gone.
pub data Worker : Type 0 where
  idle gone : Worker
  busy : TaskMessage → Worker

-- The last three fields keep the history: the tasks that were claimed, processed and given back.
pub record Pool : Type 0 where
  pub stopping : Bool
  pub dispatcher : Dispatcher
  pub workers : List Worker
  pub claimed : List TaskMessage
  pub finished : List TaskMessage
  pub requeued : List TaskMessage

pub data Move : Type 0 where
  -- requestStop
  close : Move
  -- the look at stopCh that begins a round
  check : Move
  -- a claim, and a round without one: waitOrStop goes on or sees the stop
  claim : TaskMessage → Move
  again leave : Move
  -- the select: a worker takes the job, or the dispatcher sees the stop and gives the task back
  hand : ℕ → Move
  requeue : Move
  -- a worker has processed its job, or finds the channel closed
  finish exit : ℕ → Move

unfoldable pub check_in : Dispatcher → Pool → Option Pool
check_in top p =
    if p.stopping
    then some (record p { dispatcher = done })
    else some (record p { dispatcher = looking })
check_in _ p = none

unfoldable pub claim_in : Dispatcher → TaskMessage → Pool → Option Pool
claim_in looking m p = some (record p { dispatcher = holding m; claimed = m ∷ p.claimed })
claim_in _ m p = none

unfoldable pub again_in : Dispatcher → Pool → Option Pool
again_in looking p = some (record p { dispatcher = top })
again_in _ p = none

unfoldable pub leave_in : Dispatcher → Pool → Option Pool
leave_in looking p = if p.stopping then some (record p { dispatcher = done }) else none
leave_in _ p = none

unfoldable pub hand_in : Dispatcher → Option Worker → ℕ → Pool → Option Pool
hand_in (holding m) (some idle) i p =
    some (record p { dispatcher = top; workers = set p.workers i (busy m) })
hand_in _ _ i p = none

unfoldable pub requeue_in : Dispatcher → Pool → Option Pool
requeue_in (holding m) p =
    if p.stopping then some (record p { dispatcher = done; requeued = m ∷ p.requeued }) else none
requeue_in _ p = none

unfoldable pub finish_in : Option Worker → ℕ → Pool → Option Pool
finish_in (some (busy m)) i p =
    some (record p { workers = set p.workers i idle; finished = m ∷ p.finished })
finish_in _ i p = none

unfoldable pub exit_in : Dispatcher → Option Worker → ℕ → Pool → Option Pool
exit_in done (some idle) i p = some (record p { workers = set p.workers i gone })
exit_in _ _ i p = none

-- One move, `none` where its goroutine cannot make it now.
unfoldable pub move : Move → Pool → Option Pool
move close p = some (record p { stopping = true })
move check p = check_in p.dispatcher p
move (claim m) p = claim_in p.dispatcher m p
move again p = again_in p.dispatcher p
move leave p = leave_in p.dispatcher p
move (hand i) p = hand_in p.dispatcher (get_elem? p.workers i) i p
move requeue p = requeue_in p.dispatcher p
move (finish i) p = finish_in (get_elem? p.workers i) i p
move (exit i) p = exit_in p.dispatcher (get_elem? p.workers i) i p

-- Start with a number of workers.
abbrev pub idle_workers : ℕ → List Worker
idle_workers zero = []
idle_workers (suc n) = idle ∷ idle_workers n

abbrev pub started : ℕ → Pool
started n = record {
  stopping = false;
  dispatcher = top;
  workers = idle_workers n;
  claimed = [];
  finished = [];
  requeued = [];
}

-- The moves one after another, `none` if one of them cannot be made.
unfoldable pub moves : List Move → Pool → Option Pool
unfolding move
moves [] p = some p
moves (m ∷ ms) p = elim (move m p) [ none ↦ none | some p' ↦ moves ms p' ]
