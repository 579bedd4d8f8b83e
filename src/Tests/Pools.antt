-- ===== src/Tests/Pools.antt =====
-- The pool of workers while it stops.
use go_task_engine.Prelude.{
  ℕ, zero, suc, ◌+◌, ◌≤◌, ◌≡◌, refl, true, some, List, [], ◌∷◌, ◌++◌, length, total, arith,
}
use go_task_engine.Model.{TaskMessage}
use go_task_engine.Server.Pool.{
  Pool, holding, done, busy, gone, Move, close, check, claim, again, leave, hand, requeue, finish,
  exit, move, moves, started, check_in, claim_in, again_in, leave_in, hand_in, requeue_in,
  finish_in, exit_in,
}
use go_task_engine.Server.Pool.Balance.{is_gone}
use go_task_engine.Server.Pool.Closing.{measure, run-Closing}
use go_task_engine.Server.Pool.Shutdown.{Stuck, stop-terminates, Stuck-complete}
use go_task_engine.Tests.Mails.{pending_mail}

-- A worker at work when the stop comes, and a task in the hands of the dispatcher.
abbrev course : List Move
course = check ∷ claim pending_mail ∷ hand 0 ∷ check ∷ claim pending_mail ∷ []

abbrev ending : List Move
ending = requeue ∷ finish 0 ∷ exit 0 ∷ []

abbrev ended : Pool
ended = record {
  stopping = true;
  dispatcher = done;
  workers = gone ∷ [];
  claimed = pending_mail ∷ pending_mail ∷ [];
  finished = pending_mail ∷ [];
  requeued = pending_mail ∷ [];
}

abbrev stopped : Pool
stopped = record {
  stopping = true;
  dispatcher = holding pending_mail;
  workers = busy pending_mail ∷ [];
  claimed = pending_mail ∷ pending_mail ∷ [];
  finished = [];
  requeued = [];
}

to_stopped : moves (course ++ close ∷ []) (started 1) ≡ some stopped
unfolding moves move check_in claim_in hand_in
to_stopped = refl

to_ended : moves (course ++ close ∷ ending) (started 1) ≡ some ended
unfolding moves move check_in claim_in hand_in requeue_in finish_in exit_in
to_ended = refl

from_stopped : moves ending stopped ≡ some ended
unfolding moves move requeue_in finish_in exit_in
from_stopped = refl

stop-terminates_example : length ending + measure ended ≤ measure stopped
stop-terminates_example =
    stop-terminates ending stopped ended (run-Closing 1 (course ++ close ∷ []) stopped to_stopped)
      refl (ground arith, (ground arith, (ground arith, tt))) from_stopped

ended-Stuck : Stuck ended
unfolding move check_in claim_in again_in leave_in hand_in requeue_in finish_in exit_in
ended-Stuck close c = absurd (c refl)
ended-Stuck check c = refl
ended-Stuck (claim m) c = refl
ended-Stuck again c = refl
ended-Stuck leave c = refl
ended-Stuck (hand i) c = refl
ended-Stuck requeue c = refl
ended-Stuck (finish zero) c = refl
ended-Stuck (finish (suc i)) c = refl
ended-Stuck (exit zero) c = refl
ended-Stuck (exit (suc i)) c = refl

abbrev count : TaskMessage → ℕ
count m = 1

Stuck-complete_example :
    (ended.dispatcher ≡ done)
    × (total is_gone ended.workers ≡ length ended.workers)
    × (length ended.requeued ≤ 1)
    × (total count ended.claimed ≡ total count ended.finished + total count ended.requeued)
Stuck-complete_example =
    Stuck-complete count 1 (course ++ close ∷ ending) ended to_ended refl ended-Stuck
