-- ===== src/RedisStore/Calls.antt =====
-- The scripts as the calls that clients and servers send to one queue. Redis runs each script whole,
-- so any interleaving of any number of clients is a list of calls.
pub mod Order
pub mod Graph
pub mod Claims
pub mod Ranked
pub mod Completed
pub mod Moved
pub mod Adds
pub mod Origins
use go_task_engine.Prelude.{ℕ, Option, List, [], ◌∷◌}
use go_task_engine.Prelude.Int.{ℤ}
use go_task_engine.Prelude.Text.{Text}
use go_task_engine.Redis.{Redis}
use go_task_engine.Redis.Keyspace.{ZName}
use go_task_engine.RedisStore.Scripts.Intake.{
  enqueue_script, schedule_script, claim_script, move_ready_script,
}
use go_task_engine.RedisStore.Scripts.Finish.{
  ack_script, retry_script, archive_script, requeue_script, extend_lease_script,
}
use go_task_engine.RedisStore.Scripts.DeadLetters.{
  replay_archived_script, delete_archived_script, cleanup_archived_script,
}

-- One run of a script with its ARGV.
pub data Call (B : Type 0) : Type 0 where
  enqueue : Text → B → ℤ → ℤ → Call B
  schedule : Text → B → ℤ → ℤ → ℤ → Call B
  claim : ℤ → ℤ → Text → Call B
  move_scheduled move_retry : ℤ → ℕ → Call B
  ack : Text → B → ℤ → Text → Call B
  retry : Text → B → ℤ → Text → Text → Call B
  archive : Text → B → Text → ℤ → Text → Call B
  requeue : Text → Text → Call B
  extend_lease : ℤ → List (Text × Text) → Call B
  replay : Text → B → Call B
  delete : Text → Call B
  cleanup : ℤ → ℕ → Call B

module _ {B : Type 0} (r : Redis B) where
  -- What a call leaves; its reply goes to the caller.
  unfoldable pub step : Call B → r.Db → r.Db
  step (enqueue id b p s) d = (enqueue_script r id b p s d).1
  step (schedule id b p s t) d = (schedule_script r id b p s t d).1
  step (claim n t a) d = (claim_script r n t a d).1
  step (move_scheduled now max) d = (move_ready_script r ZName.scheduled now max d).1
  step (move_retry now max) d = (move_ready_script r ZName.retry now max d).1
  step (ack id b at a) d = (ack_script r id b at a d).1
  step (retry id b at m a) d = (retry_script r id b at m a d).1
  step (archive id b m at a) d = (archive_script r id b m at a d).1
  step (requeue id a) d = (requeue_script r id a d).1
  step (extend_lease t tasks) d = (extend_lease_script r t tasks d).1
  step (replay id b) d = (replay_archived_script r id b d).1
  step (delete id) d = (delete_archived_script r id d).1
  step (cleanup before max) d = (cleanup_archived_script r before max d).1

  unfoldable pub run : List (Call B) → r.Db → r.Db
  run [] d = d
  run (c ∷ cs) d = run cs (step c d)
