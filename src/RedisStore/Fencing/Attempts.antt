-- ===== src/RedisStore/Fencing/Attempts.antt =====
-- Which scripts hand out attempts.
use go_task_engine.Prelude.{◌≡◌, Bool, false, List, [], ◌∷◌, arith}
use go_task_engine.Prelude.Int.{ℤ}
use go_task_engine.Prelude.Text.{Text, text_eq, text_eq_iff}
use go_task_engine.Redis.Keyspace.{View, ZName}
use go_task_engine.Redis.Reference.{reference}
use go_task_engine.RedisStore.Scripts.Members.{candidate}
use go_task_engine.RedisStore.Scripts.Intake.{
  enqueue_script, schedule_script, claim_members, claim_script, move_ready_body, move_ready_script,
}
use go_task_engine.RedisStore.Scripts.Finish.{
  ack_script, retry_script, archive_script, requeue_script, extend_body, extend_lease_script,
}
use go_task_engine.RedisStore.Scripts.DeadLetters.{
  replay_archived_script, delete_archived_script, cleanup_body, cleanup_archived_script,
}
use go_task_engine.RedisStore.Scripts.Loops.{
  move_ready_loop-keeps, extend_loop-keeps, cleanup_loop-keeps,
}
use go_task_engine.RedisStore.Calls.{
  Call, enqueue, schedule, claim, move_scheduled, move_retry, ack, retry, archive, requeue,
  extend_lease, replay, delete, cleanup, step,
}
use go_task_engine.RedisStore.Fencing.Finish.{holds}

-- Whether a call claims under this attempt id.
abbrev pub claims : {B : Type 0} → Text → Call B → Bool
claims a (claim n t a') = text_eq a' a
claims a _ = false

module _ {B : Type 0} (a id : Text) where
  abbrev Lacks : View B → Type 0
  Lacks v = holds a (v.hash id) ≡ false

  claim_members-Lacks :
      (l : List Text) (n t : ℤ) (a' : Text) (v : View B)
      → text_eq a' a ≡ false
      → Lacks v
      → Lacks (claim_members (reference B) l n t a' v).1
  unfolding claim_members
  claim_members-Lacks [] n t a' v e h = h
  claim_members-Lacks (m ∷ l) n t a' v e h =
      ground (arith, text_eq_iff (candidate m) id, text_eq_iff m id)

  move_ready_body-Lacks :
      (z : ZName) (j : Text) (v : View B) → Lacks v → Lacks (move_ready_body (reference B) z j v).1
  unfolding move_ready_body
  move_ready_body-Lacks ZName.scheduled j v h = ground (arith, text_eq_iff j id)
  move_ready_body-Lacks _ j v h = ground (arith, text_eq_iff j id)

  extend_body-Lacks :
      (t : ℤ) (j a' : Text) (v : View B) → Lacks v → Lacks (extend_body (reference B) t j a' v).1
  unfolding extend_body
  extend_body-Lacks t j a' v h = ground arith

  cleanup_body-Lacks : (j : Text) (v : View B) → Lacks v → Lacks (cleanup_body (reference B) j v).1
  unfolding cleanup_body
  cleanup_body-Lacks j v h = ground (arith, text_eq_iff j id)

  pub step-Lacks :
      (c : Call B) (v : View B) → claims a c ≡ false → Lacks v → Lacks (step (reference B) c v)
  unfolding step enqueue_script schedule_script claim_script move_ready_script ack_script
      retry_script archive_script requeue_script extend_lease_script replay_archived_script
      delete_archived_script cleanup_archived_script
  step-Lacks (enqueue j b p s) v e h = ground (arith, text_eq_iff j id)
  step-Lacks (schedule j b p s t) v e h = ground (arith, text_eq_iff j id)
  step-Lacks (claim n t a') v e h = claim_members-Lacks _ n t a' v e h
  step-Lacks (move_scheduled now max) v e h =
      move_ready_loop-keeps (reference B) Lacks ZName.scheduled max
        (move_ready_body-Lacks ZName.scheduled) _ 0 v h
  step-Lacks (move_retry now max) v e h =
      move_ready_loop-keeps (reference B) Lacks ZName.retry max (move_ready_body-Lacks ZName.retry)
        _ 0 v h
  step-Lacks (extend_lease t tasks) v e h =
      extend_loop-keeps (reference B) Lacks t (extend_body-Lacks t) tasks 0 v h
  step-Lacks (cleanup before max) v e h =
      cleanup_loop-keeps (reference B) Lacks max cleanup_body-Lacks _ 0 v h
  step-Lacks (ack j b at a') v e h = ground (arith, text_eq_iff j id)
  step-Lacks (retry j b at m a') v e h = ground (arith, text_eq_iff j id)
  step-Lacks (archive j b m at a') v e h = ground (arith, text_eq_iff j id)
  step-Lacks (requeue j a') v e h = ground (arith, text_eq_iff j id)
  step-Lacks (replay j b) v e h = ground (arith, text_eq_iff j id)
  step-Lacks (delete j) v e h = ground (arith, text_eq_iff j id)
