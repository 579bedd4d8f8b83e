-- ===== src/RedisStore/Calls/Order.antt =====
-- Lists of calls and the records of the tasks.
use go_task_engine.Prelude.{◌≡◌, subst, sym, List, [], ◌∷◌}
use go_task_engine.Redis.{Redis}
use go_task_engine.Redis.Keyspace.{View, ZName}
use go_task_engine.Redis.Reference.{reference}
use go_task_engine.RedisStore.Transfer.Intake.{
  enqueue-Agrees, schedule-Agrees, claim-Agrees, move_ready-Agrees,
}
use go_task_engine.RedisStore.Transfer.Finish.{
  ack-Agrees, retry-Agrees, archive-Agrees, requeue-Agrees, extend_lease-Agrees,
}
use go_task_engine.RedisStore.Transfer.DeadLetters.{
  replay_archived-Agrees, delete_archived-Agrees, cleanup_archived-Agrees,
}
use go_task_engine.RedisStore.Invariant.Records.{Inv}
use go_task_engine.RedisStore.Invariant.Intake.{
  enqueue-Inv, schedule-Inv, claim-Inv, move_ready-Inv,
}
use go_task_engine.RedisStore.Invariant.Finish.{
  ack-Inv, retry-Inv, archive-Inv, requeue-Inv, extend_lease-Inv,
}
use go_task_engine.RedisStore.Invariant.DeadLetters.{
  replay_archived-Inv, delete_archived-Inv, cleanup_archived-Inv,
}
use go_task_engine.RedisStore.Calls.{
  Call, enqueue, schedule, claim, move_scheduled, move_retry, ack, retry, archive, requeue,
  extend_lease, replay, delete, cleanup, step, run,
}

pub reference-step-Inv :
    {B : Type 0} (c : Call B) (v : View B) → Inv v → Inv (step (reference B) c v)
unfolding step
reference-step-Inv (enqueue id b p s) v h = enqueue-Inv v h id b p s
reference-step-Inv (schedule id b p s t) v h = schedule-Inv v h id b p s t
reference-step-Inv (claim n t a) v h = claim-Inv v h n t a
reference-step-Inv (move_scheduled now max) v h = move_ready-Inv ZName.scheduled now max v tt h
reference-step-Inv (move_retry now max) v h = move_ready-Inv ZName.retry now max v tt h
reference-step-Inv (ack id b at a) v h = ack-Inv v h id b at a
reference-step-Inv (retry id b at m a) v h = retry-Inv v h id b at m a
reference-step-Inv (archive id b m at a) v h = archive-Inv v h id b m at a
reference-step-Inv (requeue id a) v h = requeue-Inv v h id a
reference-step-Inv (extend_lease t tasks) v h = extend_lease-Inv t tasks v h
reference-step-Inv (replay id b) v h = replay_archived-Inv v h id b
reference-step-Inv (delete id) v h = delete_archived-Inv v h id
reference-step-Inv (cleanup before max) v h = cleanup_archived-Inv before max v h

module _ {B : Type 0} (r : Redis B) where
  -- On any Redis a call leaves the keys as it does on the reference database.
  pub step-Agrees : (c : Call B) (d : r.Db) → r.view (step r c d) ≡ step (reference B) c (r.view d)
  unfolding step
  step-Agrees (enqueue id b p s) d = (enqueue-Agrees r id b p s d).1
  step-Agrees (schedule id b p s t) d = (schedule-Agrees r id b p s t d).1
  step-Agrees (claim n t a) d = (claim-Agrees r n t a d).1
  step-Agrees (move_scheduled now max) d = (move_ready-Agrees r ZName.scheduled now max d).1
  step-Agrees (move_retry now max) d = (move_ready-Agrees r ZName.retry now max d).1
  step-Agrees (ack id b at a) d = (ack-Agrees r id b at a d).1
  step-Agrees (retry id b at m a) d = (retry-Agrees r id b at m a d).1
  step-Agrees (archive id b m at a) d = (archive-Agrees r id b m at a d).1
  step-Agrees (requeue id a) d = (requeue-Agrees r id a d).1
  step-Agrees (extend_lease t tasks) d = (extend_lease-Agrees r t tasks d).1
  step-Agrees (replay id b) d = (replay_archived-Agrees r id b d).1
  step-Agrees (delete id) d = (delete_archived-Agrees r id d).1
  step-Agrees (cleanup before max) d = (cleanup_archived-Agrees r before max d).1

  -- From keys in order, every interleaving of calls leaves the keys in order: each task is in the
  -- sorted set and the list of its state and in no other, has an attempt exactly while it is active,
  -- and has a complete hash whose member names it.
  pub run-Inv : (cs : List (Call B)) (d : r.Db) → Inv (r.view d) → Inv (r.view (run r cs d))
  unfolding run
  run-Inv [] d h = h
  run-Inv (c ∷ cs) d h =
      run-Inv cs (step r c d)
        (subst Inv (sym (step-Agrees c d)) (reference-step-Inv c (r.view d) h))
