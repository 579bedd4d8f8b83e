-- ===== src/RedisStore/Calls/Ranked.antt =====
-- The order of the tasks that wait.
use go_task_engine.Prelude.{ℕ, suc, ◌≡◌, refl, subst, sym, Option, none, some, List, [], ◌∷◌, arith}
use go_task_engine.Prelude.Int.{ℤ}
use go_task_engine.Prelude.Text.{Text}
use go_task_engine.Redis.{Redis}
use go_task_engine.Redis.Keyspace.{View, ZName}
use go_task_engine.Redis.Order.{IsAscending, zdelete-IsAscending, zinsert-IsAscending}
use go_task_engine.Redis.Reference.{reference}
use go_task_engine.RedisStore.Scripts.Members.{rank_text}
use go_task_engine.RedisStore.Scripts.Replies.{or_id}
use go_task_engine.RedisStore.Scripts.Intake.{
  enqueue_script, schedule_script, claim_members, claim_script, move_ready_body, move_ready_script,
}
use go_task_engine.RedisStore.Scripts.Finish.{
  ack_script, retry_script, archive_script, requeue_script, extend_body, extend_lease_script,
}
use go_task_engine.RedisStore.Scripts.DeadLetters.{
  replay_archived_script, delete_archived_script, cleanup_body, cleanup_archived_script,
}
use go_task_engine.RedisStore.Scripts.Loops.{
  move_ready_loop-keeps, extend_loop-keeps, cleanup_loop-keeps,
}
use go_task_engine.RedisStore.Invariant.Intake.{IsSource}
use go_task_engine.RedisStore.Calls.{
  Call, enqueue, schedule, claim, move_scheduled, move_retry, ack, retry, archive, requeue,
  extend_lease, replay, delete, cleanup, step, run,
}
use go_task_engine.RedisStore.Calls.Order.{step-Agrees}

module _ {B : Type 0} where
  abbrev pub Ranked : View B → Type 0
  Ranked v = IsAscending v.pending_rank

  claim_members-Ranked :
      (l : List Text) (n t : ℤ) (a : Text) (v : View B)
      → Ranked v
      → Ranked (claim_members (reference B) l n t a v).1
  unfolding claim_members
  claim_members-Ranked [] n t a v h = h
  claim_members-Ranked (m ∷ l) n t a v h = ground (arith, zdelete-IsAscending m v.pending_rank h)

  -- The rank of a task is looked up: the three scripts that put it back are split on the reply.
  move_ready_with :
      (z : ZName) (id : Text) (v : View B) (o : Option ℤ)
      → IsSource z
      → Ranked v
      → (v.hash id).rank ≡ o
      → Ranked (move_ready_body (reference B) z id v).1
  unfolding move_ready_body
  move_ready_with ZName.scheduled id v (some s) w h e =
      ground (arith, zinsert-IsAscending s (or_id (v.hash id).rank_member id) v.pending_rank h)
  move_ready_with ZName.retry id v (some s) w h e =
      ground (arith, zinsert-IsAscending s (or_id (v.hash id).rank_member id) v.pending_rank h)
  move_ready_with ZName.scheduled id v none w h e = ground arith
  move_ready_with ZName.retry id v none w h e = ground arith
  move_ready_with _ id v o w h e = absurd w

  requeue_with :
      (id a : Text) (v : View B) (o : Option ℤ)
      → Ranked v
      → (v.hash id).rank ≡ o
      → Ranked (requeue_script (reference B) id a v).1
  unfolding requeue_script
  requeue_with id a v (some s) h e =
      ground (arith, zinsert-IsAscending s (or_id (v.hash id).rank_member id) v.pending_rank h)
  requeue_with id a v none h e = ground arith

  replay_with :
      (id : Text) (b : B) (v : View B) (o : Option ℤ)
      → Ranked v
      → (v.hash id).rank ≡ o
      → Ranked (replay_archived_script (reference B) id b v).1
  unfolding replay_archived_script
  replay_with id b v (some s) h e =
      ground (arith, zinsert-IsAscending s (or_id (v.hash id).rank_member id) v.pending_rank h)
  replay_with id b v none h e = ground arith

  extend_body-Ranked :
      (t : ℤ) (id a : Text) (v : View B) → Ranked v → Ranked (extend_body (reference B) t id a v).1
  unfolding extend_body
  extend_body-Ranked t id a v h = ground arith

  cleanup_body-Ranked :
      (id : Text) (v : View B) → Ranked v → Ranked (cleanup_body (reference B) id v).1
  unfolding cleanup_body
  cleanup_body-Ranked id v h = ground arith

  move_ready-Ranked :
      (z : ZName) (now : ℤ) (max : ℕ) (v : View B)
      → IsSource z
      → Ranked v
      → Ranked (move_ready_script (reference B) z now max v).1
  unfolding move_ready_script
  move_ready-Ranked z now max v w h =
      move_ready_loop-keeps (reference B) Ranked z max
        (λ id u k. move_ready_with z id u (u.hash id).rank w k refl) _ 0 v h

  pub reference-step-Ranked : (c : Call B) (v : View B) → Ranked v → Ranked (step (reference B) c v)
  unfolding step enqueue_script schedule_script claim_script ack_script retry_script archive_script
      extend_lease_script delete_archived_script cleanup_archived_script
  reference-step-Ranked (enqueue j b p s) v h =
      ground (arith, zinsert-IsAscending s (rank_text (suc v.sequence) j) v.pending_rank h)
  reference-step-Ranked (schedule j b p s t) v h = ground arith
  reference-step-Ranked (claim n t a) v h = claim_members-Ranked _ n t a v h
  reference-step-Ranked (move_scheduled now max) v h =
      move_ready-Ranked ZName.scheduled now max v tt h
  reference-step-Ranked (move_retry now max) v h = move_ready-Ranked ZName.retry now max v tt h
  reference-step-Ranked (ack j b at a) v h = ground arith
  reference-step-Ranked (retry j b at m a) v h = ground arith
  reference-step-Ranked (archive j b m at a) v h = ground arith
  reference-step-Ranked (requeue j a) v h = requeue_with j a v (v.hash j).rank h refl
  reference-step-Ranked (extend_lease t tasks) v h =
      extend_loop-keeps (reference B) Ranked t (extend_body-Ranked t) tasks 0 v h
  reference-step-Ranked (replay j b) v h = replay_with j b v (v.hash j).rank h refl
  reference-step-Ranked (delete j) v h = ground arith
  reference-step-Ranked (cleanup before max) v h =
      cleanup_loop-keeps (reference B) Ranked max cleanup_body-Ranked _ 0 v h

-- Whatever calls are made, the tasks that wait stay in the order of their ranks.
pub run-Ranked :
    {B : Type 0} (r : Redis B) (cs : List (Call B)) (d : r.Db)
    → Ranked (r.view d)
    → Ranked (r.view (run r cs d))
unfolding run
run-Ranked r [] d h = h
run-Ranked r (c ∷ cs) d h =
    run-Ranked r cs (step r c d)
      (subst Ranked (sym (step-Agrees r c d)) (reference-step-Ranked c (r.view d) h))
