-- ===== src/RedisStore/Calls/Completed.antt =====
-- What becomes of completed tasks.
use go_task_engine.Prelude.{ℕ, ◌≡◌, refl, ap, ◌∙◌, some, List, [], ◌∷◌, arith}
use go_task_engine.Prelude.Int.{ℤ}
use go_task_engine.Prelude.Text.{Text, text_eq_iff}
use go_task_engine.Model.{completed}
use go_task_engine.Redis.{Redis}
use go_task_engine.Redis.Keyspace.{View, TaskHash, ZName}
use go_task_engine.Redis.Reference.{reference}
use go_task_engine.RedisStore.Scripts.Members.{candidate}
use go_task_engine.RedisStore.Scripts.Replies.{is_text_iff}
use go_task_engine.RedisStore.Scripts.Intake.{
  enqueue_script, schedule_script, claim_members, claim_script, move_ready_body, move_ready_script,
}
use go_task_engine.RedisStore.Scripts.Finish.{
  ack_script, retry_script, archive_script, requeue_script, extend_body, extend_lease_script,
}
use go_task_engine.RedisStore.Scripts.DeadLetters.{
  replay_archived_script, delete_archived_script, cleanup_body, cleanup_archived_script,
}
use go_task_engine.RedisStore.Scripts.Loops.{
  move_ready_loop-keeps, extend_loop-keeps, cleanup_loop-keeps,
}
use go_task_engine.RedisStore.Invariant.Records.{Inv}
use go_task_engine.RedisStore.Invariant.Intake.{IsSource, move_ready_body-Inv}
use go_task_engine.RedisStore.Invariant.Finish.{extend_body-Inv}
use go_task_engine.RedisStore.Invariant.DeadLetters.{cleanup_body-Inv}
use go_task_engine.RedisStore.Calls.{
  Call, enqueue, schedule, claim, move_scheduled, move_retry, ack, retry, archive, requeue,
  extend_lease, replay, delete, cleanup, step, run,
}
use go_task_engine.RedisStore.Calls.Order.{step-Agrees, run-Inv}

module _ {B : Type 0} (id : Text) (x : TaskHash B) (done : x.state ≡ some completed) where
  -- The keys in order, with the hash of the task as it was.
  record Kept (v : View B) : Type 0 where
    inv : Inv v
    same : v.hash id ≡ x

  claim_members-same :
      (l : List Text) (n t : ℤ) (a : Text) (v : View B)
      → Kept v
      → (claim_members (reference B) l n t a v).1.hash id ≡ x
  unfolding claim_members
  claim_members-same [] n t a v k = k.same
  claim_members-same (m ∷ l) n t a v k = ground (
    arith,
    k.same,
    k.inv.located (candidate m),
    k.inv.known m,
    text_eq_iff (candidate m) id,
    is_text_iff m (v.hash (candidate m)).rank_member,
  )

  move_ready_body-same :
      (z : ZName) (j : Text) (v : View B)
      → IsSource z
      → Kept v
      → (move_ready_body (reference B) z j v).1.hash id ≡ x
  unfolding move_ready_body
  move_ready_body-same ZName.scheduled j v w k =
      ground (arith, k.same, k.inv.located j, text_eq_iff j id)
  move_ready_body-same ZName.retry j v w k =
      ground (arith, k.same, k.inv.located j, text_eq_iff j id)
  move_ready_body-same _ j v w k = absurd w

  extend_body-same :
      (t : ℤ) (j a : Text) (v : View B) → Kept v → (extend_body (reference B) t j a v).1.hash id ≡ x
  unfolding extend_body
  extend_body-same t j a v k = ground (arith, k.same)

  cleanup_body-same :
      (j : Text) (v : View B) → Kept v → (cleanup_body (reference B) j v).1.hash id ≡ x
  unfolding cleanup_body
  cleanup_body-same j v k = ground (arith, k.same, text_eq_iff j id)

  move_ready-same :
      (z : ZName) (now : ℤ) (max : ℕ) (v : View B)
      → IsSource z
      → Kept v
      → (move_ready_script (reference B) z now max v).1.hash id ≡ x
  unfolding move_ready_script
  move_ready-same z now max v w k =
      (move_ready_loop-keeps (reference B) Kept z max
        (λ j u i. record {
          inv = move_ready_body-Inv z j u w i.inv;
          same = move_ready_body-same z j u w i;
        })
        _ 0 v k).same

  pub reference-step-same :
      (c : Call B) (v : View B) → Inv v → v.hash id ≡ x → (step (reference B) c v).hash id ≡ x
  unfolding step enqueue_script schedule_script claim_script ack_script retry_script archive_script
      requeue_script extend_lease_script replay_archived_script delete_archived_script
      cleanup_archived_script
  reference-step-same (enqueue j b p s) v h e = ground (arith, text_eq_iff j id)
  reference-step-same (schedule j b p s t) v h e = ground (arith, text_eq_iff j id)
  reference-step-same (claim n t a) v h e =
      claim_members-same _ n t a v (record { inv = h; same = e })
  reference-step-same (move_scheduled now max) v h e =
      move_ready-same ZName.scheduled now max v tt (record { inv = h; same = e })
  reference-step-same (move_retry now max) v h e =
      move_ready-same ZName.retry now max v tt (record { inv = h; same = e })
  reference-step-same (extend_lease t tasks) v h e =
      (extend_loop-keeps (reference B) Kept t
        (λ j a u k. record {
          inv = extend_body-Inv t j a u k.inv;
          same = extend_body-same t j a u k;
        })
        tasks 0 v (record { inv = h; same = e })).same
  reference-step-same (cleanup before max) v h e =
      (cleanup_loop-keeps (reference B) Kept max
        (λ j u k. record { inv = cleanup_body-Inv u k.inv j; same = cleanup_body-same j u k }) _ 0 v
        (record { inv = h; same = e })).same
  reference-step-same (ack j b at a) v h e = ground (arith, text_eq_iff j id)
  reference-step-same (retry j b at m a) v h e = ground (arith, text_eq_iff j id)
  reference-step-same (archive j b m at a) v h e = ground (arith, text_eq_iff j id)
  reference-step-same (requeue j a) v h e = ground (arith, text_eq_iff j id)
  reference-step-same (replay j b) v h e = ground (arith, text_eq_iff j id)
  reference-step-same (delete j) v h e = ground (arith, text_eq_iff j id)

module _ {B : Type 0} (r : Redis B) (id : Text) where
  -- From keys in order, once a task is completed no call changes any field of its hash again.
  pub run-completed :
      (cs : List (Call B)) (d : r.Db)
      → Inv (r.view d)
      → ((r.view d).hash id).state ≡ some completed
      → (r.view (run r cs d)).hash id ≡ (r.view d).hash id
  unfolding run
  run-completed [] d h e = refl
  run-completed (c ∷ cs) d h e =
      let kept : (r.view (step r c d)).hash id ≡ (r.view d).hash id =
        rw (step-Agrees r c d)
          (reference-step-same id ((r.view d).hash id) e c (r.view d) h refl) in
      run-completed cs (step r c d) (run-Inv r (c ∷ []) d h)
        (ap (λ (x : TaskHash B). x.state) kept ∙ e)
      ∙ kept
