-- ===== src/RedisStore/Calls/Origins.antt =====
-- Where the messages and the attempts in the hashes come from.
use go_task_engine.Prelude.{◌≡◌, refl, subst, sym, some, List, [], ◌∷◌, inl, inr, All}
use go_task_engine.Prelude.Text.{Text}
use go_task_engine.Redis.{Redis}
use go_task_engine.Redis.Keyspace.{View, ZName}
use go_task_engine.Redis.Reference.{reference}
use go_task_engine.RedisStore.Scripts.Intake.{claim_script, move_ready_script}
use go_task_engine.RedisStore.Scripts.Finish.{requeue_script, extend_body, extend_lease_script}
use go_task_engine.RedisStore.Scripts.DeadLetters.{
  delete_archived_script, cleanup_body, cleanup_archived_script,
}
use go_task_engine.RedisStore.Scripts.Loops.{extend_loop-keeps, cleanup_loop-keeps}
use go_task_engine.RedisStore.Calls.{
  Call, enqueue, schedule, claim, move_scheduled, move_retry, ack, retry, archive, requeue,
  extend_lease, replay, delete, cleanup, step, run,
}
use go_task_engine.RedisStore.Calls.Order.{step-Agrees}
use go_task_engine.RedisStore.Calls.Adds.{
  Adds, Writes, Opens, Keeps-Adds, Keeps-trans, Keeps-refl, enqueue-Adds, claim-Adds, schedule-Adds,
  ack-Adds, retry-Adds, archive-Adds, replay_with, requeue_with, extend-Keeps, delete-Keeps,
  cleanup-Keeps, move_ready-Keeps, Keeps,
}

module _ {B : Type 0} where
  pub step-Adds :
      (c : Call B) (v : View B) (j : Text) → Adds (Writes c) (Opens c) v (step (reference B) c v) j
  unfolding step claim_script extend_lease_script cleanup_archived_script
  step-Adds (enqueue id b p s) v j = enqueue-Adds id b p s v j
  step-Adds (schedule id b p s t) v j = schedule-Adds id b p s t v j
  step-Adds (claim n t a) v j = claim-Adds _ n t a v j
  step-Adds (move_scheduled now max) v j =
      Keeps-Adds (Writes (move_scheduled now max)) (Opens {B = B} (move_scheduled now max)) v
        (move_ready_script (reference B) ZName.scheduled now max v).1 j
        (move_ready-Keeps ZName.scheduled now max v j tt)
  step-Adds (move_retry now max) v j =
      Keeps-Adds (Writes (move_retry now max)) (Opens {B = B} (move_retry now max)) v
        (move_ready_script (reference B) ZName.retry now max v).1 j
        (move_ready-Keeps ZName.retry now max v j tt)
  step-Adds (ack id b at a) v j = ack-Adds id b at a v j
  step-Adds (retry id b at m a) v j = retry-Adds id b at m a v j
  step-Adds (archive id b m at a) v j = archive-Adds id b m at a v j
  step-Adds (requeue id a) v j =
      Keeps-Adds (Writes (requeue id a)) (Opens {B = B} (requeue id a)) v
        (requeue_script (reference B) id a v).1 j (requeue_with id a v (v.hash id).rank j refl)
  step-Adds (extend_lease t tasks) v j =
      Keeps-Adds (Writes (extend_lease t tasks)) (Opens {B = B} (extend_lease t tasks)) v
        (extend_lease_script (reference B) t tasks v).1 j
        (extend_loop-keeps (reference B) (Keeps v j) t
          (λ id a u k.
            Keeps-trans v u (extend_body (reference B) t id a u).1 j k (extend-Keeps t id a u j))
          tasks 0 v (Keeps-refl v j))
  step-Adds (replay id b) v j = replay_with id b v (v.hash id).rank j refl
  step-Adds (delete id) v j =
      Keeps-Adds (Writes (delete id)) (Opens {B = B} (delete id)) v
        (delete_archived_script (reference B) id v).1 j (delete-Keeps id v j)
  step-Adds (cleanup before max) v j =
      Keeps-Adds (Writes (cleanup before max)) (Opens {B = B} (cleanup before max)) v
        (cleanup_archived_script (reference B) before max v).1 j
        (cleanup_loop-keeps (reference B) (Keeps v j) max
          (λ id u k. Keeps-trans v u (cleanup_body (reference B) id u).1 j k (cleanup-Keeps id u j))
          _ 0 v (Keeps-refl v j))

module _ {B : Type 0} (P : Text → B → Type 0) (Q : Text → Type 0) where
  -- What holds of every message that calls may store and of every attempt that they may open.
  abbrev pub AreOf : List (Call B) → Type 0
  AreOf = All (λ c. ((j : Text) (b : B) → Writes c j b → P j b) × ((a : Text) → Opens c a → Q a))

  -- What holds of every message and of every attempt in the hashes.
  pub record Holds (v : View B) : Type 0 where
    pub messages : (j : Text) (b : B) → (v.hash j).msg ≡ some b → P j b
    pub attempts : (j a : Text) → (v.hash j).attempt_id ≡ some a → Q a

  step-Holds :
      (c : Call B) (v : View B)
      → ((j : Text) (b : B) → Writes c j b → P j b)
      → ((a : Text) → Opens c a → Q a)
      → Holds v
      → Holds (step (reference B) c v)
  step-Holds c v p q h = record {
    messages = λ j b e. elim ((step-Adds c v j).message b e) [
      | inl was ↦ h.messages j b was
      | inr new ↦ p j b new
    ];
    attempts = λ j a e. elim ((step-Adds c v j).attempt a e) [
      | inl was ↦ h.attempts j a was
      | inr new ↦ q a new
    ];
  }

  pub run-Holds :
      (r : Redis B) (cs : List (Call B)) (d : r.Db)
      → AreOf cs
      → Holds (r.view d)
      → Holds (r.view (run r cs d))
  unfolding run
  run-Holds r [] d k h = h
  run-Holds r (c ∷ cs) d k h =
      run-Holds r cs (step r c d) k.1
        (subst Holds (sym (step-Agrees r c d)) (step-Holds c (r.view d) k.0.0 k.0.1 h))
