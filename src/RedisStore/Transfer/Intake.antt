-- ===== src/RedisStore/Transfer/Intake.antt =====
-- enqueueScript, scheduleScript, claimScript, moveReadyScript and moveOneScript.
use go_task_engine.Prelude.{
  ℕ, ◌+◌, refl, List, [], ◌∷◌, Option, none, some, arith, leb, Bool-cases, inl, inr,
}
use go_task_engine.Prelude.Int.{ℤ}
use go_task_engine.Prelude.Text.{Text}
use go_task_engine.Redis.{Redis}
use go_task_engine.Redis.Keyspace.{ZName}
use go_task_engine.Redis.Reference.{reference}
use go_task_engine.RedisStore.Transfer.Agrees.{Agrees}
use go_task_engine.RedisStore.Scripts.Intake.{
  enqueue_script, schedule_script, claim_task, claim_members, claim_script, move_ready_body,
  move_ready_loop, move_ready_script,
}

module _ {B : Type 0} (r : Redis B) where
  open r use {
    Db, view, exists_law, hget_law, hset_law, incr_reply, incr_law, lpush_law, rpush_law, lrem_law,
    zadd_law, zrem_reply, zrem_law, zrange_law, zrange_by_score_law,
  }

  pub enqueue-Agrees :
      (id : Text) (b : B) (p s : ℤ) (d : Db)
      → Agrees r (enqueue_script r id b p s d) (enqueue_script (reference B) id b p s (view d))
  unfolding enqueue_script
  enqueue-Agrees id b p s d =
      grind (arith, exists_law, incr_reply, incr_law, hset_law, lpush_law, zadd_law)

  pub schedule-Agrees :
      (id : Text) (b : B) (p s t : ℤ) (d : Db)
      → Agrees r
          (schedule_script r id b p s t d)
          (schedule_script (reference B) id b p s t (view d))
  unfolding schedule_script
  schedule-Agrees id b p s t d = grind (arith, exists_law, incr_reply, incr_law, hset_law, zadd_law)

  claim_task-Agrees :
      (id : Text) (n t : ℤ) (a : Text) (o : Option B) (d : Db)
      → Agrees r (claim_task r id n t a o d) (claim_task (reference B) id n t a o (view d))
  unfolding claim_task
  claim_task-Agrees id n t a none d = (refl, refl)
  claim_task-Agrees id n t a (some b) d = grind (arith, hset_law, rpush_law, zadd_law)

  claim_members-Agrees :
      (l : List Text) (n t : ℤ) (a : Text) (d : Db)
      → Agrees r (claim_members r l n t a d) (claim_members (reference B) l n t a (view d))
  unfolding claim_members
  claim_members-Agrees [] n t a d = (refl, refl)
  claim_members-Agrees (m ∷ l) n t a d =
      grind (arith, hget_law, zrem_reply, zrem_law, lrem_law, hset_law, rpush_law, zadd_law)

  pub claim-Agrees :
      (n t : ℤ) (a : Text) (d : Db)
      → Agrees r (claim_script r n t a d) (claim_script (reference B) n t a (view d))
  unfolding claim_script
  claim-Agrees n t a d = rw zrange_law (claim_members-Agrees _ n t a d)

  move_ready_body-Agrees :
      (z : ZName) (id : Text) (d : Db)
      → Agrees r (move_ready_body r z id d) (move_ready_body (reference B) z id (view d))
  unfolding move_ready_body
  move_ready_body-Agrees z id d =
      grind (arith, hget_law, zrem_reply, zrem_law, lpush_law, hset_law, zadd_law)

  move_ready_loop-Agrees :
      (z : ZName) (max : ℕ) (ids : List Text) (n : ℕ) (d : Db)
      → Agrees r
          (move_ready_loop r z max ids n d)
          (move_ready_loop (reference B) z max ids n (view d))
  unfolding move_ready_loop
  move_ready_loop-Agrees z max [] n d = (refl, refl)
  move_ready_loop-Agrees z max (id ∷ ids) n d =
      let (same, left) = move_ready_body-Agrees z id d in
      elim (Bool-cases (leb max n)) [
        | inl full ↦ rw full (refl, refl)
        | inr room ↦
            rw (room, ← same, ← left)
              (move_ready_loop-Agrees z max ids (n + (move_ready_body r z id d).0)
                (move_ready_body r z id d).1)
      ]

  pub move_ready-Agrees :
      (z : ZName) (now : ℤ) (max : ℕ) (d : Db)
      → Agrees r
          (move_ready_script r z now max d)
          (move_ready_script (reference B) z now max (view d))
  unfolding move_ready_script
  move_ready-Agrees z now max d = rw zrange_by_score_law (move_ready_loop-Agrees z max _ 0 d)
