-- ===== src/RedisStore/Transfer/Finish.antt =====
-- ackScript, retryScript, archiveScript, requeueScript and extendLeaseScript.
use go_task_engine.Prelude.{ℕ, ◌+◌, ◌≡◌, refl, ap₂, List, [], ◌∷◌, Option, arith}
use go_task_engine.Prelude.Int.{ℤ}
use go_task_engine.Prelude.Text.{Text}
use go_task_engine.Redis.{Redis}
use go_task_engine.Redis.Keyspace.{View}
use go_task_engine.Redis.Reference.{reference}
use go_task_engine.RedisStore.Transfer.Agrees.{Agrees}
use go_task_engine.RedisStore.Scripts.Finish.{
  ack_script, retry_script, archive_script, requeue_script, extend_lease_script, zadd_rank,
  extend_body, extend_loop,
}

module _ {B : Type 0} (r : Redis B) where
  open r use {Db, view, hget_law, hset_law, hdel_law, lpush_law, lrem_law, zadd_law, zrem_law}

  pub ack-Agrees :
      (id : Text) (b : B) (at : ℤ) (a : Text) (d : Db)
      → Agrees r (ack_script r id b at a d) (ack_script (reference B) id b at a (view d))
  unfolding ack_script
  ack-Agrees id b at a d = grind (arith, hget_law, hset_law, hdel_law, lrem_law, zrem_law)

  pub retry-Agrees :
      (id : Text) (b : B) (at : ℤ) (m a : Text) (d : Db)
      → Agrees r (retry_script r id b at m a d) (retry_script (reference B) id b at m a (view d))
  unfolding retry_script
  retry-Agrees id b at m a d =
      grind (arith, hget_law, hset_law, hdel_law, lrem_law, zrem_law, zadd_law)

  pub archive-Agrees :
      (id : Text) (b : B) (m : Text) (at : ℤ) (a : Text) (d : Db)
      → Agrees r
          (archive_script r id b m at a d)
          (archive_script (reference B) id b m at a (view d))
  unfolding archive_script
  archive-Agrees id b m at a d =
      grind (arith, hget_law, hset_law, hdel_law, lrem_law, zrem_law, zadd_law)

  zadd_rank-Agrees :
      (o : Option ℤ) (m : Text) (d : Db)
      → Agrees r (zadd_rank r o m d) (zadd_rank (reference B) o m (view d))
  unfolding zadd_rank
  zadd_rank-Agrees o m d = grind (arith, zadd_law)

  pub requeue-Agrees :
      (id a : Text) (d : Db)
      → Agrees r (requeue_script r id a d) (requeue_script (reference B) id a (view d))
  unfolding requeue_script
  requeue-Agrees id a d =
      grind (arith, hget_law, hset_law, hdel_law, lpush_law, lrem_law, zrem_law, zadd_law)

  extend_body-Agrees :
      (t : ℤ) (id a : Text) (d : Db)
      → Agrees r (extend_body r t id a d) (extend_body (reference B) t id a (view d))
  unfolding extend_body
  extend_body-Agrees t id a d = grind (arith, hget_law, zadd_law, zrem_law)

  extend_loop-Agrees :
      (t : ℤ) (tasks : List (Text × Text)) (n m : ℕ) (d : Db) (v : View B)
      → n ≡ m
      → view d ≡ v
      → Agrees r (extend_loop r t tasks n d) (extend_loop (reference B) t tasks m v)
  unfolding extend_loop
  extend_loop-Agrees t [] n m d v e h = (e, h)
  extend_loop-Agrees t ((id, a) ∷ tasks) n m d v e h =
      let at : Agrees r (extend_body r t id a d) (extend_body (reference B) t id a v) =
        rw (← h) (extend_body-Agrees t id a d) in
      extend_loop-Agrees t tasks _ _ _ _ (ap₂ (λ x y. x + y) e at.0) at.1

  pub extend_lease-Agrees :
      (t : ℤ) (tasks : List (Text × Text)) (d : Db)
      → Agrees r
          (extend_lease_script r t tasks d)
          (extend_lease_script (reference B) t tasks (view d))
  unfolding extend_lease_script
  extend_lease-Agrees t tasks d = extend_loop-Agrees t tasks 0 0 d _ refl refl
