-- ===== src/RedisStore/Fencing/Finish.antt =====
-- The four ways to end an attempt, side by side, and who may take them.
use go_task_engine.Prelude.{ℕ, ◌≡◌, Bool, false, ◌&&◌, Option, some, arith}
use go_task_engine.Prelude.Int.{ℤ}
use go_task_engine.Prelude.Text.{Text}
use go_task_engine.Model.{active}
use go_task_engine.Redis.{Redis}
use go_task_engine.Redis.Keyspace.{TaskHash}
use go_task_engine.RedisStore.Scripts.Replies.{is_state, is_text}
use go_task_engine.RedisStore.Scripts.Finish.{
  ack_script, retry_script, archive_script, requeue_script,
}

-- The arguments of a finishing script besides the task and the attempt.
pub data Finish (B : Type 0) : Type 0 where
  ack : B → ℤ → Finish B
  retry : B → ℤ → Text → Finish B
  archive : B → Text → ℤ → Finish B
  requeue : Finish B

-- Whether the attempt owns the task.
abbrev pub holds : {B : Type 0} → Text → TaskHash B → Bool
holds a h = is_state active h.state && is_text a h.attempt_id

module _ {B : Type 0} (r : Redis B) where
  -- The reply, `none` for a script error, and what is left.
  unfoldable pub finish : Finish B → Text → Text → r.Db → Option ℕ × r.Db
  finish (ack b at) id a d = let (n, d') = ack_script r id b at a d in (some n, d')
  finish (retry b at m) id a d = let (n, d') = retry_script r id b at m a d in (some n, d')
  finish (archive b m at) id a d = let (n, d') = archive_script r id b m at a d in (some n, d')
  finish requeue id a d = requeue_script r id a d

  -- Without the attempt nothing is written.
  pub finish-refused :
      (f : Finish B) (id a : Text) (d : r.Db)
      → holds a ((r.view d).hash id) ≡ false
      → finish f id a d ≡ (some 0, d)
  unfolding finish ack_script retry_script archive_script requeue_script
  finish-refused (ack b at) id a d h = ground (arith, r.hget_law id d)
  finish-refused (retry b at m) id a d h = ground (arith, r.hget_law id d)
  finish-refused (archive b m at) id a d h = ground (arith, r.hget_law id d)
  finish-refused requeue id a d h = ground (arith, r.hget_law id d)
