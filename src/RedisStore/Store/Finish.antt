-- ===== src/RedisStore/Store/Finish.antt =====
-- AckSuccess, ScheduleRetry, Archive, Requeue and ExtendLease.
use go_task_engine.Prelude.{String, ℕ, Option, none, some, List, [], ◌∷◌}
use go_task_engine.Prelude.Int.{ℤ, ◌+ℤ◌}
use go_task_engine.Prelude.Text.{Text}
use go_task_engine.Errors.{Error, plain, wrap, invalid_transition}
use go_task_engine.Result.{Result, ok, err}
use go_task_engine.Model.{TaskMessage, TaskState, unix_milli}
use go_task_engine.Redis.{Redis}
use go_task_engine.RedisStore.Scripts.Finish.{
  ack_script, retry_script, archive_script, requeue_script, extend_lease_script,
}
use go_task_engine.RedisStore.Store.Base.{Codec, Link, send, on_queue, settle, or_default}

module _ {B : Type 0} (r : Redis B) (json : Codec B) where
  abbrev Space : Type 0
  Space = Text → r.Db

  -- The copy of the message that AckSuccess stores, and what it does to the message itself.
  abbrev pub completed_copy : ℤ → TaskMessage → TaskMessage
  completed_copy now msg = record msg {
    state = TaskState.completed;
    attempt_id = [];
    completed_at = now;
  }

  unfoldable pub ack_encoded :
      Link → ℤ → TaskMessage → Result B → Space → (Option Error × TaskMessage) × Space
  ack_encoded link now msg (err e) sp = ((some (wrap "encode completed task" e), msg), sp)
  ack_encoded link now msg (ok encoded) sp =
      let (reply, sp') =
        on_queue msg.queue (send link (ack_script r msg.id encoded (unix_milli now) msg.attempt_id))
          sp in
      (settle "ack task" invalid_transition (completed_copy now) msg reply, sp')

  unfoldable pub ack_success : Link → ℤ → TaskMessage → Space → (Option Error × TaskMessage) × Space
  unfolding ack_encoded
  ack_success link now msg sp = ack_encoded link now msg (json.marshal (completed_copy now msg)) sp

  abbrev pub retry_copy : ℤ → Text → TaskMessage → TaskMessage
  retry_copy now reason msg = record msg {
    state = TaskState.retry;
    attempt_id = [];
    last_error = reason;
    last_failed_at = now;
  }

  unfoldable pub retry_encoded :
      Link → ℤ → TaskMessage → ℤ → Text → Result B → Space → (Option Error × TaskMessage) × Space
  retry_encoded link now msg at reason (err e) sp = ((some (wrap "encode retry task" e), msg), sp)
  retry_encoded link now msg at reason (ok encoded) sp =
      let (reply, sp') =
        on_queue msg.queue
          (send link (retry_script r msg.id encoded (unix_milli at) reason msg.attempt_id)) sp in
      (settle "schedule retry" invalid_transition (retry_copy now reason) msg reply, sp')

  unfoldable pub schedule_retry :
      Link → ℤ → TaskMessage → ℤ → Text → Space → (Option Error × TaskMessage) × Space
  unfolding retry_encoded
  schedule_retry link now msg at reason sp =
      retry_encoded link now msg at reason (json.marshal (retry_copy now reason msg)) sp

  abbrev pub archived_copy : Text → TaskMessage → TaskMessage
  archived_copy reason msg = record msg {
    state = TaskState.archived;
    attempt_id = [];
    last_error = reason;
  }

  unfoldable pub archive_encoded :
      Link → ℤ → TaskMessage → Text → Result B → Space → (Option Error × TaskMessage) × Space
  archive_encoded link now msg reason (err e) sp = ((some (wrap "encode archived task" e), msg), sp)
  archive_encoded link now msg reason (ok encoded) sp =
      let (reply, sp') =
        on_queue msg.queue
          (send link (archive_script r msg.id encoded reason (unix_milli now) msg.attempt_id)) sp in
      (settle "archive task" invalid_transition (archived_copy reason) msg reply, sp')

  unfoldable pub archive :
      Link → ℤ → TaskMessage → Text → Space → (Option Error × TaskMessage) × Space
  unfolding archive_encoded
  archive link now msg reason sp =
      archive_encoded link now msg reason (json.marshal (archived_copy reason msg)) sp

  -- The reply of requeueScript, whose error the client library returns as one.
  abbrev pub script_reply : Result (Option ℕ) → Result ℕ
  script_reply (err e) = err e
  script_reply (ok none) = err (plain "script error")
  script_reply (ok (some n)) = ok n

  unfoldable pub requeue : Link → TaskMessage → Space → (Option Error × TaskMessage) × Space
  requeue link msg sp =
      let (reply, sp') =
        on_queue msg.queue (send link (requeue_script r msg.id msg.attempt_id)) sp in
      (
        settle "requeue task" invalid_transition
            (λ m. record m { state = TaskState.pending; attempt_id = [] }) msg (script_reply reply),
        sp',
      )

  -- The keys and arguments that ExtendLease collects; nil tasks are left out.
  unfoldable pub owned_tasks : List (Option TaskMessage) → List (Text × Text)
  owned_tasks [] = []
  owned_tasks (none ∷ tasks) = owned_tasks tasks
  owned_tasks (some task ∷ tasks) = (task.id, task.attempt_id) ∷ owned_tasks tasks

  abbrev reply_error : String → Result ℕ → Option Error
  reply_error what (ok n) = none
  reply_error what (err e) = some (wrap what e)

  unfoldable pub extend_owned : Link → Text → ℤ → List (Text × Text) → Space → Option Error × Space
  extend_owned link queue expires [] sp = (none, sp)
  extend_owned link queue expires (task ∷ tasks) sp =
      let (reply, sp') =
        on_queue queue (send link (extend_lease_script r expires (task ∷ tasks))) sp in
      (reply_error "extend task leases" reply, sp')

  unfoldable pub extend_lease :
      Link → ℤ → Text → List (Option TaskMessage) → ℤ → ℤ → Space → Option Error × Space
  unfolding owned_tasks extend_owned
  extend_lease link standard queue tasks now lease sp =
      extend_owned link queue (unix_milli (now +ℤ or_default standard lease)) (owned_tasks tasks) sp
