-- ===== src/RedisStore/Store/Endings.antt =====
-- What AckSuccess, ScheduleRetry and Archive come to on a connection that works.
use go_task_engine.Prelude.{
  ℕ, ◌≡◌, refl, ap, true, false, Bool-cases, inl, inr, Option, none, some, String, arith,
}
use go_task_engine.Prelude.Int.{ℤ}
use go_task_engine.Prelude.Text.{Text, text_eq, text_eq_refl, text_eq→eq}
use go_task_engine.Errors.{Error, Sentinel, sentinel, invalid_transition}
use go_task_engine.Result.{ok}
use go_task_engine.Model.{TaskMessage, TaskState, completed, retry, archived, unix_milli}
use go_task_engine.Redis.{Redis}
use go_task_engine.RedisStore.Scripts.Finish.{ack_script, retry_script, archive_script}
use go_task_engine.RedisStore.Fencing.Finish.{holds}
use go_task_engine.RedisStore.Fencing.Done.{Ended, ack-Ended, retry-Ended, archive-Ended}
use go_task_engine.RedisStore.Store.Base.{Codec, sound, send, on_queue, settle}
use go_task_engine.RedisStore.Store.Finish.{
  completed_copy, ack_encoded, ack_success, retry_copy, retry_encoded, schedule_retry,
  archived_copy, archive_encoded, archive,
}

module _ {B : Type 0} (r : Redis B) (json : Codec B) where
  abbrev Space : Type 0
  Space = Text → r.Db

  -- No error, the task of a queue in the given state, and the message that was given to store.
  abbrev pub Settled : TaskMessage → B → TaskState → (Option Error × TaskMessage) × Space → Type 0
  Settled m b s (x, sp) =
      (x.0 ≡ none)
      × (((r.view (sp m.queue)).hash m.id).state ≡ some s)
      × (((r.view (sp m.queue)).hash m.id).msg ≡ some b)

  sent-Settled :
      (what : String) (x : Sentinel) (m : TaskMessage) (update : TaskMessage → TaskMessage) (b : B)
      (s : TaskState) (f : r.Db → ℕ × r.Db) (sp : Space)
      → Ended r m.id b s (f (sp m.queue))
      → Settled m b s (
        settle what x update m (on_queue m.queue (send sound f) sp).0,
        (on_queue m.queue (send sound f) sp).1,
      )
  unfolding on_queue send settle
  sent-Settled what x m update b s f sp (n, t, k) = rw (n, text_eq_refl m.queue) (refl, t, k)

  pub ack_success-Settled :
      (now : ℤ) (m : TaskMessage) (b : B) (sp : Space)
      → json.marshal (completed_copy r json now m) ≡ ok b
      → holds m.attempt_id ((r.view (sp m.queue)).hash m.id) ≡ true
      → Settled m b completed (ack_success r json sound now m sp)
  unfolding ack_success ack_encoded
  ack_success-Settled now m b sp e h = rw e (
      sent-Settled _ _ m _ b completed (ack_script r m.id b (unix_milli now) m.attempt_id) sp
        (ack-Ended r (sp m.queue) m.id b (unix_milli now) m.attempt_id h))

  pub schedule_retry-Settled :
      (now : ℤ) (m : TaskMessage) (at : ℤ) (reason : Text) (b : B) (sp : Space)
      → json.marshal (retry_copy r json now reason m) ≡ ok b
      → holds m.attempt_id ((r.view (sp m.queue)).hash m.id) ≡ true
      → Settled m b retry (schedule_retry r json sound now m at reason sp)
  unfolding schedule_retry retry_encoded
  schedule_retry-Settled now m at reason b sp e h = rw e (
      sent-Settled _ _ m _ b retry (retry_script r m.id b (unix_milli at) reason m.attempt_id) sp
        (retry-Ended r (sp m.queue) m.id b (unix_milli at) reason m.attempt_id h))

  pub archive-Settled :
      (now : ℤ) (m : TaskMessage) (reason : Text) (b : B) (sp : Space)
      → json.marshal (archived_copy r json reason m) ≡ ok b
      → holds m.attempt_id ((r.view (sp m.queue)).hash m.id) ≡ true
      → Settled m b archived (archive r json sound now m reason sp)
  unfolding archive archive_encoded
  archive-Settled now m reason b sp e h = rw e (
      sent-Settled _ _ m _ b archived (archive_script r m.id b reason (unix_milli now) m.attempt_id)
        sp (archive-Ended r (sp m.queue) m.id b reason (unix_milli now) m.attempt_id h))

  -- The error of a task that is not this attempt's, with the message and every queue as they were.
  abbrev pub Refused : TaskMessage → Space → (Option Error × TaskMessage) × Space → Type 0
  Refused m sp (x, sp') =
      (x ≡ (some (sentinel invalid_transition), m)) × ((q : Text) → sp' q ≡ sp q)

  sent-Refused :
      (what : String) (m : TaskMessage) (update : TaskMessage → TaskMessage) (f : r.Db → ℕ × r.Db)
      (sp : Space)
      → f (sp m.queue) ≡ (0, sp m.queue)
      → Refused m sp (
        settle what invalid_transition update m (on_queue m.queue (send sound f) sp).0,
        (on_queue m.queue (send sound f) sp).1,
      )
  unfolding on_queue send settle
  sent-Refused what m update f sp e = rw e (
    refl,
    λ q. elim (Bool-cases (text_eq m.queue q)) [
      | inl h ↦ rw h (ap sp (text_eq→eq m.queue q h))
      | inr h ↦ rw h
    ],
  )

  pub ack_success-Refused :
      (now : ℤ) (m : TaskMessage) (b : B) (sp : Space)
      → json.marshal (completed_copy r json now m) ≡ ok b
      → holds m.attempt_id ((r.view (sp m.queue)).hash m.id) ≡ false
      → Refused m sp (ack_success r json sound now m sp)
  unfolding ack_success ack_encoded ack_script
  ack_success-Refused now m b sp e h = rw e (
      sent-Refused _ m _ (ack_script r m.id b (unix_milli now) m.attempt_id) sp
        (ground (arith, r.hget_law m.id (sp m.queue))))

  pub schedule_retry-Refused :
      (now : ℤ) (m : TaskMessage) (at : ℤ) (reason : Text) (b : B) (sp : Space)
      → json.marshal (retry_copy r json now reason m) ≡ ok b
      → holds m.attempt_id ((r.view (sp m.queue)).hash m.id) ≡ false
      → Refused m sp (schedule_retry r json sound now m at reason sp)
  unfolding schedule_retry retry_encoded retry_script
  schedule_retry-Refused now m at reason b sp e h = rw e (
      sent-Refused _ m _ (retry_script r m.id b (unix_milli at) reason m.attempt_id) sp
        (ground (arith, r.hget_law m.id (sp m.queue))))

  pub archive-Refused :
      (now : ℤ) (m : TaskMessage) (reason : Text) (b : B) (sp : Space)
      → json.marshal (archived_copy r json reason m) ≡ ok b
      → holds m.attempt_id ((r.view (sp m.queue)).hash m.id) ≡ false
      → Refused m sp (archive r json sound now m reason sp)
  unfolding archive archive_encoded archive_script
  archive-Refused now m reason b sp e h = rw e (
      sent-Refused _ m _ (archive_script r m.id b reason (unix_milli now) m.attempt_id) sp
        (ground (arith, r.hget_law m.id (sp m.queue))))
