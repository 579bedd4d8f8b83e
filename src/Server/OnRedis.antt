-- ===== src/Server/OnRedis.antt =====
-- A worker on the Redis store: how each task ends.
use go_task_engine.Prelude.{
  ◌≡◌, refl, true, false, ◌||◌, Option, none, some, List, ◌∷◌, if◌then◌else◌, Bool-cases, inl, inr,
  arith,
}
use go_task_engine.Prelude.Int.{ℤ, ltb_ℤ}
use go_task_engine.Prelude.Text.{Text}
use go_task_engine.Errors.{Error, is, sentinel, non_retryable, invalid_transition}
use go_task_engine.Result.{ok}
use go_task_engine.Model.{TaskMessage, TaskState}
use go_task_engine.Storage.{TaskStore}
use go_task_engine.Redis.{Redis}
use go_task_engine.RedisStore.Fencing.Finish.{holds}
use go_task_engine.RedisStore.Store.Base.{Codec, Link, sound}
use go_task_engine.RedisStore.Store.Finish
use go_task_engine.RedisStore.Store.Reads
use go_task_engine.RedisStore.Store.Endings.{
  Settled, ack_success-Settled, schedule_retry-Settled, archive-Settled, ack_success-Refused,
  schedule_retry-Refused, archive-Refused, Refused,
}
use go_task_engine.Server.Metrics.{Metrics}
use go_task_engine.Server.Process.{
  World, Limit, limit, exhausted, count_retry, conclude, process_failed, process_result, process,
}

-- The state in which the result of a handler leaves a task that its attempt still owns.
abbrev pub outcome : TaskMessage → Option Error → TaskState
outcome msg none = TaskState.completed
outcome msg (some e) =
    if is e non_retryable
    then TaskState.archived
    else if ltb_ℤ msg.retry_count msg.max_retry
    then TaskState.retry
    else TaskState.archived

outcome-failed :
    (msg : TaskMessage) (e : Error)
    → outcome msg (some e)
      ≡ (if is e non_retryable || exhausted msg then TaskState.archived else TaskState.retry)
outcome-failed msg e = ground arith

module _ {B : Type 0} (r : Redis B) (json : Codec B) where
  abbrev Space : Type 0
  Space = Text → r.Db

  abbrev pub redis_store : Link → TaskStore Space
  redis_store link = record {
    ack_success = Finish.ack_success r json link;
    schedule_retry = Finish.schedule_retry r json link;
    archive = Finish.archive r json link;
    requeue = Finish.requeue r json link;
    get = Reads.get r json link;
  }

  -- The times of a message satisfy a predicate.
  abbrev pub Times : (ℤ → Type 0) → TaskMessage → Type 0
  Times P m = P m.deadline × P m.run_at × P m.last_failed_at × P m.completed_at × P m.created_at

  -- encoding/json on messages: it writes a message when it can write its times, those with a year that
  -- has four digits, and the times that it has read are such times.
  pub record Encodes : Type 1 where
    pub CanWrite : ℤ → Type 0
    pub encodes : (m : TaskMessage) → Times CanWrite m → (b : B) × (json.marshal m ≡ ok b)
    pub decodes : (b : B) (m : TaskMessage) → json.unmarshal b ≡ ok m → Times CanWrite m

  -- The task has the state, and nothing was reported since.
  abbrev pub Left : TaskMessage → TaskState → List Error → World Space → Type 0
  Left m s reports w =
      (((r.view (w.store m.queue)).hash m.id).state ≡ some s) × (w.reports ≡ reports)

  pub conclude-Left :
      (now : ℤ) (text : Error → Text) (delay : ℤ → ℤ) (m : TaskMessage) (b : B) (s : TaskState)
      (count : Option Metrics → Option Metrics) (p : (Option Error × TaskMessage) × Space)
      (w : World Space)
      → Settled r json m b s p
      → Left m s w.reports (conclude (redis_store sound) now text delay count p w)
  unfolding conclude
  conclude-Left now text delay m b s count ((none, x), sp) w (e, t, k) = (t, refl)
  conclude-Left now text delay m b s count ((some y, x), sp) w (e, t, k) = grind (arith, e)

  failed-Left :
      (codec : Encodes) (now : ℤ) (text : Error → Text) (delay : ℤ → ℤ) (m : TaskMessage)
      (e : Error) (w : World Space)
      → Times codec.CanWrite m
      → codec.CanWrite now
      → holds m.attempt_id ((r.view (w.store m.queue)).hash m.id) ≡ true
      → Left m
          (outcome m (some e))
          w.reports
          (process_failed (redis_store sound) now text delay m e w)
  unfolding process_failed count_retry
  failed-Left codec now text delay m e w t n h =
      elim (Bool-cases (is e non_retryable || exhausted m)) [
        | inl c ↦
            rw (outcome-failed m e, c)
              (conclude-Left now text delay m _ TaskState.archived _ _ w
                (archive-Settled r json now m (text e) _ w.store (codec.encodes _ t).1 h))
        | inr c ↦
            rw (outcome-failed m e, c)
              (conclude-Left now text delay (count_retry m) _ TaskState.retry _ _ w (
                schedule_retry-Settled r json now (count_retry m) _ (text e) _ w.store
                  (codec.encodes _ (t.0, t.1, n, t.3, t.4)).1 h))
      ]

  result-Left :
      (codec : Encodes) (now : ℤ) (text : Error → Text) (delay : ℤ → ℤ) (m : TaskMessage)
      (result : Option Error) (w : World Space)
      → Times codec.CanWrite m
      → codec.CanWrite now
      → holds m.attempt_id ((r.view (w.store m.queue)).hash m.id) ≡ true
      → Left m
          (outcome m result)
          w.reports
          (process_result (redis_store sound) now text delay m result w)
  unfolding process_result
  result-Left codec now text delay m none w t n h =
      conclude-Left now text delay m _ TaskState.completed _ _ w
        (ack_success-Settled r json now m _ w.store (codec.encodes _ (t.0, t.1, t.2, n, t.4)).1 h)
  result-Left codec now text delay m (some e) w t n h = failed-Left codec now text delay m e _ t n h

  -- When the handler returns and its attempt still owns the task, the worker leaves the task
  -- completed after a success, archived after a failure that is not to be retried or that has no
  -- retries left, and waiting for a retry after any other failure, and reports no error; whatever
  -- the handler and everybody else did to the store meanwhile. The times of the message and of the end
  -- can be encoded, and the connection works.
  pub process-outcome :
      (codec : Encodes) (now elapsed : ℤ) (text : Error → Text) (delay : ℤ → ℤ)
      (handler : Limit → TaskMessage → Space → (Option Error × TaskMessage) × Space)
      (msg m : TaskMessage) (result : Option Error) (sp : Space) (w : World Space)
      → Times codec.CanWrite m
      → codec.CanWrite now
      → handler (limit msg) msg w.store ≡ ((result, m), sp)
      → holds m.attempt_id ((r.view (sp m.queue)).hash m.id) ≡ true
      → Left m
          (outcome m result)
          w.reports
          (process (redis_store sound) now text delay handler elapsed msg w)
  unfolding process
  process-outcome codec now elapsed text delay handler msg m result sp w t n e h =
      rw e (result-Left codec now text delay m result (record w { store = sp }) t n h)

  -- Nothing is written, and the refusal is reported.
  abbrev pub Untouched : Space → List Error → World Space → Type 0
  Untouched sp reports w =
      ((q : Text) → w.store q ≡ sp q) × (w.reports ≡ sentinel invalid_transition ∷ reports)

  conclude-Untouched :
      (now : ℤ) (text : Error → Text) (delay : ℤ → ℤ) (m : TaskMessage)
      (count : Option Metrics → Option Metrics) (p : (Option Error × TaskMessage) × Space)
      (w : World Space)
      → Refused r json m w.store p
      → Untouched w.store w.reports (conclude (redis_store sound) now text delay count p w)
  unfolding conclude
  conclude-Untouched now text delay m count ((none, x), sp) w (e, k) = grind (arith, e)
  conclude-Untouched now text delay m count ((some y, x), sp) w (e, k) = (k, grind (arith, e))

  failed-Untouched :
      (codec : Encodes) (now : ℤ) (text : Error → Text) (delay : ℤ → ℤ) (m : TaskMessage)
      (e : Error) (w : World Space)
      → Times codec.CanWrite m
      → codec.CanWrite now
      → holds m.attempt_id ((r.view (w.store m.queue)).hash m.id) ≡ false
      → Untouched w.store w.reports (process_failed (redis_store sound) now text delay m e w)
  unfolding process_failed count_retry
  failed-Untouched codec now text delay m e w t n h =
      elim (Bool-cases (is e non_retryable || exhausted m)) [
        | inl c ↦ rw c (
            conclude-Untouched now text delay m _ _ w
              (archive-Refused r json now m (text e) _ w.store (codec.encodes _ t).1 h))
        | inr c ↦ rw c (
            conclude-Untouched now text delay (count_retry m) _ _ w (
              schedule_retry-Refused r json now (count_retry m) _ (text e) _ w.store
                (codec.encodes _ (t.0, t.1, n, t.3, t.4)).1 h))
      ]

  result-Untouched :
      (codec : Encodes) (now : ℤ) (text : Error → Text) (delay : ℤ → ℤ) (m : TaskMessage)
      (result : Option Error) (w : World Space)
      → Times codec.CanWrite m
      → codec.CanWrite now
      → holds m.attempt_id ((r.view (w.store m.queue)).hash m.id) ≡ false
      → Untouched w.store w.reports (process_result (redis_store sound) now text delay m result w)
  unfolding process_result
  result-Untouched codec now text delay m none w t n h =
      conclude-Untouched now text delay m _ _ w
        (ack_success-Refused r json now m _ w.store (codec.encodes _ (t.0, t.1, t.2, n, t.4)).1 h)
  result-Untouched codec now text delay m (some e) w t n h =
      failed-Untouched codec now text delay m e _ t n h

  -- When the attempt lost its task while the handler ran, the worker writes nothing to any queue,
  -- whatever the handler returned, and reports an invalid transition. The times of the message
  -- and of the end can be encoded, and the connection works.
  pub process-late :
      (codec : Encodes) (now elapsed : ℤ) (text : Error → Text) (delay : ℤ → ℤ)
      (handler : Limit → TaskMessage → Space → (Option Error × TaskMessage) × Space)
      (msg m : TaskMessage) (result : Option Error) (sp : Space) (w : World Space)
      → Times codec.CanWrite m
      → codec.CanWrite now
      → handler (limit msg) msg w.store ≡ ((result, m), sp)
      → holds m.attempt_id ((r.view (sp m.queue)).hash m.id) ≡ false
      → Untouched sp w.reports (process (redis_store sound) now text delay handler elapsed msg w)
  unfolding process
  process-late codec now elapsed text delay handler msg m result sp w t n e h =
      rw e (result-Untouched codec now text delay m result (record w { store = sp }) t n h)
