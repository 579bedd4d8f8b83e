-- ===== src/Server/Recovery.antt =====
-- The recovery of a task whose lease ended, on the Redis store.
pub mod Spares
pub mod Effect
use go_task_engine.Prelude.{ℕ, ◌≡◌, refl, true, some, ◌∷◌, if◌then◌else◌, Bool-cases, inl, inr}
use go_task_engine.Prelude.Int.{ℤ}
use go_task_engine.Prelude.Text.{Text, codes, text_eq_refl}
use go_task_engine.Errors.{Error}
use go_task_engine.Result.{ok}
use go_task_engine.Model.{TaskMessage, TaskState}
use go_task_engine.Redis.{Redis}
use go_task_engine.RedisStore.Fencing.Finish.{holds}
use go_task_engine.RedisStore.Store.Base.{Codec, sound, send}
use go_task_engine.RedisStore.Store.Reads.{get, read, task_of_fields, with_attempt}
use go_task_engine.RedisStore.Store.Endings.{schedule_retry-Settled, archive-Settled}
use go_task_engine.Server.Process.{World, exhausted, count_retry, recover, recover_found}
use go_task_engine.Server.OnRedis.{redis_store, Encodes, Times, Left, conclude-Left}

-- The message that Get makes of an active task.
abbrev pub active_message : TaskMessage → Text → TaskMessage
active_message m a = record m { state = TaskState.active; attempt_id = a }

-- Where the recovery leaves a task.
abbrev pub recovered : TaskMessage → TaskState
recovered m = if exhausted m then TaskState.archived else TaskState.retry

module _ {B : Type 0} (r : Redis B) (json : Codec B) where
  abbrev Space : Type 0
  Space = Text → r.Db

  pub get-active :
      (m : TaskMessage) (b : B) (c : ℕ) (cs : Text) (sp : Space)
      → ((r.view (sp m.queue)).hash m.id).msg ≡ some b
      → ((r.view (sp m.queue)).hash m.id).state ≡ some TaskState.active
      → ((r.view (sp m.queue)).hash m.id).attempt_id ≡ some (c ∷ cs)
      → json.unmarshal b ≡ ok m
      → get r json sound m.queue m.id sp ≡ ok (active_message m (c ∷ cs))
  unfolding get read send task_of_fields with_attempt
  get-active m b c cs sp h s a e = rw (r.hget_law m.id (sp m.queue), h, s, a, e) refl

  found-Left :
      (codec : Encodes r json) (now tick : ℤ) (text : Error → Text) (delay : ℤ → ℤ)
      (m : TaskMessage) (a : Text) (w : World Space)
      → Times r json codec.CanWrite m
      → codec.CanWrite now
      → holds a ((r.view (w.store m.queue)).hash m.id) ≡ true
      → Left r json m
          (recovered m)
          w.reports
          (recover_found (redis_store r json sound) now text delay tick (ok (active_message m a)) w)
  unfolding recover_found count_retry
  found-Left codec now tick text delay m a w t n h = elim (Bool-cases (exhausted m)) [
    | inl c ↦ rw c (
        conclude-Left r json now text delay m _ TaskState.archived _ _ w (
          archive-Settled r json now (active_message m a) (codes "task lease expired") _ w.store
            (codec.encodes _ t).1 h))
    | inr c ↦ rw c (
        conclude-Left r json now text delay m _ TaskState.retry _ _ w (
          schedule_retry-Settled r json now (count_retry (active_message m a)) _
            (codes "task lease expired") _ w.store (codec.encodes _ (t.0, t.1, n, t.3, t.4)).1 h))
  ]

  -- A recovery that meets an active task with an attempt ends the attempt: the task is archived when
  -- it has no retries left and waits for a retry otherwise, and no error is reported. The stored
  -- message names its own queue and id, the time of the recovery can be encoded, and the connection
  -- works.
  pub recover-Left :
      (codec : Encodes r json) (now tick : ℤ) (text : Error → Text) (delay : ℤ → ℤ)
      (m : TaskMessage) (b : B) (c : ℕ) (cs : Text) (w : World Space)
      → codec.CanWrite now
      → ((r.view (w.store m.queue)).hash m.id).msg ≡ some b
      → ((r.view (w.store m.queue)).hash m.id).state ≡ some TaskState.active
      → ((r.view (w.store m.queue)).hash m.id).attempt_id ≡ some (c ∷ cs)
      → json.unmarshal b ≡ ok m
      → Left r json m
          (recovered m)
          w.reports
          (recover (redis_store r json sound) now text delay tick m.queue m.id w)
  unfolding recover
  recover-Left codec now tick text delay m b c cs w n h s a e =
      rw (get-active m b c cs w.store h s a e) (
        found-Left codec now tick text delay m (c ∷ cs) w (codec.decodes b m e) n
          (rw (s, a) (text_eq_refl (c ∷ cs))))
