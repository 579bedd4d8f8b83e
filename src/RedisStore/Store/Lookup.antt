-- ===== src/RedisStore/Store/Lookup.antt =====
-- What Get returns.
use go_task_engine.Prelude.{
  ◌≡◌, ◌≢◌, ◌↔◌, ◌∙◌, refl, false, Option, none, some, [], ◌∷◌, arith, is_some,
}
use go_task_engine.Prelude.Text.{Text}
use go_task_engine.Errors.{sentinel, task_not_found}
use go_task_engine.Result.{Result, ok, err, in_context, ◌>>=◌}
use go_task_engine.Float.{Float64}
use go_task_engine.Model.{
  TaskMessage, TaskState, pending, scheduled, active, retry, archived, completed, validate,
}
use go_task_engine.Redis.{Redis}
use go_task_engine.Redis.Keyspace.{has_field}
use go_task_engine.RedisStore.Invariant.Records.{Inv}
use go_task_engine.RedisStore.Store.Base.{Codec, sound, send}
use go_task_engine.RedisStore.Store.Intake.{enqueue}
use go_task_engine.RedisStore.Store.Arrivals.{Stored, enqueue-Stored}
use go_task_engine.RedisStore.Store.Reads.{get, read, task_of_fields, with_attempt}

module _ {B : Type 0} (r : Redis B) (json : Codec B) where
  abbrev Space : Type 0
  Space = Text → r.Db

  -- The message with the state that Redis holds for it, when it is not at work.
  abbrev pub waiting_copy : TaskMessage → TaskState → TaskMessage
  waiting_copy m s = record m { state = s; attempt_id = [] }

  with_attempt-waiting :
      (m : TaskMessage) (s : TaskState) (a : Option Text)
      → s ≢ active
      → with_attempt r json m s a ≡ ok (waiting_copy m s)
  unfolding with_attempt
  with_attempt-waiting m active a h = absurd (h refl)
  with_attempt-waiting m pending a h = refl
  with_attempt-waiting m scheduled a h = refl
  with_attempt-waiting m retry a h = refl
  with_attempt-waiting m archived a h = refl
  with_attempt-waiting m completed a h = refl

  -- What Get makes of the fields of the hash.
  get-fields :
      (q id : Text) (sp : Space)
      → get r json sound q id sp
        ≡ task_of_fields r json
            ((r.view (sp q)).hash id).msg
            ((r.view (sp q)).hash id).state
            ((r.view (sp q)).hash id).attempt_id
  unfolding get read send
  get-fields q id sp = rw (r.hget_law id (sp q)) refl

  pub get-waiting :
      (q id : Text) (sp : Space) (b : B) (m : TaskMessage) (s : TaskState)
      → ((r.view (sp q)).hash id).msg ≡ some b
      → ((r.view (sp q)).hash id).state ≡ some s
      → s ≢ active
      → json.unmarshal b ≡ ok m
      → get r json sound q id sp ≡ ok (waiting_copy m s)
  unfolding task_of_fields
  get-waiting q id sp b m s e e' h d =
      get-fields q id sp
      ∙ rw (e, e', d) (with_attempt-waiting m s ((r.view (sp q)).hash id).attempt_id h)

  with_attempt-found :
      (m : TaskMessage) (s : TaskState) (a : Option Text)
      → with_attempt r json m s a ≢ err (sentinel task_not_found)
  unfolding with_attempt
  with_attempt-found m active none = λ e. ground (arith, e)
  with_attempt-found m active (some []) = λ e. ground (arith, e)
  with_attempt-found m active (some (c ∷ cs)) = λ e. ground (arith, e)
  with_attempt-found m pending a = λ e. ground (arith, e)
  with_attempt-found m scheduled a = λ e. ground (arith, e)
  with_attempt-found m retry a = λ e. ground (arith, e)
  with_attempt-found m archived a = λ e. ground (arith, e)
  with_attempt-found m completed a = λ e. ground (arith, e)

  decoded-found :
      (x : Result TaskMessage) (s : TaskState) (a : Option Text)
      → (in_context "decode task" x >>= λ m. with_attempt r json m s a)
        ≢ err (sentinel task_not_found)
  decoded-found (ok m) s a = with_attempt-found m s a
  decoded-found (err e) s a = λ h. ground (arith, h)

  fields-missing :
      (o : Option B) (s : Option TaskState) (a : Option Text)
      → is_some o ≡ is_some s
      → (task_of_fields r json o s a ≡ err (sentinel task_not_found)) ↔ (s ≡ none)
  unfolding task_of_fields
  fields-missing none none a h = (λ e. refl, λ e. refl)
  fields-missing none (some s) a h = absurd (ground arith)
  fields-missing (some b) none a h = absurd (ground arith)
  fields-missing (some b) (some s) a h =
      (λ e. absurd (decoded-found (json.unmarshal b) s a e), λ e. absurd (ground (arith, e)))

  -- With its queue in order and on a connection that works, Get answers ErrTaskNotFound exactly for the
  -- ids that no task of the queue has.
  pub get-missing_iff :
      (q id : Text) (sp : Space)
      → Inv (r.view (sp q))
      → (get r json sound q id sp ≡ err (sentinel task_not_found))
        ↔ (((r.view (sp q)).hash id).state ≡ none)
  get-missing_iff q id sp h = rw (get-fields q id sp) (
      fields-missing ((r.view (sp q)).hash id).msg ((r.view (sp q)).hash id).state
        ((r.view (sp q)).hash id).attempt_id (h.located id).has_msg)

  -- What was enqueued under a new id is what Get returns: the same message, pending and without an
  -- attempt. The message is valid, decoding undoes its encoding, and the connection works.
  pub get-enqueue :
      (f : Float64) (m : TaskMessage) (b : B) (sp : Space)
      → validate (some m) ≡ none
      → json.marshal m ≡ ok b
      → json.unmarshal b ≡ ok m
      → has_field ((r.view (sp m.queue)).hash m.id) ≡ false
      → get r json sound m.queue m.id (enqueue r json f sound m sp).1
        ≡ ok (record m { state = pending; attempt_id = [] })
  get-enqueue f m b sp v e d fresh =
      let kept : Stored r json f false m b pending sp (enqueue r json f sound m sp) =
        rw fresh at (enqueue-Stored r json f m b sp v e) in
      get-waiting m.queue m.id (enqueue r json f sound m sp).1 b m pending kept.2 kept.1 (cc) d
