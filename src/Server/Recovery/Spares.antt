-- ===== src/Server/Recovery/Spares.antt =====
-- What an ending that spares all tasks but one leaves of the queues.
use go_task_engine.Prelude.{
  ℕ, ◌≡◌, ◌≢◌, ◌⊎◌, refl, ap, true, false, Option, none, some, ◌∷◌, inl, inr, arith,
}
use go_task_engine.Prelude.Int.{ℤ}
use go_task_engine.Prelude.Text.{Text, text_eq_iff, text_eq_refl}
use go_task_engine.Result.{Result, ok, err, ◌>>=◌, in_context}
use go_task_engine.Model.{
  TaskMessage, TaskState, state_eq, unix_milli, pending, scheduled, active, retry, archived,
  completed,
}
use go_task_engine.Redis.{Redis}
use go_task_engine.Redis.Keyspace.{View, score_range}
use go_task_engine.Redis.Ranges.{has, has-zdelete}
use go_task_engine.Redis.Reference.{reference}
use go_task_engine.RedisStore.Scripts.Finish.{retry_script, archive_script}
use go_task_engine.RedisStore.Transfer.Finish.{retry-Agrees, archive-Agrees}
use go_task_engine.RedisStore.Store.Base.{Codec, sound, send, on_queue}
use go_task_engine.RedisStore.Store.Reads.{get, read, task_of_fields, with_attempt}
use go_task_engine.RedisStore.Store.Finish.{retry_encoded, archive_encoded}

-- Archived, or waiting for a retry.
abbrev pub Ended : Option TaskState → Type 0
Ended s = (s ≡ some archived) ⊎ (s ≡ some retry)

pub is_active : (o : Option TaskState) → (o ≡ some active) ⊎ (o ≢ some active)
is_active none = inr (λ e. ground arith)
is_active (some active) = inl refl
is_active (some pending) = inr (λ e. ground arith)
is_active (some scheduled) = inr (λ e. ground arith)
is_active (some retry) = inr (λ e. ground arith)
is_active (some archived) = inr (λ e. ground arith)
is_active (some completed) = inr (λ e. ground arith)

module _ {B : Type 0} where
  -- Only this task changed.
  abbrev pub Spares : Text → View B → View B → Type 0
  Spares id v w = (j : Text) → j ≢ id → w.hash j ≡ v.hash j

  -- No lease was added that has run out at any time.
  abbrev pub Shrinks : View B → View B → Type 0
  Shrinks v w =
      (s : ℤ) (j : Text)
      → has j (score_range s w.lease) ≡ true
      → has j (score_range s v.lease) ≡ true

  archive-Shrinks :
      (id : Text) (b : B) (m : Text) (at : ℤ) (a : Text) (v : View B)
      → Shrinks v (archive_script (reference B) id b m at a v).1
  unfolding archive_script
  archive-Shrinks id b m at a v s j h = ground (arith, has-zdelete s id j v.lease)

  retry-Shrinks :
      (id : Text) (b : B) (at : ℤ) (m a : Text) (v : View B)
      → Shrinks v (retry_script (reference B) id b at m a v).1
  unfolding retry_script
  retry-Shrinks id b at m a v s j h = ground (arith, has-zdelete s id j v.lease)

  archive-Spares :
      (id : Text) (b : B) (m : Text) (at : ℤ) (a : Text) (v : View B)
      → Spares id v (archive_script (reference B) id b m at a v).1
  unfolding archive_script
  archive-Spares id b m at a v j h = ground (arith, text_eq_iff id j)

  retry-Spares :
      (id : Text) (b : B) (at : ℤ) (m a : Text) (v : View B)
      → Spares id v (retry_script (reference B) id b at m a v).1
  unfolding retry_script
  retry-Spares id b at m a v j h = ground (arith, text_eq_iff id j)

module _ {B : Type 0} (json : Codec B) where
  -- An active task, with an attempt and a message that names its queue and id.
  pub record Sound (q id : Text) (v : View B) : Type 0 where
    pub message : TaskMessage
    pub encoded : B
    pub first : ℕ
    pub rest : Text
    pub queue : message.queue ≡ q
    pub id_of : message.id ≡ id
    pub has_msg : (v.hash id).msg ≡ some encoded
    pub has_attempt : (v.hash id).attempt_id ≡ some (first ∷ rest)
    pub decoded : json.unmarshal encoded ≡ ok message

module _ {B : Type 0} (r : Redis B) (json : Codec B) where
  abbrev Space : Type 0
  Space = Text → r.Db

  attempt-idle :
      (m n : TaskMessage) (s : TaskState) (a : Option Text)
      → s ≢ active
      → with_attempt r json m s a ≡ ok n
      → state_eq n.state active ≡ false
  unfolding with_attempt
  attempt-idle m n active a ne e = absurd (ne refl)
  attempt-idle m n pending a ne e = ground arith
  attempt-idle m n scheduled a ne e = ground arith
  attempt-idle m n retry a ne e = ground arith
  attempt-idle m n archived a ne e = ground arith
  attempt-idle m n completed a ne e = ground arith

  decoded-idle :
      (p : Result TaskMessage) (n : TaskMessage) (s : TaskState) (a : Option Text)
      → s ≢ active
      → (in_context "decode task" p >>= λ m. with_attempt r json m s a) ≡ ok n
      → state_eq n.state active ≡ false
  decoded-idle (err e) n s a ne h = absurd (ground arith)
  decoded-idle (ok m) n s a ne h = attempt-idle m n s a ne h

  -- What Get makes of a task that is not active is not active.
  fields-idle :
      (o : Option B) (s : Option TaskState) (a : Option Text) (n : TaskMessage)
      → s ≢ some active
      → task_of_fields r json o s a ≡ ok n
      → state_eq n.state active ≡ false
  unfolding task_of_fields
  fields-idle none s a n ne h = absurd (ground arith)
  fields-idle (some b) none a n ne h = absurd (ground arith)
  fields-idle (some b) (some s) a n ne h =
      decoded-idle (json.unmarshal b) n s a (λ e. ne (ap some e)) h

  pub get-idle :
      (q id : Text) (sp : Space) (n : TaskMessage)
      → ((r.view (sp q)).hash id).state ≢ some active
      → get r json sound q id sp ≡ ok n
      → state_eq n.state active ≡ false
  unfolding get read send
  get-idle q id sp n ne h =
      let same = r.hget_law id (sp q) in
      fields-idle (r.hget id (sp q)).msg (r.hget id (sp q)).state (r.hget id (sp q)).attempt_id n
        (rw same ne) h

  -- No task of any queue changed but this one.
  abbrev pub SparesAll : Text → Text → Space → Space → Type 0
  SparesAll q id sp sp' =
      ((p : Text) → p ≢ q → sp' p ≡ sp p)
      × Spares id (r.view (sp q)) (r.view (sp' q))
      × Shrinks (r.view (sp q)) (r.view (sp' q))

  sent-SparesAll :
      (q id : Text) (f : r.Db → ℕ × r.Db) (sp : Space)
      → Spares id (r.view (sp q)) (r.view (f (sp q)).1)
      → Shrinks (r.view (sp q)) (r.view (f (sp q)).1)
      → SparesAll q id sp (on_queue q (send sound f) sp).1
  unfolding on_queue send
  sent-SparesAll q id f sp h k =
      (λ p ne. ground (arith, text_eq_iff q p), rw (text_eq_refl q) h, rw (text_eq_refl q) k)

  pub archive-SparesAll :
      (now : ℤ) (m : TaskMessage) (reason : Text) (sp : Space) (b : Result B)
      → SparesAll m.queue m.id sp (archive_encoded r json sound now m reason b sp).1
  unfolding archive_encoded
  archive-SparesAll now m reason sp (err e) = (λ p ne. refl, λ j ne. refl, λ s j h. h)
  archive-SparesAll now m reason sp (ok b) =
      sent-SparesAll m.queue m.id (archive_script r m.id b reason (unix_milli now) m.attempt_id) sp
        (rw ((archive-Agrees r m.id b reason (unix_milli now) m.attempt_id (sp m.queue)).1)
          (archive-Spares m.id b reason (unix_milli now) m.attempt_id (r.view (sp m.queue))))
        (rw ((archive-Agrees r m.id b reason (unix_milli now) m.attempt_id (sp m.queue)).1)
          (archive-Shrinks m.id b reason (unix_milli now) m.attempt_id (r.view (sp m.queue))))

  pub retry-SparesAll :
      (now : ℤ) (m : TaskMessage) (at : ℤ) (reason : Text) (sp : Space) (b : Result B)
      → SparesAll m.queue m.id sp (retry_encoded r json sound now m at reason b sp).1
  unfolding retry_encoded
  retry-SparesAll now m at reason sp (err e) = (λ p ne. refl, λ j ne. refl, λ s j h. h)
  retry-SparesAll now m at reason sp (ok b) =
      sent-SparesAll m.queue m.id (retry_script r m.id b (unix_milli at) reason m.attempt_id) sp
        (rw ((retry-Agrees r m.id b (unix_milli at) reason m.attempt_id (sp m.queue)).1)
          (retry-Spares m.id b (unix_milli at) reason m.attempt_id (r.view (sp m.queue))))
        (rw ((retry-Agrees r m.id b (unix_milli at) reason m.attempt_id (sp m.queue)).1)
          (retry-Shrinks m.id b (unix_milli at) reason m.attempt_id (r.view (sp m.queue))))
