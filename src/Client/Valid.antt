-- ===== src/Client/Valid.antt =====
-- The messages that a client persists.
use go_task_engine.Prelude.{
  ◌≡◌, refl, Bool, true, false, Option, none, some, List, [], ◌∷◌, ◌++◌, if◌then◌else◌, Bool-cases,
  inl, inr,
}
use go_task_engine.Prelude.Int.{ℤ, pos, ltb_ℤ}
use go_task_engine.Prelude.Text.{Text, text_eq}
use go_task_engine.Errors.{Error}
use go_task_engine.Result.{Result, ok, err, ◌>>=◌}
use go_task_engine.Model.{TaskMessage, TaskState, is_zero, validate, validate_fields}
use go_task_engine.Client.{
  Store, TaskOption, with_task_id, with_queue, with_priority, with_max_retry, with_timeout,
  with_deadline, process_at, process_in, TaskOptions, apply, apply_all, Task, defaults, message,
  persist, enqueue_with, enqueue_live, enqueue_task, enqueue,
}

-- Options that make a valid message.
IsValid : TaskOptions → Type 0
IsValid o =
    (text_eq o.id [] ≡ false)
    × (text_eq o.queue [] ≡ false)
    × (ltb_ℤ o.priority (pos 0) ≡ false)
    × (ltb_ℤ o.max_retry (pos 0) ≡ false)
    × (ltb_ℤ o.timeout (pos 0) ≡ false)

-- A result that, if there is one, is valid.
AreValid : Result TaskOptions → Type 0
AreValid (ok o) = IsValid o
AreValid (err e) = Unit

-- A check that lets only what makes the options valid pass.
guard-AreValid :
    (b : Bool) (e : Error) (o : TaskOptions)
    → (b ≡ false → IsValid o)
    → AreValid (if b then err e else ok o)
unfolding AreValid
guard-AreValid true e o h = tt
guard-AreValid false e o h = h refl

apply-AreValid : (x : TaskOption) (o : TaskOptions) → IsValid o → AreValid (apply x o)
unfolding apply IsValid AreValid
apply-AreValid (with_task_id id) o (a, b, c, d, e) =
    guard-AreValid (text_eq id []) _ _ (λ h. (h, b, c, d, e))
apply-AreValid (with_queue q) o (a, b, c, d, e) =
    guard-AreValid (text_eq q []) _ _ (λ h. (a, h, c, d, e))
apply-AreValid (with_priority p) o (a, b, c, d, e) =
    guard-AreValid (ltb_ℤ p (pos 0)) _ _ (λ h. (a, b, h, d, e))
apply-AreValid (with_max_retry n) o (a, b, c, d, e) =
    guard-AreValid (ltb_ℤ n (pos 0)) _ _ (λ h. (a, b, c, h, e))
apply-AreValid (with_timeout t) o (a, b, c, d, e) =
    guard-AreValid (ltb_ℤ t (pos 0)) _ _ (λ h. (a, b, c, d, h))
apply-AreValid (with_deadline t) o h = h
apply-AreValid (process_at t) o h = guard-AreValid (is_zero t) _ _ (λ e. h)
apply-AreValid (process_in t) o h = guard-AreValid (ltb_ℤ t (pos 0)) _ _ (λ e. h)

bind-AreValid :
    (x : Result TaskOptions) (f : TaskOptions → Result TaskOptions)
    → AreValid x
    → ((o : TaskOptions) → IsValid o → AreValid (f o))
    → AreValid (x >>= f)
unfolding AreValid
bind-AreValid (ok o) f h k = k o h
bind-AreValid (err e) f h k = tt

apply_all-AreValid :
    (os : List (Option TaskOption)) (o : TaskOptions) → IsValid o → AreValid (apply_all os o)
unfolding apply_all AreValid
apply_all-AreValid [] o h = h
apply_all-AreValid (none ∷ os) o h = apply_all-AreValid os o h
apply_all-AreValid (some x ∷ os) o h =
    bind-AreValid (apply x o) (apply_all os) (apply-AreValid x o h)
      (λ o' h'. apply_all-AreValid os o' h')

message-validate :
    (now : ℤ) (task : Task) (o : TaskOptions)
    → text_eq task.type_name [] ≡ false
    → IsValid o
    → validate (some (message now task o)) ≡ none
unfolding message validate validate_fields IsValid
message-validate now task o t (a, b, c, d, e) = rw (t, a, b, c, d, e) refl

message-validate-scheduled :
    (now : ℤ) (task : Task) (o : TaskOptions)
    → text_eq task.type_name [] ≡ false
    → IsValid o
    → validate (some (record (message now task o) { state = TaskState.scheduled })) ≡ none
unfolding message validate validate_fields IsValid
message-validate-scheduled now task o t (a, b, c, d, e) = rw (t, a, b, c, d, e) refl

defaults-IsValid : (id : Text) (now : ℤ) → text_eq id [] ≡ false → IsValid (defaults id now)
unfolding IsValid text_eq
defaults-IsValid id now h = (h, refl, refl, refl, refl)

module _ {S : Type 0} where
  abbrev pub reject :
      Option Error
      → TaskMessage
      → (Option Error × TaskMessage) × S
      → S
      → (Option Error × TaskMessage) × S
  reject none m p s = p
  reject (some e) m p s = ((some e, m), s)

  -- The store behind a check of every message.
  abbrev pub checked : Store S → Store S
  checked store = record {
    enqueue = λ m s. reject (validate (some m)) m (store.enqueue m s) s;
    schedule = λ m s. reject (validate (some m)) m (store.schedule m s) s;
  }

  -- Behind the check or not, a valid message is persisted the same way.
  persist-checked :
      (store : Store S) (now : ℤ) (task : Task) (o : TaskOptions) (s : S)
      → text_eq task.type_name [] ≡ false
      → IsValid o
      → persist (checked store) now (message now task o) s
        ≡ persist store now (message now task o) s
  unfolding persist
  persist-checked store now task o s t h =
      rw (message-validate now task o t h, message-validate-scheduled now task o t h) refl

  with-checked :
      (store : Store S) (now : ℤ) (task : Task) (x : Result TaskOptions) (s : S)
      → text_eq task.type_name [] ≡ false
      → AreValid x
      → enqueue_with (checked store) now task x s ≡ enqueue_with store now task x s
  unfolding enqueue_with AreValid
  with-checked store now task (ok o) s t h = persist-checked store now task o s t h
  with-checked store now task (err e) s t h = refl

  -- A client never hands its store a message that Validate rejects: with a check of every message
  -- before the store, the client returns the same and the store ends up the same, for any task,
  -- options and store. The ids that newID makes are not empty.
  pub enqueue-checked :
      (store : Store S) (ctx : Option Error) (now : ℤ) (id : Text) (task : Option Task)
      (opts : List (Option TaskOption)) (s : S)
      → text_eq id [] ≡ false
      → enqueue (some (checked store)) ctx now (ok id) task opts s
        ≡ enqueue (some store) ctx now (ok id) task opts s
  unfolding enqueue enqueue_task enqueue_live
  enqueue-checked store ctx now id none opts s h = refl
  enqueue-checked store (some e) now id (some task) opts s h = refl
  enqueue-checked store none now id (some task) opts s h =
      elim (Bool-cases (text_eq task.type_name [])) [
        | inl e ↦ rw e refl
        | inr e ↦ rw e (
            with-checked store now task _ s e (
              apply_all-AreValid (task.opts ++ opts) (defaults id now) (defaults-IsValid id now h)))
      ]
