-- ===== src/Client.antt =====
-- client/client.go: tasks, their options, and how a client persists them.
pub mod Valid
use go_task_engine.Prelude.{
  ℕ, Bool, true, false, Option, none, some, List, [], ◌∷◌, ◌++◌, if◌then◌else◌,
}
use go_task_engine.Prelude.Int.{ℤ, pos, ltb_ℤ, ◌+ℤ◌}
use go_task_engine.Prelude.Text.{Text, codes, text_eq}
use go_task_engine.Errors.{Error, plain, wrap}
use go_task_engine.Result.{Result, ok, err, ◌>>=◌, in_context}
use go_task_engine.Model.{TaskMessage, TaskState, is_zero, zero_time}

-- The store that a client uses: the interface Store. A method that changes the message returns it.
pub record Store (S : Type 0) : Type 0 where
  pub enqueue : TaskMessage → S → (Option Error × TaskMessage) × S
  pub schedule : TaskMessage → S → (Option Error × TaskMessage) × S

pub record TaskOptions : Type 0 where
  pub id : Text
  pub queue : Text
  pub priority : ℤ
  pub max_retry : ℤ
  pub timeout : ℤ
  pub deadline : ℤ
  pub run_at : ℤ
  pub run_at_set : Bool
  pub run_in : ℤ
  pub run_in_set : Bool

-- The options of the package; nobody else can name the type that they change.
pub data TaskOption : Type 0 where
  with_task_id with_queue : Text → TaskOption
  with_priority with_max_retry with_timeout with_deadline : ℤ → TaskOption
  process_at process_in : ℤ → TaskOption

unfoldable pub apply : TaskOption → TaskOptions → Result TaskOptions
apply (with_task_id id) o =
    if text_eq id [] then err (plain "task id cannot be empty") else ok (record o { id = id })
apply (with_queue q) o =
    if text_eq q [] then err (plain "queue cannot be empty") else ok (record o { queue = q })
apply (with_priority p) o =
    if ltb_ℤ p (pos 0)
    then err (plain "priority must be non-negative")
    else ok (record o { priority = p })
apply (with_max_retry n) o =
    if ltb_ℤ n (pos 0)
    then err (plain "max retry must be non-negative")
    else ok (record o { max_retry = n })
apply (with_timeout d) o =
    if ltb_ℤ d (pos 0)
    then err (plain "timeout cannot be negative")
    else ok (record o { timeout = d })
apply (with_deadline t) o = ok (record o { deadline = t })
apply (process_at t) o =
    if is_zero t
    then err (plain "process time cannot be zero")
    else ok (record o { run_at = t; run_at_set = true; run_in_set = false })
apply (process_in d) o =
    if ltb_ℤ d (pos 0)
    then err (plain "process delay cannot be negative")
    else ok (record o { run_in = d; run_in_set = true; run_at_set = false })

-- The loop over the options, in which nil is skipped and the first error ends.
unfoldable pub apply_all : List (Option TaskOption) → TaskOptions → Result TaskOptions
unfolding apply
apply_all [] o = ok o
apply_all (none ∷ os) o = apply_all os o
apply_all (some x ∷ os) o = apply x o >>= apply_all os

-- A task with a type, a payload and options.
pub record Task : Type 0 where
  pub type_name : Text
  pub payload : List ℕ
  pub opts : List (Option TaskOption)

-- NewTask, which copies the payload.
abbrev pub new_task : Text → List ℕ → List (Option TaskOption) → Option Task
new_task type_name payload opts =
    some (record { type_name = type_name; payload = payload; opts = opts })

-- DefaultQueue and DefaultMaxRetry among the defaults of Enqueue.
abbrev pub defaults : Text → ℤ → TaskOptions
defaults id now = record {
  id = id;
  queue = codes "default";
  priority = pos 0;
  max_retry = pos 3;
  timeout = pos 0;
  deadline = zero_time;
  run_at = now;
  run_at_set = false;
  run_in = pos 0;
  run_in_set = false;
}

-- `if options.runInSet { options.runAt = now.Add(options.runIn) }`
abbrev pub run_time : ℤ → TaskOptions → ℤ
run_time now o = if o.run_in_set then now +ℤ o.run_in else o.run_at

-- The message of a task whose options are applied.
unfoldable pub message : ℤ → Task → TaskOptions → TaskMessage
message now task o = record {
  id = o.id;
  type = task.type_name;
  payload = task.payload;
  queue = o.queue;
  priority = o.priority;
  max_retry = o.max_retry;
  retry_count = pos 0;
  timeout = o.timeout;
  deadline = o.deadline;
  run_at = run_time now o;
  state = TaskState.pending;
  attempt_id = [];
  last_error = [];
  last_failed_at = zero_time;
  completed_at = zero_time;
  created_at = now;
}

module _ {S : Type 0} where
  abbrev pub persisted : (Option Error × TaskMessage) × S → Result TaskMessage × S
  persisted ((none, msg), s) = (ok msg, s)
  persisted ((some e, msg), s) = (err e, s)

  -- The end of Enqueue: a message whose time has not come is scheduled.
  unfoldable pub persist : Store S → ℤ → TaskMessage → S → Result TaskMessage × S
  persist store now msg s =
      if ltb_ℤ now msg.run_at
      then persisted (store.schedule (record msg { state = TaskState.scheduled }) s)
      else persisted (store.enqueue msg s)

  -- Enqueue once its task has options.
  unfoldable pub enqueue_with : Store S → ℤ → Task → Result TaskOptions → S → Result TaskMessage × S
  unfolding message persist
  enqueue_with store now task (err e) s = (err e, s)
  enqueue_with store now task (ok o) s = persist store now (message now task o) s

  unfoldable pub enqueue_live :
      Store S → ℤ → Result Text → Task → List (Option TaskOption) → S → Result TaskMessage × S
  unfolding apply_all enqueue_with
  enqueue_live store now (err e) task opts s = (err (wrap "create task id" e), s)
  enqueue_live store now (ok id) task opts s =
      enqueue_with store now task (apply_all (task.opts ++ opts) (defaults id now)) s

  unfoldable pub enqueue_task :
      Store S
      → Option Error
      → ℤ
      → Result Text
      → Task
      → List (Option TaskOption)
      → S
      → Result TaskMessage × S
  unfolding enqueue_live text_eq
  enqueue_task store (some e) now id task opts s =
      if text_eq task.type_name []
      then (err (plain "task type cannot be empty"), s)
      else (err (wrap "enqueue context" e), s)
  enqueue_task store none now id task opts s =
      if text_eq task.type_name []
      then (err (plain "task type cannot be empty"), s)
      else enqueue_live store now id task opts s

  -- (*Client).Enqueue. The store may be nil, and so may the task; then come the error of the
  -- context, the clock, and what newID returned.
  unfoldable pub enqueue :
      Option (Store S)
      → Option Error
      → ℤ
      → Result Text
      → Option Task
      → List (Option TaskOption)
      → S
      → Result TaskMessage × S
  unfolding enqueue_task
  enqueue none ctx now id task opts s = (err (plain "client store is nil"), s)
  enqueue (some store) ctx now id none opts s = (err (plain "task is nil"), s)
  enqueue (some store) ctx now id (some task) opts s = enqueue_task store ctx now id task opts s

  -- EnqueueAt and EnqueueIn.
  unfoldable pub enqueue_at :
      Option (Store S)
      → Option Error
      → ℤ
      → Result Text
      → Option Task
      → ℤ
      → List (Option TaskOption)
      → S
      → Result TaskMessage × S
  unfolding enqueue
  enqueue_at store ctx now id task at opts s =
      enqueue store ctx now id task (some (process_at at) ∷ opts) s

  unfoldable pub enqueue_in :
      Option (Store S)
      → Option Error
      → ℤ
      → Result Text
      → Option Task
      → ℤ
      → List (Option TaskOption)
      → S
      → Result TaskMessage × S
  unfolding enqueue
  enqueue_in store ctx now id task delay opts s =
      enqueue store ctx now id task (some (process_in delay) ∷ opts) s
