-- ===== src/Tests/Programs.antt =====
-- The store, the worker, the client and the errors at concrete inputs.
use go_task_engine.Prelude.{ℕ, ◌≡◌, refl, min, ◌*◌, ◌^◌, Option, none, some, List, [], ◌∷◌, arith}
use go_task_engine.Prelude.Int.{ℤ, pos, pos_part}
use go_task_engine.Prelude.Text.{Text, codes, text_eq}
use go_task_engine.Errors.{Error, plain}
use go_task_engine.Result.{ok}
use go_task_engine.Model.{TaskMessage, TaskState}
use go_task_engine.Redis.Keyspace.{View, empty_view, empty_hash}
use go_task_engine.Redis.Reference.{reference}
use go_task_engine.RedisStore.Store.Base.{sound}
use go_task_engine.Server.Backoff.{exponential_backoff, or_else_seconds, exponential_backoff-eq_min}
use go_task_engine.Server.Metrics.{new_metrics}
use go_task_engine.Server.Process.{World, Limit, process}
use go_task_engine.Server.OnRedis.{
  redis_store, outcome, Left, Untouched, process-outcome, process-late,
}
use go_task_engine.Client.{Store, Task, enqueue, with_priority, process_in}
use go_task_engine.Client.Valid.{checked, enqueue-checked}
use go_task_engine.Tests.Mails.{same_json-Encodes, claimed_mail, same_json}

abbrev seconds : ℕ → ℤ
seconds n = pos (n * 10 ^ 9)

-- Five retries of 2 seconds at most 60 seconds apart.
exponential_backoff-eq_min_example :
    exponential_backoff (pos 5) (seconds 2) (seconds 60)
    ≡ pos (
        min
          (or_else_seconds 3600 (seconds 60))
          (or_else_seconds 2 (seconds 2) * 2 ^ pos_part (pos 5)))
exponential_backoff-eq_min_example =
    exponential_backoff-eq_min (pos 5) (seconds 2) (seconds 60) (omega arith, omega arith)

-- An encoding that keeps the message.
abbrev nothing : Text → View TaskMessage
nothing = λ q. empty_view

-- A queue in which the task is active under the attempt "a".
abbrev running : Text → View TaskMessage
running = λ q. record empty_view {
  hash = λ id. record empty_hash { state = some TaskState.active; attempt_id = some (codes "a") };
}

abbrev before : World (Text → View TaskMessage)
before = record { store = running; metrics = some new_metrics; reports = [] }

abbrev failing :
    Limit
    → TaskMessage
    → (Text → View TaskMessage)
    → (Option Error × TaskMessage) × (Text → View TaskMessage)
failing = λ l m sp. ((some (plain "no route"), m), sp)

process-outcome_example :
    Left
      (reference TaskMessage)
      same_json
      claimed_mail
      (outcome claimed_mail (some (plain "no route")))
      []
      (process
        (redis_store (reference TaskMessage) same_json sound)
        (pos 5)
        (λ e. [])
        (λ n. pos 7)
        failing
        (pos 3)
        claimed_mail
        before)
unfolding text_eq
process-outcome_example =
    process-outcome (reference TaskMessage) same_json (same_json-Encodes (reference TaskMessage))
      (pos 5) (pos 3) (λ e. []) (λ n. pos 7) failing claimed_mail claimed_mail
      (some (plain "no route")) running before (tt, tt, tt, tt, tt) tt refl refl

-- The lease ended while the handler ran, and the queue was emptied.
abbrev losing :
    Limit
    → TaskMessage
    → (Text → View TaskMessage)
    → (Option Error × TaskMessage) × (Text → View TaskMessage)
losing = λ l m sp. ((none, m), nothing)

process-late_example : Untouched (reference TaskMessage) same_json nothing [] (
    process
      (redis_store (reference TaskMessage) same_json sound)
      (pos 5)
      (λ e. [])
      (λ n. pos 7)
      losing
      (pos 3)
      claimed_mail
      before)
process-late_example =
    process-late (reference TaskMessage) same_json (same_json-Encodes (reference TaskMessage))
      (pos 5) (pos 3) (λ e. []) (λ n. pos 7) losing claimed_mail claimed_mail none nothing before
      (tt, tt, tt, tt, tt) tt refl refl

-- A store that keeps every message.
abbrev keeping : Store (List TaskMessage)
keeping = record { enqueue = λ m s. ((none, m), m ∷ s); schedule = λ m s. ((none, m), m ∷ s) }

abbrev task : Task
task = record {
  type_name = codes "mail";
  payload = 1 ∷ 2 ∷ [];
  opts = some (with_priority (pos 4)) ∷ none ∷ [];
}

enqueue-checked_example :
    enqueue
      (some (checked keeping))
      none
      (pos 100)
      (ok (codes "id"))
      (some task)
      (some (process_in (pos 50)) ∷ [])
      []
    ≡ enqueue
        (some keeping)
        none
        (pos 100)
        (ok (codes "id"))
        (some task)
        (some (process_in (pos 50)) ∷ [])
        []
unfolding text_eq
enqueue-checked_example =
    enqueue-checked keeping none (pos 100) (codes "id") (some task)
      (some (process_in (pos 50)) ∷ []) [] refl
