-- ===== src/Tests/Servers.antt =====
-- The server and the Redis store at concrete inputs.
use go_task_engine.Prelude.{◌≡◌, refl, true, false, none, some, List, [], ◌∷◌, inl, arith}
use go_task_engine.Prelude.Int.{ℤ, pos}
use go_task_engine.Prelude.Text.{Text, codes, text_eq}
use go_task_engine.Double.{whole}
use go_task_engine.Model.{TaskMessage, TaskState, validate, validate_fields}
use go_task_engine.Result.{ok}
use go_task_engine.Float.{unrounded}
use go_task_engine.Redis.Keyspace.{View, empty_view, empty_hash}
use go_task_engine.Redis.Reference.{reference}
use go_task_engine.RedisStore.Invariant.Records.{Inv-empty}
use go_task_engine.Redis.Order.{IsAscending}
use go_task_engine.RedisStore.Calls
use go_task_engine.RedisStore.Calls.{run}
use go_task_engine.RedisStore.Calls.Order.{run-Inv}
use go_task_engine.RedisStore.Calls.Ranked.{run-Ranked}
use go_task_engine.RedisStore.Keys
use go_task_engine.RedisStore.Keys.{Key, key_name, key_name-injective, key_name-collides}
use go_task_engine.RedisStore.Store.Base.{sound}
use go_task_engine.RedisStore.Store.Intake.{enqueue}
use go_task_engine.RedisStore.Store.Reads.{get}
use go_task_engine.RedisStore.Store.Leases.{Leased, lease_end}
use go_task_engine.RedisStore.Store.Lookup.{get-enqueue}
use go_task_engine.Server.Config.{Config, apply_defaults, validate_config, served_queues}
use go_task_engine.Server.Queues.{Served, served_queues-Served}
use go_task_engine.Server.Lifecycle.{
  ServerState, Action, call_start, call_stop, call_request_stop, call_shutdown, act_all, fresh,
  start, IsSound, IsSafe, act_all-fresh, start-bounds,
}
use go_task_engine.Server.Process.{World}
use go_task_engine.Server.Metrics.{new_metrics}
use go_task_engine.Server.Dispatch.{claim_first}
use go_task_engine.Server.Dispatch.Order
use go_task_engine.Server.Dispatch.Order.{redis_source, claim_first-Served}
use go_task_engine.Server.Dispatch.Delivery.{claim_first-enqueue}
use go_task_engine.Server.Heartbeat.{active_key, heartbeat}
use go_task_engine.Server.Heartbeat.Renewal.{heartbeat-Leased}
use go_task_engine.Tests.Mails.{pending_mail, same_json}

abbrev configured : List (Text × ℤ)
configured = (codes "low", pos 1) ∷ (codes "off", pos 0) ∷ (codes "high", pos 3) ∷ []

served_queues-Served_example : Served configured (served_queues configured)
served_queues-Served_example = served_queues-Served configured

-- A configuration that leaves all but a queue and the retry jitter to the defaults.
abbrev config : Config ℤ
config = record {
  concurrency = pos 0;
  queues = configured;
  lease_duration = pos 0;
  poll_interval = pos 0;
  shutdown_timeout = pos 0;
  retry_base_delay = pos 0;
  retry_max_delay = pos 0;
  retry_jitter = pos 1;
  heartbeat_interval = pos 0;
  recovery_interval = pos 0;
  token_bucket = none;
  token_amount = pos 0;
}

abbrev ready : Config ℤ
ready = apply_defaults whole config

abbrev actions : List (Action ℤ)
actions =
    call_start ready true
    ∷ call_request_stop
    ∷ call_stop
    ∷ call_shutdown true false
    ∷ call_start ready true
    ∷ []

act_all-fresh_example : IsSound (act_all whole actions fresh)
act_all-fresh_example = act_all-fresh whole actions

start-bounds_example : (fresh.state ≡ ServerState.new) × (true ≡ true) × IsSafe whole ready
unfolding start validate_config apply_defaults
start-bounds_example = start-bounds whole config true fresh refl

abbrev nothing : Text → View TaskMessage
nothing = λ q. empty_view

abbrev world : (Text → View TaskMessage) → World (Text → View TaskMessage)
world sp = record { store = sp; metrics = some new_metrics; reports = [] }

get-enqueue_example :
    get
      (reference TaskMessage)
      same_json
      sound
      (codes "q")
      (codes "m1")
      (enqueue (reference TaskMessage) same_json unrounded sound pending_mail nothing).1
    ≡ ok (record pending_mail { state = TaskState.pending; attempt_id = [] })
unfolding validate validate_fields text_eq
get-enqueue_example =
    get-enqueue (reference TaskMessage) same_json unrounded pending_mail pending_mail nothing refl
      refl refl refl

key_name-injective_example :
    (codes "q" ≡ codes "q") × (Keys.task (codes "m") ≡ Keys.task (codes "m"))
key_name-injective_example =
    key_name-injective (codes "q") (codes "q") (Keys.task (codes "m")) (Keys.task (codes "m"))
      (ground arith, tt) (ground arith, tt) refl

-- The list of the queue "a}:task:b" is the hash of the task "b}:pending" of the queue "a".
key_name-collides_example :
    key_name (codes "a}:task:b") Keys.pending
    ≡ key_name (codes "a") (Keys.task (codes "b}:pending"))
unfolding Keys.suffix
key_name-collides_example = key_name-collides (codes "a") (codes "b") Keys.pending

-- Every queue has a pending task.
abbrev filled : Text → View TaskMessage
filled = λ q.
    run (reference TaskMessage) (Calls.enqueue (codes "m1") pending_mail (pos 0) (pos 50) ∷ [])
      empty_view

claim_first-Served_example :
    Order.Served
      (reference TaskMessage)
      same_json
      unrounded
      (pos 30)
      (λ q. codes "a")
      (λ q. pos 5)
      (pos 20)
      (pos 30)
      filled
      (claim_first
        (redis_source
          (reference TaskMessage)
          same_json
          unrounded
          (pos 30)
          sound
          (λ q. ok (codes "a")))
        (pos 0)
        (λ q. pos 5)
        (pos 20)
        (pos 30)
        (codes "q" ∷ [])
        (world filled)).1.store
      (claim_first
        (redis_source
          (reference TaskMessage)
          same_json
          unrounded
          (pos 30)
          sound
          (λ q. ok (codes "a")))
        (pos 0)
        (λ q. pos 5)
        (pos 20)
        (pos 30)
        (codes "q" ∷ [])
        (world filled)).0
      (codes "q" ∷ [])
claim_first-Served_example =
    claim_first-Served (reference TaskMessage) same_json unrounded (pos 30) (λ q. codes "a")
      (λ q. pos 5) (pos 20) (pos 30) (λ m. (m, refl)) (codes "q" ∷ []) (world filled)
      (λ q. (
        run-Inv (reference TaskMessage) _ empty_view Inv-empty,
        run-Ranked (reference TaskMessage) _ empty_view IsAscending.nil,
      ))

claim_first-enqueue_example :
    (claim_first
      (redis_source
        (reference TaskMessage)
        same_json
        unrounded
        (pos 30)
        sound
        (λ q. ok (codes "a")))
      (pos 0)
      (λ q. pos 5)
      (pos 20)
      (pos 30)
      (codes "q" ∷ codes "later" ∷ [])
      (world (enqueue (reference TaskMessage) same_json unrounded sound pending_mail nothing).1)).0
    ≡ some (record pending_mail { state = TaskState.active; attempt_id = codes "a" })
unfolding validate validate_fields text_eq
claim_first-enqueue_example =
    claim_first-enqueue (reference TaskMessage) same_json unrounded (pos 30) (λ q. codes "a")
      (λ q. pos 5) (pos 20) (pos 30) (λ m. (m, refl)) pending_mail pending_mail (world nothing)
      (codes "later" ∷ []) (λ q. (Inv-empty, IsAscending.nil)) refl refl refl refl
      (λ id. ground arith)

-- A queue in which the attempt "a" owns the task.
abbrev working : Text → View TaskMessage
working = λ q. record empty_view {
  hash = λ id. record empty_hash { state = some TaskState.active; attempt_id = some (codes "a") };
}

abbrev worked : TaskMessage
worked = record pending_mail { attempt_id = codes "a" }

heartbeat-Leased_example : Leased (codes "m1") (codes "a") (lease_end (pos 30) (pos 5) (pos 30)) (
    (heartbeat
        (redis_source
          (reference TaskMessage)
          same_json
          unrounded
          (pos 30)
          sound
          (λ q. ok (codes "a")))
        (pos 5)
        (pos 30)
        (active_key worked ∷ [])
        (world working)).store
      (codes "q"))
unfolding active_key text_eq
heartbeat-Leased_example =
    heartbeat-Leased (reference TaskMessage) same_json unrounded (pos 30) (pos 5) (pos 30)
      (λ q. ok (codes "a")) (active_key worked) (active_key worked ∷ []) (world working) (inl refl)
      refl
