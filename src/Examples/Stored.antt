-- ===== src/Examples/Stored.antt =====
-- The Redis store as the store of a client: what Enqueue and Schedule leave of a message.
use go_task_engine.Prelude.{ℕ, zero, suc, Option, none, some, List, Bool-cases, inl, inr, String}
use go_task_engine.Prelude.Text.{Text}
use go_task_engine.Errors.{Error, Sentinel}
use go_task_engine.Result.{Result, ok, err}
use go_task_engine.Float.{Float64}
use go_task_engine.Model.{TaskMessage, TaskState, is_zero, validate}
use go_task_engine.Redis.{Redis}
use go_task_engine.RedisStore.Store.Base.{Codec, Link, settle}
use go_task_engine.RedisStore.Store.Intake.{
  enqueue, enqueue_checked, enqueue_valid, schedule, schedule_checked, schedule_valid,
}
use go_task_engine.Client.{Store}
use go_task_engine.Examples.Support.{ProducerConfig}
use go_task_engine.Examples.Sent.{IsFor, Keeps}

module _ (c : ProducerConfig) (bytes : List ℕ) where
  with_state-IsFor :
      (m : TaskMessage) (s : TaskState) → IsFor c bytes m → IsFor c bytes (record m { state = s })
  with_state-IsFor m s h = record {
    payload = h.payload;
    queue = h.queue;
    max_retry = h.max_retry;
    timeout = h.timeout;
  }

  settle-IsFor :
      (what : String) (e : Sentinel) (m : TaskMessage) (s : TaskState) (reply : Result ℕ)
      → IsFor c bytes m
      → IsFor c bytes (settle what e (λ n. record n { state = s }) m reply).1
  unfolding settle
  settle-IsFor what e m s (err x) h = h
  settle-IsFor what e m s (ok zero) h = h
  settle-IsFor what e m s (ok (suc n)) h = with_state-IsFor m s h

module _ {B : Type 0} (r : Redis B) (json : Codec B) (f : Float64) (link : Link) where
  abbrev Space : Type 0
  Space = Text → r.Db

  -- The store that redisstore.New makes, for a client.
  abbrev pub client_store : Store Space
  client_store = record { enqueue = enqueue r json f link; schedule = schedule r json f link }

  module _ (c : ProducerConfig) (bytes : List ℕ) (m : TaskMessage) (sp : Space)
      (h : IsFor c bytes m) where
    enqueue_valid-IsFor : (b : Result B) → IsFor c bytes (enqueue_valid r json f link m b sp).0.1
    unfolding enqueue_valid
    enqueue_valid-IsFor (err e) = h
    enqueue_valid-IsFor (ok b) = settle-IsFor c bytes _ _ m TaskState.pending _ h

    enqueue_checked-IsFor :
        (e : Option Error) → IsFor c bytes (enqueue_checked r json f link m e sp).0.1
    unfolding enqueue_checked
    enqueue_checked-IsFor (some e) = h
    enqueue_checked-IsFor none = enqueue_valid-IsFor (json.marshal m)

    schedule_valid-IsFor : (b : Result B) → IsFor c bytes (schedule_valid r json f link m b sp).0.1
    unfolding schedule_valid
    schedule_valid-IsFor (err e) = h
    schedule_valid-IsFor (ok b) = settle-IsFor c bytes _ _ m TaskState.scheduled _ h

    schedule_checked-IsFor :
        (e : Option Error) → IsFor c bytes (schedule_checked r json f link m e sp).0.1
    unfolding schedule_checked
    schedule_checked-IsFor (some e) = h
    schedule_checked-IsFor none = elim (Bool-cases (is_zero m.run_at)) [
      | inl z ↦ rw z h
      | inr z ↦ rw z (schedule_valid-IsFor (json.marshal m))
    ]

  pub client_store-Keeps : Keeps client_store
  unfolding enqueue schedule
  client_store-Keeps = record {
    enqueued = λ c bytes m sp h. enqueue_checked-IsFor c bytes m sp h (validate (some m));
    scheduled = λ c bytes m sp h. schedule_checked-IsFor c bytes m sp h (validate (some m));
  }
