-- ===== src/Server/Heartbeat.antt =====
-- The tasks at work that the server remembers (trackActive, untrackActive), and one beat of
-- `heartbeatLoop`, which renews their leases.
pub mod Renewal
use go_task_engine.Prelude.{
  ℕ, ◌≡◌, ◌⊎◌, refl, sym, subst, Bool, true, false, ◌&&◌, Option, none, some, List, [], ◌∷◌, ◌++◌,
  map, inl, inr, Bool-cases, if◌then◌else◌, arith,
}
use go_task_engine.Prelude.Int.{ℤ, pos}
use go_task_engine.Prelude.Text.{Text, text_eq, text_eq→eq, text_eq_iff}
use go_task_engine.Errors.{Error}
use go_task_engine.Model.{TaskMessage, TaskState, zero_time}
use go_task_engine.Storage.{TaskSource}
use go_task_engine.Redis.{Redis}
use go_task_engine.Float.{Float64}
use go_task_engine.Result.{Result}
use go_task_engine.RedisStore.Store.Base.{Codec, Link, sound}
use go_task_engine.RedisStore.Store.Finish.{owned_tasks}
use go_task_engine.RedisStore.Store.Leases.{
  Lists, Owns, Leased, until, extended, extended-Owns, extended-Leased, extended-Lists,
}
use go_task_engine.Server.Process.{World}
use go_task_engine.Server.Dispatch.{report}
use go_task_engine.Server.Dispatch.Order.{redis_source}

-- activeTaskKey
pub record ActiveKey : Type 0 where
  pub queue : Text
  pub id : Text
  pub attempt_id : Text

unfoldable pub active_key : TaskMessage → ActiveKey
active_key m = record { queue = m.queue; id = m.id; attempt_id = m.attempt_id }

abbrev pub key_eq : ActiveKey → ActiveKey → Bool
key_eq j k = text_eq j.queue k.queue && text_eq j.id k.id && text_eq j.attempt_id k.attempt_id

-- `delete(s.active, key)`, on the keys of the map `active` in the order in which Go goes through them
unfoldable pub untrack_active : ActiveKey → List ActiveKey → List ActiveKey
untrack_active k [] = []
untrack_active k (j ∷ js) = if key_eq j k then untrack_active k js else j ∷ untrack_active k js

-- `s.active[key] = msg`
unfoldable pub track_active : TaskMessage → List ActiveKey → List ActiveKey
unfolding untrack_active active_key
track_active m js = active_key m ∷ untrack_active (active_key m) js

-- The message that a beat makes of a key; its other fields are zero.
unfoldable pub key_message : ActiveKey → TaskMessage
key_message k = record {
  id = k.id;
  type = [];
  payload = [];
  queue = k.queue;
  priority = pos 0;
  max_retry = pos 0;
  retry_count = pos 0;
  timeout = pos 0;
  deadline = zero_time;
  run_at = zero_time;
  state = TaskState.pending;
  attempt_id = k.attempt_id;
  last_error = [];
  last_failed_at = zero_time;
  completed_at = zero_time;
  created_at = zero_time;
}

-- `byQueue[key.queue] = append(byQueue[key.queue], …)`
unfoldable pub add_key :
    ActiveKey → List (Text × List (Option TaskMessage)) → List (Text × List (Option TaskMessage))
add_key k [] = (k.queue, some (key_message k) ∷ []) ∷ []
add_key k ((q, tasks) ∷ groups) =
    if text_eq q k.queue
    then (q, tasks ++ some (key_message k) ∷ []) ∷ groups
    else (q, tasks) ∷ add_key k groups

unfoldable pub by_queue :
    List ActiveKey
    → List (Text × List (Option TaskMessage))
    → List (Text × List (Option TaskMessage))
unfolding add_key
by_queue [] groups = groups
by_queue (k ∷ ks) groups = by_queue ks (add_key k groups)

module _ {S : Type 0} (s : TaskSource S) (now lease : ℤ) where
  unfoldable pub beaten : Option Error × S → World S → World S
  beaten (none, s') w = record w { store = s' }
  beaten (some e, s') w = report e (record w { store = s' })

  unfoldable pub beat_groups : List (Text × List (Option TaskMessage)) → World S → World S
  unfolding beaten
  beat_groups [] w = w
  beat_groups ((q, tasks) ∷ groups) w =
      beat_groups groups (beaten (s.extend_lease q tasks now lease w.store) w)

  -- One tick of heartbeatLoop.
  unfoldable pub heartbeat : List ActiveKey → World S → World S
  unfolding beat_groups by_queue
  heartbeat ks w = beat_groups (by_queue ks []) w
