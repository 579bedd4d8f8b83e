-- ===== src/Tests/Mails.antt =====
-- The messages of the tests, and a codec that keeps them as they are.
use go_task_engine.Prelude.{[], refl}
use go_task_engine.Prelude.Int.{pos}
use go_task_engine.Prelude.Text.{codes}
use go_task_engine.Result.{ok}
use go_task_engine.Model.{TaskMessage, TaskState, zero_time}
use go_task_engine.Redis.{Redis}
use go_task_engine.RedisStore.Store.Base.{Codec}
use go_task_engine.Server.OnRedis.{Encodes}

abbrev pub pending_mail : TaskMessage
pending_mail = record {
  id = codes "m1";
  type = codes "mail";
  payload = [];
  queue = codes "q";
  priority = pos 1;
  max_retry = pos 3;
  retry_count = pos 0;
  timeout = pos 0;
  deadline = zero_time;
  run_at = pos 0;
  state = TaskState.pending;
  attempt_id = [];
  last_error = [];
  last_failed_at = zero_time;
  completed_at = zero_time;
  created_at = pos 0;
}

abbrev pub claimed_mail : TaskMessage
claimed_mail = record pending_mail { state = TaskState.active; attempt_id = codes "a" }

abbrev pub archived_mail : TaskMessage
archived_mail = record pending_mail {
  state = TaskState.archived;
  retry_count = pos 3;
  last_error = codes "e";
  last_failed_at = pos 8;
}

abbrev pub same_json : Codec TaskMessage
same_json = record { marshal = λ m. ok m; unmarshal = λ m. ok m }

abbrev pub same_json-Encodes : (r : Redis TaskMessage) → Encodes r same_json
same_json-Encodes r = record {
  CanWrite = λ t. Unit;
  encodes = λ m t. (m, refl);
  decodes = λ b m e. (tt, tt, tt, tt, tt);
}
