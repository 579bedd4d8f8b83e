-- ===== src/Tests/Simulations.antt =====
-- The programs under examples/ on command lines.
use go_task_engine.Prelude.{
  ℕ, ◌+◌, ◌*◌, ◌-◌, ◌≡◌, refl, Bool, true, false, Option, none, some, List, [], ◌∷◌, ◌==◌, leb,
  ◌&&◌, arith, if◌then◌else◌,
}
use go_task_engine.Prelude.Int.{ℤ, pos, negsuc, ◌+ℤ◌}
use go_task_engine.Prelude.Text.{Text, codes, text_eq}
use go_task_engine.Errors.{plain}
use go_task_engine.Result.{Result, ok, err}
use go_task_engine.Model.{TaskMessage, TaskState, zero_time, validate, validate_fields}
use go_task_engine.Double.{whole}
use go_task_engine.Client.{
  apply, apply_all, enqueue_with, enqueue_live, enqueue_task, enqueue, enqueue_in, persist, message,
}
use go_task_engine.Examples.Flags.{
  Readers, cut, name_token, dashes_token, token, set, set_flag, set_found, parse,
}
use go_task_engine.Examples.Support.{
  ProducerConfig, WorkerConfig, IsUsable, redis_address, producer_flags, check_producer,
  worker_flags, check_worker, parse_producer_config, parse_worker_config, parse_producer-IsUsable,
  open_redis,
}
use go_task_engine.Examples.Timers.{Waits, in_milliseconds}
use go_task_engine.Examples.Image
use go_task_engine.Examples.Producers.{
  Surroundings, image_payload, image_run, send_parsed, send_connected, send_encoded, send,
}
use go_task_engine.Examples.Stored.{client_store}
use go_task_engine.Float.{unrounded}
use go_task_engine.Redis.Keyspace.{View, empty_view}
use go_task_engine.Redis.Reference.{reference}
use go_task_engine.RedisStore.Scripts.Intake.{enqueue_script}
use go_task_engine.RedisStore.Store.Base
use go_task_engine.RedisStore.Store.Base.{sound, settle, on_queue}
use go_task_engine.RedisStore.Store.Intake
use go_task_engine.Tests.Mails.{same_json}
use go_task_engine.Examples.Handled.{image_run-handled, worked}
use go_task_engine.Examples.Workers.{worker_config, worker_run, worker_run-IsOver}
use go_task_engine.Server.Lifecycle.Run.{IsOver}
use go_task_engine.Server.Config.{apply_defaults, served_queues}

-- Decimal digits, as nanoseconds where a duration is read.
abbrev decimal_from : ℕ → Text → Option ℤ
decimal_from n [] = some (pos n)
decimal_from n (c ∷ cs) = if leb 48 c && leb c 57 then decimal_from (10 * n + (c - 48)) cs else none

abbrev yes_or_no : Text → Option Bool
yes_or_no t = some (text_eq t (codes "true"))

abbrev readers : Readers
readers = record {
  read_int = decimal_from 0;
  read_duration = decimal_from 0;
  read_bool = yes_or_no;
}

abbrev line : List Text
line = codes "-queue=photos" ∷ codes "--duration" ∷ codes "5000000" ∷ codes "-fail" ∷ []

abbrev photos : ProducerConfig
photos = record {
  redis_addr = codes "127.0.0.1:6379";
  queue = codes "photos";
  input = codes "input.jpg";
  enqueue_delay = pos 0;
  duration = pos 5000000;
  timeout = pos 0;
  max_retry = pos 3;
  fail = true;
  invalid = false;
}

parse_producer-IsUsable_example : IsUsable photos
unfolding parse_producer_config parse token name_token dashes_token cut set set_flag set_found
    producer_flags check_producer redis_address text_eq
parse_producer-IsUsable_example =
    parse_producer-IsUsable readers [] (codes "image-producer") line photos refl

abbrev around : Surroundings (Text → View TaskMessage)
around = record {
  readers = readers;
  env = [];
  ping = λ address. none;
  store = λ address. client_store (reference TaskMessage) same_json unrounded sound;
  now = pos 0;
  new_id = ok (codes "id");
}

abbrev one_if : Bool → ℕ
one_if true = 1
one_if false = 0

-- Payloads as numbers in front of a name; only durations that are not negative are encoded.
abbrev encode_image : Image.Payload → Result (List ℕ)
encode_image p = elim p.duration_ms [
  | pos n ↦ ok (one_if p.fail ∷ n ∷ p.source)
  | negsuc n ↦ err (plain "negative")
]

abbrev decode_image : List ℕ → Result Image.Payload
decode_image (f ∷ n ∷ source) = ok (record { source = source; duration_ms = pos n; fail = f == 1 })
decode_image bytes = err (plain "short")

decode-encode_image :
    (p : Image.Payload) (bytes : List ℕ) → encode_image p ≡ ok bytes → decode_image bytes ≡ ok p
decode-encode_image p [] h = ground arith
decode-encode_image p (x ∷ []) h = ground arith
decode-encode_image p (x ∷ n ∷ rest) h = ground arith

abbrev sent_as : Text → List ℕ → Text → TaskMessage
sent_as type bytes queue = record {
  id = codes "id";
  type = type;
  payload = bytes;
  queue = queue;
  priority = pos 0;
  max_retry = pos 3;
  retry_count = pos 0;
  timeout = pos 0;
  deadline = zero_time;
  run_at = pos 0;
  state = TaskState.pending;
  attempt_id = [];
  last_error = [];
  last_failed_at = zero_time;
  completed_at = zero_time;
  created_at = pos 0;
}

abbrev picture : TaskMessage
picture = sent_as (codes "image:process") (1 ∷ 5 ∷ codes "input.jpg") (codes "photos")

image_run-handled_example :
    (c : ProducerConfig) × (parse_producer_config readers [] (codes "image-producer") line ≡ ok c)
    × (picture.queue ≡ c.queue)
    × (picture.max_retry ≡ c.max_retry)
    × (picture.timeout ≡ c.timeout)
    × ((waits : Waits)
        → Image.process_task decode_image waits picture
          ≡ worked waits c "simulated image processor failure")
unfolding image_run send_parsed send_connected send_encoded send in_milliseconds open_redis
    parse_producer_config parse token name_token dashes_token cut set set_flag set_found
    producer_flags check_producer redis_address text_eq enqueue_in enqueue enqueue_task enqueue_live
    enqueue_with apply_all apply persist message ◌+ℤ◌ Intake.enqueue Intake.enqueue_checked
    Intake.enqueue_valid validate validate_fields enqueue_script settle on_queue Base.send
image_run-handled_example =
    image_run-handled (reference TaskMessage) same_json unrounded (λ address. sound) around
      (λ address. refl) encode_image decode_image line (λ q. empty_view) picture
      (λ c bytes e h. decode-encode_image (image_payload c) bytes h) refl

abbrev briefly : WorkerConfig
briefly = record { redis_addr = codes "127.0.0.1:6379"; run_for = pos 50 }

worker_run-IsOver_example :
    IsOver whole
      (worker_run whole [] true true readers
        (λ address. none)
        []
        (codes "image")
        (codes "-run-for=50" ∷ [])).1
    × (served_queues (apply_defaults whole (worker_config whole (codes "image"))).queues
        ≡ codes "image" ∷ [])
unfolding parse_worker_config parse token name_token dashes_token cut set set_flag set_found
    worker_flags check_worker redis_address text_eq
worker_run-IsOver_example =
    worker_run-IsOver whole [] true true readers (λ address. none) [] (codes "image")
      (codes "-run-for=50" ∷ []) briefly refl refl refl refl
