-- ===== src/Examples/Producers.antt =====
-- run of examples/image-processing/cmd/producer/main.go and of examples/c2pa-signing/cmd/producer/main.go.
use go_task_engine.Prelude.{ℕ, Option, none, some, List, [], ◌∷◌}
use go_task_engine.Prelude.Int.{ℤ}
use go_task_engine.Prelude.Text.{Text, codes}
use go_task_engine.Errors.{Error}
use go_task_engine.Result.{Result, ok, err, in_context}
use go_task_engine.Model.{TaskMessage}
use go_task_engine.Client.{
  Store, TaskOption, with_queue, with_max_retry, with_timeout, new_task, enqueue_in,
}
use go_task_engine.Examples.Flags.{Readers}
use go_task_engine.Examples.Support.{ProducerConfig, parse_producer_config, open_redis}
use go_task_engine.Examples.Timers.{in_milliseconds}
use go_task_engine.Examples.Image
use go_task_engine.Examples.Signing

-- The options of both producers.
abbrev pub producer_options : ProducerConfig → List (Option TaskOption)
producer_options c =
    some (with_queue c.queue)
    ∷ some (with_max_retry c.max_retry)
    ∷ some (with_timeout c.timeout)
    ∷ []

-- The payloads that they encode.
abbrev pub image_payload : ProducerConfig → Image.Payload
image_payload c = record {
  source = c.input;
  duration_ms = in_milliseconds c.duration;
  fail = c.fail;
}

abbrev pub signing_payload : ProducerConfig → Signing.Payload
signing_payload c = record {
  asset = c.input;
  duration_ms = in_milliseconds c.duration;
  fail = c.fail;
  invalid = c.invalid;
}

-- What surrounds a producer: the command line's values, the environment, the servers at each address
-- and the stores that redisstore.New makes of them, the clock, and newID.
pub record Surroundings (S : Type 0) : Type 0 where
  pub readers : Readers
  pub env : Text
  pub ping : Text → Option Error
  pub store : Text → Store S
  pub now : ℤ
  pub new_id : Result Text

module _ {S : Type 0} (w : Surroundings S) where
  -- From NewClient on; the message is the one that the log names.
  unfoldable pub send : Text → ProducerConfig → Text → List ℕ → S → Result TaskMessage × S
  unfolding enqueue_in
  send type_name c rdb payload s =
      enqueue_in (some (w.store rdb)) none w.now w.new_id (new_task type_name payload [])
        c.enqueue_delay (producer_options c) s

  unfoldable pub send_encoded :
      Text → ProducerConfig → Text → Result (List ℕ) → S → Result TaskMessage × S
  unfolding send
  send_encoded type_name c rdb (err e) s = (err e, s)
  send_encoded type_name c rdb (ok payload) s = send type_name c rdb payload s

  unfoldable pub send_connected :
      Text
      → (ProducerConfig → Result (List ℕ))
      → ProducerConfig
      → Result Text
      → S
      → Result TaskMessage × S
  unfolding send_encoded
  send_connected type_name encode c (err e) s = (err e, s)
  send_connected type_name encode c (ok rdb) s = send_encoded type_name c rdb (encode c) s

  -- What both programs do after ParseProducerConfig.
  unfoldable pub send_parsed :
      Text → (ProducerConfig → Result (List ℕ)) → Result ProducerConfig → S → Result TaskMessage × S
  unfolding send_connected open_redis
  send_parsed type_name encode (err e) s = (err e, s)
  send_parsed type_name encode (ok c) s =
      send_connected type_name encode c (open_redis w.ping c.redis_addr w.env) s

  unfoldable pub image_run :
      (Image.Payload → Result (List ℕ)) → List Text → S → Result TaskMessage × S
  unfolding send_parsed parse_producer_config
  image_run encode args s =
      send_parsed (codes "image:process")
        (λ c. in_context "encode image simulation payload" (encode (image_payload c)))
        (parse_producer_config w.readers w.env (codes "image-producer") args) s

  unfoldable pub signing_run :
      (Signing.Payload → Result (List ℕ)) → List Text → S → Result TaskMessage × S
  unfolding send_parsed parse_producer_config
  signing_run encode args s =
      send_parsed (codes "c2pa:sign")
        (λ c. in_context "encode C2PA simulation payload" (encode (signing_payload c)))
        (parse_producer_config w.readers w.env (codes "c2pa-producer") args) s
