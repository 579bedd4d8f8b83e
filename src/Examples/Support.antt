-- ===== src/Examples/Support.antt =====
-- examples/support/support.go: the command lines of the examples.
use go_task_engine.Prelude.{
  ◌*◌, ◌^◌, ◌≡◌, ◌≢◌, Bool, true, false, ◌&&◌, ◌||◌, Option, none, some, List, [], ◌∷◌, arith, ◌==◌,
  if◌then◌else◌,
}
use go_task_engine.Prelude.Int.{ℤ, pos, ltb_ℤ, ◌≤ℤ◌}
use go_task_engine.Prelude.Text.{Text, codes, text_eq, text_eq_iff}
use go_task_engine.Errors.{Error, plain, wrap}
use go_task_engine.Result.{Result, ok, err, ◌>>=◌}
use go_task_engine.Examples.Flags.{
  Readers, Variable, string_var, duration_var, int_var, bool_var, parse,
}

-- RedisAddress; the second text is what the environment has under TASKENGINE_REDIS_ADDR.
unfoldable pub redis_address : Text → Text → Text
redis_address explicit env =
    if text_eq explicit []
    then (if text_eq env [] then codes "127.0.0.1:6379" else env)
    else explicit

-- OpenRedis and ConnectRedis, which gives up after a while: whether the server at an address answers
-- a PING is a parameter. A client is the address that it is connected to.
unfoldable pub open_redis : (Text → Option Error) → Text → Text → Result Text
unfolding redis_address
open_redis ping explicit env = elim (ping (redis_address explicit env)) [
  | none ↦ ok (redis_address explicit env)
  | some e ↦ err (wrap "ping Redis" e)
]

pub record ProducerConfig : Type 0 where
  pub redis_addr : Text
  pub queue : Text
  pub input : Text
  pub enqueue_delay : ℤ
  pub duration : ℤ
  pub timeout : ℤ
  pub max_retry : ℤ
  pub fail : Bool
  pub invalid : Bool

-- strings.HasPrefix and strings.Contains.
abbrev has_prefix : Text → Text → Bool
has_prefix [] s = true
has_prefix (c ∷ cs) [] = false
has_prefix (c ∷ cs) (d ∷ ds) = c == d && has_prefix cs ds

abbrev contains : Text → Text → Bool
contains part [] = has_prefix part []
contains part (c ∷ cs) = has_prefix part (c ∷ cs) || contains part cs

-- The configuration before the flags.
abbrev pub producer_defaults : Text → Text → ProducerConfig
producer_defaults command env = record {
  redis_addr = redis_address [] env;
  queue =
      if contains (codes "image") command
      then codes "image"
      else if contains (codes "c2pa") command
      then codes "c2pa"
      else codes "default";
  input = codes "input.jpg";
  enqueue_delay = pos 0;
  duration = pos (300 * 10 ^ 6);
  timeout = pos 0;
  max_retry = pos 3;
  fail = false;
  invalid = false;
}

unfoldable pub producer_flags : Text → Option (Variable ProducerConfig)
producer_flags name =
    if text_eq name (codes "redis-addr")
    then some (string_var (λ t c. record c { redis_addr = t }))
    else if text_eq name (codes "queue")
    then some (string_var (λ t c. record c { queue = t }))
    else if text_eq name (codes "input")
    then some (string_var (λ t c. record c { input = t }))
    else if text_eq name (codes "delay")
    then some (duration_var (λ d c. record c { enqueue_delay = d }))
    else if text_eq name (codes "duration")
    then some (duration_var (λ d c. record c { duration = d }))
    else if text_eq name (codes "timeout")
    then some (duration_var (λ d c. record c { timeout = d }))
    else if text_eq name (codes "max-retry")
    then some (int_var (λ n c. record c { max_retry = n }))
    else if text_eq name (codes "fail")
    then some (bool_var (λ b c. record c { fail = b }))
    else if text_eq name (codes "invalid")
    then some (bool_var (λ b c. record c { invalid = b }))
    else none

-- The checks after the flags.
unfoldable pub check_producer : ProducerConfig → Result ProducerConfig
check_producer c =
    if text_eq c.queue []
    then err (plain "queue cannot be empty")
    else if text_eq c.input []
    then err (plain "input cannot be empty")
    else if ltb_ℤ c.enqueue_delay (pos 0)
    then err (plain "delay cannot be negative")
    else if ltb_ℤ c.duration (pos 0)
    then err (plain "duration cannot be negative")
    else if ltb_ℤ c.timeout (pos 0)
    then err (plain "timeout cannot be negative")
    else if ltb_ℤ c.max_retry (pos 0)
    then err (plain "max-retry cannot be negative")
    else ok c

unfoldable pub parse_producer_config : Readers → Text → Text → List Text → Result ProducerConfig
unfolding parse producer_flags check_producer
parse_producer_config r env command args =
    parse r producer_flags args (producer_defaults command env) >>= check_producer

pub record WorkerConfig : Type 0 where
  pub redis_addr : Text
  pub run_for : ℤ

unfoldable pub worker_flags : Text → Option (Variable WorkerConfig)
worker_flags name =
    if text_eq name (codes "redis-addr")
    then some (string_var (λ t c. record c { redis_addr = t }))
    else if text_eq name (codes "run-for")
    then some (duration_var (λ d c. record c { run_for = d }))
    else none

unfoldable pub check_worker : WorkerConfig → Result WorkerConfig
check_worker c = if ltb_ℤ c.run_for (pos 0) then err (plain "run-for cannot be negative") else ok c

unfoldable pub parse_worker_config : Readers → Text → List Text → Result WorkerConfig
unfolding parse worker_flags check_worker redis_address
parse_worker_config r env args =
    parse r worker_flags args (record { redis_addr = redis_address [] env; run_for = pos 0 })
    >>= check_worker

-- A configuration that a producer can work with.
abbrev pub IsUsable : ProducerConfig → Type 0
IsUsable c =
    (c.queue ≢ [])
    × (c.input ≢ [])
    × (pos 0 ≤ℤ c.enqueue_delay)
    × (pos 0 ≤ℤ c.duration)
    × (pos 0 ≤ℤ c.timeout)
    × (pos 0 ≤ℤ c.max_retry)

check-IsUsable : (c c' : ProducerConfig) → check_producer c ≡ ok c' → IsUsable c'
unfolding check_producer
check-IsUsable c c' h = ground (arith, text_eq_iff c.queue [], text_eq_iff c.input [])

read-IsUsable :
    (read : Result ProducerConfig) (c : ProducerConfig)
    → (read >>= check_producer) ≡ ok c
    → IsUsable c
read-IsUsable (err e) c h = absurd (ground arith)
read-IsUsable (ok found) c h = check-IsUsable found c h

-- Whatever the arguments, the environment and the readers of values: a configuration that
-- ParseProducerConfig accepts names a queue and an input, and none of its durations and its number of
-- retries is negative.
pub parse_producer-IsUsable :
    (r : Readers) (env command : Text) (args : List Text) (c : ProducerConfig)
    → parse_producer_config r env command args ≡ ok c
    → IsUsable c
unfolding parse_producer_config
parse_producer-IsUsable r env command args c h = read-IsUsable _ c h
