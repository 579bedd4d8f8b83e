-- ===== src/Server/Config.antt =====
-- The configuration of a server, and New.
use go_task_engine.Prelude.{
  ◌*◌, ◌^◌, ◌||◌, Option, none, some, String, List, [], ◌∷◌, map, if◌then◌else◌,
}
use go_task_engine.Prelude.Int.{ℤ, pos, ltb_ℤ, leb_ℤ}
use go_task_engine.Prelude.Text.{Text, codes}
use go_task_engine.Errors.{Error, sentinel, wrap, server_invalid_config}
use go_task_engine.Double.{Double, nought, one}
use go_task_engine.Server.Backoff.{second}

-- What the server asks of the interface limiter.Limiter about its configuration.
pub record Bucket (W : Type 0) : Type 0 where
  pub validation : Option Error
  pub capacity : W

-- Config. The map of queues is the list of its entries in the order in which Go goes through them.
-- The metrics and the error handler are arguments where they are used.
pub record Config (W : Type 0) : Type 0 where
  pub concurrency : ℤ
  pub queues : List (Text × ℤ)
  pub lease_duration : ℤ
  pub poll_interval : ℤ
  pub shutdown_timeout : ℤ
  pub retry_base_delay : ℤ
  pub retry_max_delay : ℤ
  pub retry_jitter : W
  pub heartbeat_interval : ℤ
  pub recovery_interval : ℤ
  pub token_bucket : Option (Bucket W)
  pub token_amount : W

-- `if d <= 0 { d = … }`
abbrev pub positive_or : ℤ → ℤ → ℤ
positive_or standard d = if leb_ℤ d (pos 0) then standard else d

abbrev pub default_queues : List (Text × ℤ) → List (Text × ℤ)
default_queues [] = (codes "default", pos 1) ∷ []
default_queues (q ∷ qs) = q ∷ qs

module _ {W : Type 0} (d : Double W) where
  unfoldable pub apply_defaults : Config W → Config W
  apply_defaults c = record c {
    concurrency = positive_or (pos 1) c.concurrency;
    lease_duration = positive_or (pos (30 * second)) c.lease_duration;
    poll_interval = positive_or (pos (20 * 10 ^ 6)) c.poll_interval;
    shutdown_timeout = positive_or (pos (8 * second)) c.shutdown_timeout;
    retry_base_delay = positive_or (pos (2 * second)) c.retry_base_delay;
    retry_max_delay = positive_or (pos (3600 * second)) c.retry_max_delay;
    heartbeat_interval = positive_or (pos (10 * second)) c.heartbeat_interval;
    recovery_interval = positive_or (pos second) c.recovery_interval;
    token_amount = if d.le c.token_amount (nought d) then one d else c.token_amount;
    queues = default_queues c.queues;
  }

  abbrev invalid : String → Option Error
  invalid what = some (wrap what (sentinel server_invalid_config))

  unfoldable pub validate_bucket : W → Bucket W → Option Error
  validate_bucket amount b = elim b.validation [
    | some e ↦ invalid "token bucket"
    | none ↦
        if d.is_nan amount || d.is_inf amount || d.lt b.capacity amount
        then invalid "token amount must be finite and no greater than bucket capacity"
        else none
  ]

  unfoldable pub validate_tokens : W → Option (Bucket W) → Option Error
  unfolding validate_bucket
  validate_tokens amount none = none
  validate_tokens amount (some b) = validate_bucket amount b

  -- (*Config).validate
  unfoldable pub validate_config : Config W → Option Error
  unfolding validate_tokens
  validate_config c =
      if leb_ℤ c.lease_duration c.heartbeat_interval
      then invalid "heartbeat interval must be less than lease duration"
      else if d.lt c.retry_jitter (nought d) || d.lt (one d) c.retry_jitter
      then invalid "retry jitter must be between 0 and 1"
      else validate_tokens c.token_amount c.token_bucket

-- sort.SliceStable by descending priority: an entry goes behind those of a higher priority.
unfoldable pub insert_queue : Text × ℤ → List (Text × ℤ) → List (Text × ℤ)
insert_queue q [] = q ∷ []
insert_queue q (p ∷ ps) = if ltb_ℤ q.1 p.1 then p ∷ insert_queue q ps else q ∷ p ∷ ps

unfoldable pub sort_queues : List (Text × ℤ) → List (Text × ℤ)
sort_queues [] = []
sort_queues (q ∷ qs) = insert_queue q (sort_queues qs)

unfoldable pub positive_queues : List (Text × ℤ) → List (Text × ℤ)
positive_queues [] = []
positive_queues (q ∷ qs) = if ltb_ℤ (pos 0) q.1 then q ∷ positive_queues qs else positive_queues qs

-- `if len(queues) == 0 { queues = []string{"default"} }`
abbrev pub or_default_queue : List Text → List Text
or_default_queue [] = codes "default" ∷ []
or_default_queue (q ∷ qs) = q ∷ qs

-- The queues that New serves, in the order in which it serves them.
unfoldable pub served_queues : List (Text × ℤ) → List Text
unfolding positive_queues sort_queues insert_queue
served_queues qs = or_default_queue (map (λ q. q.0) (sort_queues (positive_queues qs)))
