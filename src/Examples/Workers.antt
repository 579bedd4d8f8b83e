-- ===== src/Examples/Workers.antt =====
-- run of examples/image-processing/cmd/worker/main.go and of examples/c2pa-signing/cmd/worker/main.go.
-- What they log is left out. The end of the context, after -run-for, and the signals are what may end
-- the wait of RunSignals.
use go_task_engine.Prelude.{◌≡◌, refl, Bool, true, false, Option, none, some, List, [], ◌∷◌, arith}
use go_task_engine.Prelude.Int.{pos}
use go_task_engine.Prelude.Text.{Text, codes}
use go_task_engine.Errors.{Error}
use go_task_engine.Result.{Result, ok, err}
use go_task_engine.Double.{Double, nought, one}
use go_task_engine.Server.Config.{Config, apply_defaults, validate_config, served_queues}
use go_task_engine.Server.Lifecycle.{Server, fresh, Action, start, start_in, start_new}
use go_task_engine.Server.Lifecycle.Run.{run_signals, run_signals-IsOver, IsOver}
use go_task_engine.Examples.Flags.{Readers}
use go_task_engine.Examples.Support.{WorkerConfig, parse_worker_config, redis_address, open_redis}

module _ {W : Type 0} (d : Double W) where
  -- server.Config with this queue alone, the rest zero; its metrics and error handler only count and log.
  abbrev pub worker_config : Text → Config W
  worker_config queue = record {
    concurrency = pos 0;
    queues = (queue, pos 1) ∷ [];
    lease_duration = pos 0;
    poll_interval = pos 0;
    shutdown_timeout = pos 0;
    retry_base_delay = pos 0;
    retry_max_delay = pos 0;
    retry_jitter = nought d;
    heartbeat_interval = pos 0;
    recovery_interval = pos 0;
    token_bucket = none;
    token_amount = nought d;
  }

  module _ (between : List (Action W)) (worked maintained : Bool) where
    unfoldable pub worker_connected : Text → Result Text → Option Error × Server
    unfolding run_signals
    worker_connected queue (err e) = (some e, fresh)
    worker_connected queue (ok rdb) =
        run_signals d (apply_defaults d (worker_config queue)) true between worked maintained fresh

    unfoldable pub worker_parsed :
        (Text → Option Error) → Text → Text → Result WorkerConfig → Option Error × Server
    unfolding worker_connected open_redis
    worker_parsed ping env queue (err e) = (some e, fresh)
    worker_parsed ping env queue (ok c) = worker_connected queue (open_redis ping c.redis_addr env)

    unfoldable pub worker_run :
        Readers → (Text → Option Error) → Text → Text → List Text → Option Error × Server
    unfolding worker_parsed parse_worker_config
    worker_run r ping env queue args = worker_parsed ping env queue (parse_worker_config r env args)

    -- The two programs.
    abbrev pub image_worker :
        Readers → (Text → Option Error) → Text → List Text → Option Error × Server
    image_worker r ping env args = worker_run r ping env (codes "image") args

    abbrev pub signing_worker :
        Readers → (Text → Option Error) → Text → List Text → Option Error × Server
    signing_worker r ping env args = worker_run r ping env (codes "c2pa") args

  worker-valid :
      (queue : Text)
      → d.lt (nought d) (nought d) ≡ false
      → d.lt (one d) (nought d) ≡ false
      → validate_config d (apply_defaults d (worker_config queue)) ≡ none
  unfolding validate_config apply_defaults
  worker-valid queue h k = ground arith

  worker-served :
      (queue : Text) → served_queues (apply_defaults d (worker_config queue)).queues ≡ queue ∷ []
  unfolding served_queues apply_defaults
  worker-served queue = refl

  worker-starts :
      (queue : Text)
      → d.lt (nought d) (nought d) ≡ false
      → d.lt (one d) (nought d) ≡ false
      → (start d (apply_defaults d (worker_config queue)) true fresh).0 ≡ none
  unfolding start start_in start_new
  worker-starts queue h k = ground (arith, worker-valid queue h k)

  connected_lem :
      (ping : Text → Option Error) (address env : Text)
      → ping (redis_address address env) ≡ none
      → open_redis ping address env ≡ ok (redis_address address env)
  unfolding open_redis
  connected_lem ping address env h = rw (open_redis, h)

  -- A worker of the examples whose arguments are accepted and whose Redis answers starts its server once,
  -- serves its queue and no other, and leaves the server stopped, with its stop channel closed once and
  -- its contexts cancelled, whatever calls come meanwhile and whether or not its waits end in time. For
  -- float64, 0 is not below 0, and 1 not below 0.
  pub worker_run-IsOver :
      (between : List (Action W)) (worked maintained : Bool) (r : Readers)
      (ping : Text → Option Error) (env queue : Text) (args : List Text) (c : WorkerConfig)
      → d.lt (nought d) (nought d) ≡ false
      → d.lt (one d) (nought d) ≡ false
      → parse_worker_config r env args ≡ ok c
      → ping (redis_address c.redis_addr env) ≡ none
      → IsOver d (worker_run between worked maintained r ping env queue args).1
        × (served_queues (apply_defaults d (worker_config queue)).queues ≡ queue ∷ [])
  unfolding worker_run worker_parsed worker_connected
  worker_run-IsOver between worked maintained r ping env queue args c h k e up = (
    rw (e, connected_lem ping c.redis_addr env up)
        (run_signals-IsOver d _ true between worked maintained fresh (refl, refl, refl, refl, refl)
          (worker-starts queue h k)),
    worker-served queue,
  )
