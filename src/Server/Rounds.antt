-- ===== src/Server/Rounds.antt =====
-- One tick of `recoveryLoop` of server/server.go, and how dispatch gives a task back.
pub mod Swept
pub mod Expired
pub mod Recovery
use go_task_engine.Prelude.{Bool, Option, none, some, List, [], ◌∷◌}
use go_task_engine.Prelude.Int.{ℤ, pos}
use go_task_engine.Prelude.Text.{Text}
use go_task_engine.Errors.{Error}
use go_task_engine.Result.{Result, ok, err}
use go_task_engine.Float.{Float64}
use go_task_engine.Model.{TaskMessage}
use go_task_engine.Storage.{TaskStore, TaskSource}
use go_task_engine.Redis.{Redis}
use go_task_engine.RedisStore.Calls.{Call}
use go_task_engine.RedisStore.Store.Base.{Codec, Link}
use go_task_engine.Server.Process.{World, Limit, process, recover}
use go_task_engine.Server.OnRedis.{redis_store}
use go_task_engine.Server.Dispatch.{report, Tokens, dispatch_round}
use go_task_engine.Server.Dispatch.Order.{redis_source}
use go_task_engine.Server.Heartbeat.{ActiveKey, heartbeat}

module _ {S : Type 0} (s : TaskStore S) (now : ℤ) (text : Error → Text) (delay : ℤ → ℤ)
    (tick : ℤ) where
  -- The inner loop, over the ids of a queue.
  unfoldable pub recover_ids : Text → List Text → World S → World S
  recover_ids q [] w = w
  recover_ids q (id ∷ ids) w = recover_ids q ids (recover s now text delay tick q id w)

  unfoldable pub recover_expired : Text → Result (List Text) → World S → World S
  unfolding recover_ids
  recover_expired q (err e) w = report e w
  recover_expired q (ok ids) w = recover_ids q ids w

  -- The loop over the queues of the server.
  unfoldable pub recover_round : TaskSource S → List Text → World S → World S
  unfolding recover_expired
  recover_round src [] w = w
  recover_round src (q ∷ qs) w =
      recover_round src qs (recover_expired q (src.expired_ids tick q (pos 100) w.store) w)

-- `if err := s.store.Requeue(s.ctx, msg); err != nil { s.reportError(err) }` of dispatch
unfoldable pub given_back : {S : Type 0} → (Option Error × TaskMessage) × S → World S → World S
given_back ((none, m), s') w = record w { store = s' }
given_back ((some e, m), s') w = report e (record w { store = s' })

-- A tick makes no claims, and so no attempt ids.
abbrev pub no_ids : Text → Result Text
no_ids q = ok []
