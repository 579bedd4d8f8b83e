-- ===== src/RedisStore/Store/Reach.antt =====
-- The script that Enqueue sends.
use go_task_engine.Prelude.{refl, Option, none, some}
use go_task_engine.Prelude.Text.{Text}
use go_task_engine.Errors.{Error}
use go_task_engine.Result.{Result, ok, err}
use go_task_engine.Float.{Float64}
use go_task_engine.Model.{TaskMessage, unix_milli, validate}
use go_task_engine.Redis.{Redis}
use go_task_engine.RedisStore.Calls.{Call, step}
use go_task_engine.RedisStore.Store.Base.{Codec, Link}
use go_task_engine.RedisStore.Store.Methods.{Reaches, Reaches-refl, send-Reaches}
use go_task_engine.RedisStore.Store.Intake.{
  task_rank, enqueue_valid, enqueue_checked, enqueue, schedule_valid,
}

module _ {B : Type 0} (r : Redis B) (json : Codec B) where
  abbrev Space : Type 0
  Space = Text → r.Db

  module _ (f : Float64) where
    enqueue_valid-Reaches :
        (link : Link) (msg : TaskMessage) (b : Result B) (sp : Space)
        → Reaches r sp (enqueue_valid r json f link msg b sp).1
    unfolding enqueue_valid step
    enqueue_valid-Reaches link msg (err e) sp = Reaches-refl r sp
    enqueue_valid-Reaches link msg (ok b) sp =
        send-Reaches r link msg.queue _ (Call.enqueue msg.id b msg.priority (task_rank f msg)) sp
          (λ d. refl)

    enqueue_checked-Reaches :
        (link : Link) (msg : TaskMessage) (e : Option Error) (sp : Space)
        → Reaches r sp (enqueue_checked r json f link msg e sp).1
    unfolding enqueue_checked
    enqueue_checked-Reaches link msg (some e) sp = Reaches-refl r sp
    enqueue_checked-Reaches link msg none sp = enqueue_valid-Reaches link msg (json.marshal msg) sp

    pub enqueue-Reaches :
        (link : Link) (msg : TaskMessage) (sp : Space)
        → Reaches r sp (enqueue r json f link msg sp).1
    unfolding enqueue
    enqueue-Reaches link msg sp = enqueue_checked-Reaches link msg (validate (some msg)) sp

    schedule_valid-Reaches :
        (link : Link) (msg : TaskMessage) (b : Result B) (sp : Space)
        → Reaches r sp (schedule_valid r json f link msg b sp).1
    unfolding schedule_valid step
    schedule_valid-Reaches link msg (err e) sp = Reaches-refl r sp
    schedule_valid-Reaches link msg (ok b) sp =
        send-Reaches r link msg.queue _
          (Call.schedule msg.id b msg.priority (task_rank f msg) (unix_milli msg.run_at)) sp
          (λ d. refl)
