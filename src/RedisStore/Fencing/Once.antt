-- ===== src/RedisStore/Fencing/Once.antt =====
-- An attempt and its endings.
use go_task_engine.Prelude.{◌≡◌, subst, sym, false, some, List, [], ◌∷◌, arith, All}
use go_task_engine.Prelude.Text.{Text, text_eq_refl}
use go_task_engine.Redis.{Redis}
use go_task_engine.Redis.Keyspace.{View}
use go_task_engine.Redis.Reference.{reference}
use go_task_engine.RedisStore.Scripts.Finish.{
  ack_script, retry_script, archive_script, requeue_script,
}
use go_task_engine.RedisStore.Transfer.Finish.{
  ack-Agrees, retry-Agrees, archive-Agrees, requeue-Agrees,
}
use go_task_engine.RedisStore.Calls.{Call, step, run}
use go_task_engine.RedisStore.Calls.Order.{step-Agrees}
use go_task_engine.RedisStore.Fencing.Finish.{
  Finish, ack, retry, archive, requeue, holds, finish, finish-refused,
}
use go_task_engine.RedisStore.Fencing.Attempts.{claims, step-Lacks}

-- However an attempt ends, it does not own the task afterwards.
reference-finish-Lacks :
    {B : Type 0} (f : Finish B) (id a : Text) (v : View B)
    → holds a ((finish (reference B) f id a v).1.hash id) ≡ false
unfolding finish ack_script retry_script archive_script requeue_script
reference-finish-Lacks (ack b at) id a v = ground (arith, text_eq_refl id)
reference-finish-Lacks (retry b at m) id a v = ground (arith, text_eq_refl id)
reference-finish-Lacks (archive b m at) id a v = ground (arith, text_eq_refl id)
reference-finish-Lacks requeue id a v = ground (arith, text_eq_refl id)

module _ {B : Type 0} (r : Redis B) where
  finish-view :
      (f : Finish B) (id a : Text) (d : r.Db)
      → r.view (finish r f id a d).1 ≡ (finish (reference B) f id a (r.view d)).1
  unfolding finish
  finish-view (ack b at) id a d = (ack-Agrees r id b at a d).1
  finish-view (retry b at m) id a d = (retry-Agrees r id b at m a d).1
  finish-view (archive b m at) id a d = (archive-Agrees r id b m at a d).1
  finish-view requeue id a d = (requeue-Agrees r id a d).1

  run-Lacks :
      (id a : Text) (cs : List (Call B)) (d : r.Db)
      → All (λ c. claims a c ≡ false) cs
      → holds a ((r.view d).hash id) ≡ false
      → holds a ((r.view (run r cs d)).hash id) ≡ false
  unfolding run
  run-Lacks id a [] d e h = h
  run-Lacks id a (c ∷ cs) d e h = run-Lacks id a cs (step r c d) e.1 (
      subst (λ (v : View B). holds a (v.hash id) ≡ false) (sym (step-Agrees r c d))
        (step-Lacks a id c (r.view d) e.0 h))

  -- Once an attempt has acknowledged, retried, archived or requeued its task, or was refused, every
  -- later ending under the same attempt id is refused with reply 0 and writes nothing, whatever
  -- calls come in between, as long as none of them claims under that attempt id again.
  pub finish_once :
      (f g : Finish B) (id a : Text) (cs : List (Call B)) (d : r.Db)
      → All (λ c. claims a c ≡ false) cs
      → finish r g id a (run r cs (finish r f id a d).1) ≡ (some 0, run r cs (finish r f id a d).1)
  finish_once f g id a cs d e = finish-refused r g id a _ (
      run-Lacks id a cs (finish r f id a d).1 e (
        subst (λ (v : View B). holds a (v.hash id) ≡ false) (sym (finish-view f id a d))
          (reference-finish-Lacks f id a (r.view d))))
