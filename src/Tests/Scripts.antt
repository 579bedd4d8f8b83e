-- ===== src/Tests/Scripts.antt =====
-- The scripts of internal/redisstore/rdb.go on the reference database.
use go_task_engine.Prelude.{ℕ, ◌≡◌, refl, some, List, [], ◌∷◌}
use go_task_engine.Prelude.Int.{pos}
use go_task_engine.Prelude.Text.{Text, codes, text_eq}
use go_task_engine.Redis.Keyspace.{View, empty_view}
use go_task_engine.Redis.Reference.{reference}
use go_task_engine.RedisStore.Invariant.Records.{Inv, Inv-empty}
use go_task_engine.RedisStore.Calls.{Call, enqueue, claim, extend_lease, run}
use go_task_engine.RedisStore.Calls.Order.{run-Inv}
use go_task_engine.RedisStore.Fencing.Finish.{ack, retry, finish}
use go_task_engine.RedisStore.Fencing.Once.{finish_once}

abbrev t1 : Text
t1 = codes "t1"

abbrev t2 : Text
t2 = codes "t2"

-- Two tasks, the second of a higher priority, and one claim.
abbrev calls : List (Call ℕ)
calls =
    enqueue t1 11 (pos 0) (pos 50)
    ∷ enqueue t2 22 (pos 1) (pos 40)
    ∷ claim (pos 7) (pos 37) (codes "a")
    ∷ []

abbrev claimed : View ℕ
claimed = run (reference ℕ) calls empty_view

run-Inv_example : Inv ((reference ℕ).view (run (reference ℕ) calls empty_view))
run-Inv_example = run-Inv (reference ℕ) calls empty_view Inv-empty

abbrev meanwhile : List (Call ℕ)
meanwhile = extend_lease (pos 60) ((t2, codes "a") ∷ []) ∷ claim (pos 9) (pos 39) (codes "b") ∷ []

finish_once_example :
    finish
      (reference ℕ)
      (retry 23 (pos 90) (codes "late"))
      t2
      (codes "a")
      (run (reference ℕ) meanwhile (finish (reference ℕ) (ack 22 (pos 8)) t2 (codes "a") claimed).1)
    ≡ (
      some 0,
      run (reference ℕ) meanwhile (finish (reference ℕ) (ack 22 (pos 8)) t2 (codes "a") claimed).1,
    )
unfolding text_eq
finish_once_example =
    finish_once (reference ℕ) (ack 22 (pos 8)) (retry 23 (pos 90) (codes "late")) t2 (codes "a")
      meanwhile claimed (refl, (refl, tt))
