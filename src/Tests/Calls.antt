-- ===== src/Tests/Calls.antt =====
-- Calls of the scripts on the reference database, one after another.
use go_task_engine.Prelude.{ℕ, ◌≡◌, refl, List, [], ◌∷◌, arith}
use go_task_engine.Prelude.Int.{pos}
use go_task_engine.Prelude.Text.{Text, codes, text_eq, text_lt}
use go_task_engine.Redis.Keyspace.{
  View, empty_view, zscore, zinsert, zdelete, place, entry_lt, rank_range,
}
use go_task_engine.Redis.Order.{IsAscending}
use go_task_engine.Redis.Reference.{reference}
use go_task_engine.RedisStore.Invariant.Records.{Inv, Inv-empty}
use go_task_engine.RedisStore.Scripts.Intake.{enqueue_script, claim_script, claim_members}
use go_task_engine.RedisStore.Scripts.Members.{rank_text, candidate}
use go_task_engine.RedisStore.Scripts.Finish.{ack_script}
use go_task_engine.RedisStore.Calls.{Call, enqueue, claim, ack, archive, requeue, replay, step, run}
use go_task_engine.RedisStore.Calls.Order.{run-Inv}
use go_task_engine.RedisStore.Calls.Graph.{Moves, run-Moves}
use go_task_engine.RedisStore.Calls.Completed.{run-completed}
use go_task_engine.RedisStore.Calls.Claims.{Claimed, claim_best}
use go_task_engine.RedisStore.Calls.Ranked.{Ranked, run-Ranked}
use go_task_engine.RedisStore.Fifo.Next.{TakesNext, claim-TakesNext}

abbrev t1 : Text
t1 = codes "t1"

abbrev t2 : Text
t2 = codes "t2"

abbrev a : Text
a = codes "a"

abbrev two : List (Call ℕ)
two = enqueue t1 11 (pos 0) (pos 50) ∷ enqueue t2 22 (pos 1) (pos 40) ∷ []

abbrev waiting : View ℕ
waiting = run (reference ℕ) two empty_view

waiting-Inv : Inv waiting
waiting-Inv = run-Inv (reference ℕ) two empty_view Inv-empty

waiting-Ranked : Ranked waiting
waiting-Ranked = run-Ranked (reference ℕ) two empty_view IsAscending.nil

abbrev life : List (Call ℕ)
life =
    claim (pos 7) (pos 37) a
    ∷ archive t2 23 (codes "broken") (pos 8) a
    ∷ replay t2 24
    ∷ claim (pos 9) (pos 39) a
    ∷ []

run-Moves_example :
    Moves {B = ℕ}
      (requeue t2 a)
      t2
      ((run (reference ℕ) life waiting).hash t2).state
      ((step (reference ℕ) (requeue t2 a) (run (reference ℕ) life waiting)).hash t2).state
run-Moves_example = run-Moves (reference ℕ) life (requeue t2 a) waiting t2 waiting-Inv

abbrev done : View ℕ
done = run (reference ℕ) (claim (pos 7) (pos 37) a ∷ ack t2 25 (pos 9) a ∷ []) waiting

done-Inv : Inv done
done-Inv =
    run-Inv (reference ℕ) (claim (pos 7) (pos 37) a ∷ ack t2 25 (pos 9) a ∷ []) waiting waiting-Inv

abbrev after : List (Call ℕ)
after = enqueue t2 26 (pos 0) (pos 1) ∷ ack t2 27 (pos 10) a ∷ replay t2 28 ∷ []

run-completed_example : (run (reference ℕ) after done).hash t2 ≡ done.hash t2
unfolding run step enqueue_script claim_script claim_members ack_script zscore zinsert place
    entry_lt zdelete text_eq text_lt rank_range rank_text candidate
run-completed_example = run-completed (reference ℕ) t2 after done done-Inv refl

claim_best_example :
    Claimed waiting (claim_script (reference ℕ) (pos 7) (pos 37) a waiting).1 (pos 37) a 22
unfolding run step enqueue_script claim_script claim_members zscore zinsert place entry_lt zdelete
    text_eq text_lt rank_range rank_text candidate
claim_best_example =
    claim_best (reference ℕ) (pos 7) (pos 37) a waiting waiting-Inv 22 waiting-Ranked refl

-- Two tasks of the same rank.
abbrev peers : List (Call ℕ)
peers = enqueue t2 22 (pos 0) (pos 50) ∷ enqueue t1 11 (pos 0) (pos 50) ∷ []

claim-TakesNext_example :
    TakesNext
      (run (reference ℕ) peers empty_view)
      (claim_script (reference ℕ) (pos 7) (pos 37) a (run (reference ℕ) peers empty_view)).1
      a
      22
unfolding run step enqueue_script claim_script claim_members zscore zinsert place entry_lt zdelete
    text_eq text_lt rank_range rank_text candidate
claim-TakesNext_example =
    claim-TakesNext (reference ℕ) peers empty_view (pos 7) (pos 37) a 22 refl (omega arith) refl
