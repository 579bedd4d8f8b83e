-- ===== src/Tests/Ticks.antt =====
-- A tick of the recovery loop on the reference database.
use go_task_engine.Prelude.{
  ◌≡◌, ◌*◌, ◌^◌, refl, false, none, some, List, [], ◌∷◌, arith, if◌then◌else◌, Bool-cases, inl, inr,
  subst, sym,
}
use go_task_engine.Prelude.Int.{ℤ, pos}
use go_task_engine.Prelude.Text.{Text, codes, text_eq, text_eq→eq, text_lt}
use go_task_engine.Float.{unrounded}
use go_task_engine.Model.{TaskMessage, TaskState, unix_milli}
use go_task_engine.Redis.Keyspace.{
  ZName, View, empty_view, zscore, zinsert, zdelete, place, entry_lt, rank_range, score_range,
}
use go_task_engine.Redis.Ranges.{has}
use go_task_engine.Redis.Reference.{reference}
use go_task_engine.RedisStore.Invariant.Records.{Inv, Inv-empty}
use go_task_engine.RedisStore.Scripts.Intake.{
  schedule_script, enqueue_script, claim_script, claim_members,
}
use go_task_engine.RedisStore.Scripts.Members.{rank_text, candidate}
use go_task_engine.RedisStore.Calls.{Call, schedule, enqueue, claim, step, run}
use go_task_engine.RedisStore.Calls.Origins.{AreOf}
use go_task_engine.RedisStore.Calls.Order.{run-Inv}
use go_task_engine.RedisStore.Store.Base.{sound}
use go_task_engine.RedisStore.Store.Intake.{move_ready}
use go_task_engine.RedisStore.Store.Due.{move_ready-pending}
use go_task_engine.Server.OnRedis.{redis_store}
use go_task_engine.Server.Dispatch.Order.{redis_source}
use go_task_engine.Server.Recovery.Spares.{Ended}
use go_task_engine.Server.Rounds.{recover_round, no_ids}
use go_task_engine.Server.Rounds.Recovery.{Names, NotEmpty, recover_used-Ended}
use go_task_engine.Tests.Mails.{same_json-Encodes, pending_mail, same_json}

-- The task is claimed, with a lease until 37 milliseconds.
abbrev calls : Text → List (Call TaskMessage)
calls p =
    if text_eq (codes "q") p
    then enqueue (codes "m1") pending_mail (pos 1) (pos 50)
      ∷ claim (pos 7) (pos 37) (codes "a")
      ∷ []
    else []

pending_mail-Names : (p : Text) → codes "q" ≡ p → Names same_json p (codes "m1") pending_mail
pending_mail-Names p q = (pending_mail, refl, q, refl)

calls-made : (p : Text) → AreOf (Names same_json p) (NotEmpty same_json p) (calls p)
calls-made p = elim (Bool-cases (text_eq (codes "q") p)) [
  | inl here ↦ rw here (
    (
      λ j b e.
          subst (λ (x : Text). Names same_json p x b) (sym e.0)
            (subst (λ (c : TaskMessage). Names same_json p (codes "m1") c) (sym e.1)
              (pending_mail-Names p (text_eq→eq _ p here))),
      λ a e. absurd e,
    ),
    ((λ j b e. absurd e, λ a e n. ground (arith, e, n)), tt),
  )
  | inr other ↦ rw other tt
]

abbrev tick : ℤ
tick = pos (40 * 10 ^ 6)

abbrev queues : Text → View TaskMessage
queues p = run (reference TaskMessage) (calls p) empty_view

abbrev later : Text → View TaskMessage
later =
    (recover_round (redis_store (reference TaskMessage) same_json sound) tick (λ e. []) (λ n. pos 2)
      tick (redis_source (reference TaskMessage) same_json unrounded (pos 30) sound no_ids)
      (codes "q" ∷ []) (record { store = queues; metrics = none; reports = [] })).store

recover_used-Ended_example :
    Ended ((later (codes "q")).hash (codes "m1")).state
    × ((j : Text)
        → has j (score_range (unix_milli tick) (queues (codes "q")).lease) ≡ false
        → (later (codes "q")).hash j ≡ (queues (codes "q")).hash j)
unfolding run step enqueue_script claim_script claim_members zscore zinsert place entry_lt zdelete
    text_eq text_lt rank_range rank_text candidate score_range unix_milli
recover_used-Ended_example =
    recover_used-Ended (reference TaskMessage) same_json (same_json-Encodes (reference TaskMessage))
      unrounded (pos 30) tick tt (λ e. []) (λ n. pos 2) tick (λ p. empty_view) (λ p. refl) calls
      calls-made none [] (codes "q" ∷ []) (codes "q") (codes "m1") (pos 37) refl refl (omega arith)
      (omega arith)

-- The task waits until 20 milliseconds.
abbrev planned : Text → View TaskMessage
planned = λ q.
    run (reference TaskMessage) (schedule (codes "m1") pending_mail (pos 1) (pos 50) (pos 20) ∷ [])
      empty_view

planned-Inv : (q : Text) → Inv (planned q)
planned-Inv q =
    run-Inv (reference TaskMessage)
      (schedule (codes "m1") pending_mail (pos 1) (pos 50) (pos 20) ∷ []) empty_view Inv-empty

move_ready-pending_example :
    (((move_ready
          (reference TaskMessage)
          same_json
          unrounded
          (λ q z. sound)
          tick
          (pos 100)
          (codes "q" ∷ [])
          planned).1
        (codes "q")).hash
      (codes "m1")).state
    ≡ some TaskState.pending
unfolding run step schedule_script zscore zinsert place entry_lt zdelete text_eq text_lt score_range
    unix_milli
move_ready-pending_example =
    move_ready-pending (reference TaskMessage) same_json unrounded tick (pos 100) (codes "q" ∷ [])
      planned (codes "q") ZName.scheduled (codes "m1") (pos 20) tt planned-Inv refl refl
      (omega arith) (omega arith)
