-- ===== src/Tests/Outcomes.antt =====
-- Single methods at concrete inputs.
use go_task_engine.Prelude.{
  ℕ, ◌≡◌, ◌↔◌, ◌⊎◌, ◌<◌, ◌*◌, ◌^◌, refl, true, arith, Option, none, some, List, [], ◌∷◌,
}
use go_task_engine.Prelude.Int.{pos, ◌<ℤ◌}
use go_task_engine.Prelude.Text.{Text, codes, text_eq, text_lt}
use go_task_engine.Errors.{plain, sentinel, task_not_found}
use go_task_engine.Float.{unrounded}
use go_task_engine.Model.{TaskMessage, TaskState, unix_milli, validate, validate_fields}
use go_task_engine.Redis.Keyspace.{
  View, empty_view, has_field, zscore, zinsert, zdelete, place, entry_lt, rank_range,
}
use go_task_engine.Redis.Reference.{reference}
use go_task_engine.RedisStore.Store.Base.{sound}
use go_task_engine.RedisStore.Store.Intake.{task_rank, enqueue}
use go_task_engine.RedisStore.Store.Rank.{task_rank-lt_iff}
use go_task_engine.RedisStore.Store.Arrivals.{Stored, enqueue-Stored}
use go_task_engine.RedisStore.Store.Finish.{requeue}
use go_task_engine.RedisStore.Store.Returned.{Requeued, requeue-Requeued}
use go_task_engine.RedisStore.Store.Reads.{get}
use go_task_engine.RedisStore.Store.Lookup.{get-missing_iff}
use go_task_engine.RedisStore.Calls
use go_task_engine.RedisStore.Calls.{step, run}
use go_task_engine.RedisStore.Calls.Order.{run-Inv}
use go_task_engine.RedisStore.Invariant.Records.{Inv-empty}
use go_task_engine.RedisStore.Scripts.Intake.{enqueue_script, claim_script, claim_members}
use go_task_engine.RedisStore.Scripts.Members.{rank_text, candidate}
use go_task_engine.Result.{err}
use go_task_engine.Server.Process.{Limit}
use go_task_engine.Server.Mux.{
  Handler, handle_all, Answers, process_task, first, process_task-first,
}
use go_task_engine.Tests.Mails.{claimed_mail, same_json}

abbrev nothing : Text → View TaskMessage
nothing = λ q. empty_view

enqueue-Stored_example :
    Stored
      (reference TaskMessage)
      same_json
      unrounded
      (has_field (((reference TaskMessage).view (nothing claimed_mail.queue)).hash claimed_mail.id))
      claimed_mail
      claimed_mail
      TaskState.pending
      nothing
      (enqueue (reference TaskMessage) same_json unrounded sound claimed_mail nothing)
unfolding validate validate_fields text_eq
enqueue-Stored_example =
    enqueue-Stored (reference TaskMessage) same_json unrounded claimed_mail claimed_mail nothing
      refl refl

-- The message with a time to run at.
abbrev later_mail : TaskMessage
later_mail = record claimed_mail { run_at = pos (5 * 10 ^ 6) }

-- A queue whose task is claimed under the attempt "a".
abbrev claimed_queue : Text → View TaskMessage
claimed_queue q =
    run (reference TaskMessage)
      (Calls.enqueue (codes "m1") claimed_mail (pos 1) (pos 50)
        ∷ Calls.claim (pos 7) (pos 37) (codes "a")
        ∷ [])
      empty_view

requeue-Requeued_example :
    Requeued
      (reference TaskMessage)
      same_json
      true
      claimed_mail
      claimed_queue
      (requeue (reference TaskMessage) same_json sound claimed_mail claimed_queue)
unfolding run step enqueue_script claim_script claim_members zscore zinsert place entry_lt zdelete
    text_eq text_lt rank_range rank_text candidate
requeue-Requeued_example =
    requeue-Requeued (reference TaskMessage) same_json claimed_mail claimed_queue (
      run-Inv (reference TaskMessage)
        (Calls.enqueue (codes "m1") claimed_mail (pos 1) (pos 50)
          ∷ Calls.claim (pos 7) (pos 37) (codes "a")
          ∷ [])
        empty_view Inv-empty)

get-missing_iff_example :
    (get (reference TaskMessage) same_json sound (codes "q") (codes "m2") nothing
      ≡ err (sentinel task_not_found))
    ↔ ((((reference TaskMessage).view (nothing (codes "q"))).hash (codes "m2")).state ≡ none)
get-missing_iff_example =
    get-missing_iff (reference TaskMessage) same_json (codes "q") (codes "m2") nothing Inv-empty

abbrev succeed : Handler ℕ
succeed = λ l msg s. ((none, msg), s)

abbrev fail : Handler ℕ
fail = λ l msg s. ((some (plain "broken"), msg), s)

abbrev registrations : List (Text × Option (Handler ℕ))
registrations =
    (codes "image", some fail)
    ∷ (codes "mail", none)
    ∷ (codes "mail", some succeed)
    ∷ (codes "mail", some fail)
    ∷ []

process_task-first_example :
    Answers
      (first claimed_mail.type registrations)
      Limit.unlimited
      claimed_mail
      0
      (process_task (some (handle_all registrations [])) Limit.unlimited claimed_mail 0)
unfolding text_eq
process_task-first_example = process_task-first registrations Limit.unlimited claimed_mail 0 refl

-- A later task of a higher priority.
abbrev urgent : TaskMessage
urgent = record claimed_mail { id = codes "m2"; priority = pos 4; created_at = pos (8 * 10 ^ 6) }

task_rank-lt_iff_example :
    (task_rank unrounded urgent <ℤ task_rank unrounded claimed_mail)
    ↔ ((1 < 4) ⊎ ((◌≡◌ {A = ℕ} 4 1) × (8 < 0)))
unfolding unix_milli
task_rank-lt_iff_example =
    task_rank-lt_iff unrounded urgent claimed_mail 4 1 8 0 refl refl refl refl (omega arith)
      (omega arith) (omega arith) (omega arith)
