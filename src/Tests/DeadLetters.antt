-- ===== src/Tests/DeadLetters.antt =====
-- Replaying, deleting and cleaning up a dead letter on the reference database.
use go_task_engine.Prelude.{◌≡◌, ℕ, refl, none, List, [], ◌∷◌, ◌^◌}
use go_task_engine.Prelude.Int.{pos}
use go_task_engine.Prelude.Text.{Text, codes, text_eq, text_lt}
use go_task_engine.Errors.{sentinel, task_not_found}
use go_task_engine.Result.{ok, err}
use go_task_engine.Model.{TaskMessage, unix_milli}
use go_task_engine.Redis.Keyspace.{
  View, empty_view, zscore, zinsert, zdelete, place, entry_lt, rank_range,
}
use go_task_engine.Redis.Reference.{reference}
use go_task_engine.RedisStore.Invariant.Records.{Inv, Inv-empty}
use go_task_engine.RedisStore.Scripts.Intake.{enqueue_script, claim_script, claim_members}
use go_task_engine.RedisStore.Scripts.Finish.{archive_script}
use go_task_engine.RedisStore.Scripts.Members.{rank_text, candidate}
use go_task_engine.RedisStore.Calls.{Call, enqueue, claim, archive, step, run}
use go_task_engine.RedisStore.Calls.Order.{run-Inv}
use go_task_engine.RedisStore.Store.Base.{sound}
use go_task_engine.RedisStore.Store.Reads.{get}
use go_task_engine.RedisStore.Store.DeadLetters.{
  replay_dead_letter, delete_dead_letter, cleanup_dead_letters,
}
use go_task_engine.RedisStore.Store.Replay.{revived, replay-restored, delete-missing}
use go_task_engine.RedisStore.Store.Cleanup.{Deletes, cleanup-Deletes}
use go_task_engine.Tests.Mails.{archived_mail, same_json}

-- The task is claimed, and archived at 9 milliseconds.
abbrev calls : List (Call TaskMessage)
calls =
    enqueue (codes "m1") archived_mail (pos 1) (pos 50)
    ∷ claim (pos 7) (pos 37) (codes "a")
    ∷ archive (codes "m1") archived_mail (codes "e") (pos 9) (codes "a")
    ∷ []

abbrev queues : Text → View TaskMessage
queues q = run (reference TaskMessage) calls empty_view

queues-Inv : (q : Text) → Inv (queues q)
queues-Inv q = run-Inv (reference TaskMessage) calls empty_view Inv-empty

replay-restored_example :
    ((replay_dead_letter
        (reference TaskMessage)
        same_json
        sound
        sound
        (pos 12)
        (codes "q")
        (codes "m1")
        (λ sp. sp)
        queues).0
      ≡ none)
    × (get
          (reference TaskMessage)
          same_json
          sound
          (codes "q")
          (codes "m1")
          (replay_dead_letter
            (reference TaskMessage)
            same_json
            sound
            sound
            (pos 12)
            (codes "q")
            (codes "m1")
            (λ sp. sp)
            queues).1
        ≡ ok (revived (reference TaskMessage) same_json (pos 12) archived_mail))
unfolding run step enqueue_script claim_script claim_members archive_script zscore zinsert place
    entry_lt zdelete text_eq text_lt rank_range rank_text candidate
replay-restored_example =
    replay-restored (reference TaskMessage) same_json (pos 12) (codes "q") (codes "m1") (λ sp. sp)
      queues archived_mail (revived (reference TaskMessage) same_json (pos 12) archived_mail)
      archived_mail refl refl refl refl refl (queues-Inv (codes "q")) refl

delete-missing_example :
    ((delete_dead_letter
        (reference TaskMessage)
        same_json
        sound
        sound
        (codes "q")
        (codes "m1")
        (λ sp. sp)
        queues).0
      ≡ none)
    × (get
          (reference TaskMessage)
          same_json
          sound
          (codes "q")
          (codes "m1")
          (delete_dead_letter
            (reference TaskMessage)
            same_json
            sound
            sound
            (codes "q")
            (codes "m1")
            (λ sp. sp)
            queues).1
        ≡ err (sentinel task_not_found))
unfolding run step enqueue_script claim_script claim_members archive_script zscore zinsert place
    entry_lt zdelete text_eq text_lt rank_range rank_text candidate
delete-missing_example =
    delete-missing (reference TaskMessage) same_json (codes "q") (codes "m1") (λ sp. sp) queues
      (queues-Inv (codes "q")) refl

cleanup-Deletes_example :
    (n : ℕ) × ((cleanup_dead_letters
        (reference TaskMessage)
        same_json
        sound
        (codes "q")
        (pos (10 ^ 7))
        (pos 5)
        queues).0
      ≡ ok n)
    × Deletes (unix_milli (pos (10 ^ 7))) 5 (queues (codes "q")) n (
        (cleanup_dead_letters
            (reference TaskMessage)
            same_json
            sound
            (codes "q")
            (pos (10 ^ 7))
            (pos 5)
            queues).1
          (codes "q"))
cleanup-Deletes_example =
    cleanup-Deletes (reference TaskMessage) same_json (codes "q") (pos (10 ^ 7)) (pos 5) queues
      (queues-Inv (codes "q"))
