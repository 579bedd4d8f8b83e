-- ===== src/RedisStore/Store/DeadLetters.antt =====
-- ReplayDeadLetter, DeleteDeadLetter and CleanupDeadLetters. The first two make two round trips:
-- `between` is what other clients do to the keys in between.
use go_task_engine.Prelude.{ℕ, zero, suc, String, Option, none, some, []}
use go_task_engine.Prelude.Int.{ℤ, pos}
use go_task_engine.Prelude.Text.{Text}
use go_task_engine.Errors.{Error, wrap, sentinel, invalid_transition}
use go_task_engine.Result.{Result, ok, err, in_context}
use go_task_engine.Model.{TaskMessage, TaskState, zero_time, unix_milli}
use go_task_engine.Redis.{Redis}
use go_task_engine.RedisStore.Scripts.DeadLetters.{
  replay_archived_script, delete_archived_script, cleanup_archived_script,
}
use go_task_engine.RedisStore.Store.Base.{Codec, Link, send, on_queue, limit_of}
use go_task_engine.RedisStore.Store.Reads.{get_dead_letter}

module _ {B : Type 0} (r : Redis B) (json : Codec B) where
  abbrev Space : Type 0
  Space = Text → r.Db

  -- The message that a replay stores.
  abbrev pub replayed : ℤ → TaskMessage → TaskMessage
  replayed now msg = record msg {
    state = TaskState.pending;
    retry_count = pos 0;
    last_error = [];
    last_failed_at = zero_time;
    completed_at = zero_time;
    run_at = now;
  }

  unfoldable pub replay_reply : String → Result ℕ → Option Error
  replay_reply what (err e) = some (wrap what e)
  replay_reply what (ok zero) = some (sentinel invalid_transition)
  replay_reply what (ok (suc n)) = none

  unfoldable pub replay_encoded : Link → Text → Text → Result B → Space → Option Error × Space
  unfolding replay_reply
  replay_encoded link queue id (err e) sp = (some (wrap "encode replayed dead letter" e), sp)
  replay_encoded link queue id (ok encoded) sp =
      let (reply, sp') = on_queue queue (send link (replay_archived_script r id encoded)) sp in
      (replay_reply "replay dead letter" reply, sp')

  unfoldable pub replay_found :
      Link → ℤ → Text → Text → Result TaskMessage → Space → Option Error × Space
  unfolding replay_encoded
  replay_found link now queue id (err e) sp = (some e, sp)
  replay_found link now queue id (ok msg) sp =
      replay_encoded link queue id (json.marshal (replayed now msg)) sp

  -- ReplayDeadLetter
  unfoldable pub replay_dead_letter :
      Link → Link → ℤ → Text → Text → (Space → Space) → Space → Option Error × Space
  unfolding replay_found
  replay_dead_letter first second now queue id between sp =
      replay_found second now queue id (get_dead_letter r json first queue id sp) (between sp)

  -- The error of DeleteDeadLetter when its script did nothing, from a second look at the task.
  unfoldable pub delete_refused : Link → Text → Text → Space → Option Error
  delete_refused link queue id sp = elim (get_dead_letter r json link queue id sp) [
    | err e ↦ some e
    | ok msg ↦ some (sentinel invalid_transition)
  ]

  unfoldable pub delete_reply :
      Link → Text → Text → (Space → Space) → Result ℕ → Space → Option Error × Space
  unfolding delete_refused
  delete_reply link queue id between (err e) sp = (some (wrap "delete dead letter" e), sp)
  delete_reply link queue id between (ok zero) sp =
      (delete_refused link queue id (between sp), between sp)
  delete_reply link queue id between (ok (suc n)) sp = (none, sp)

  -- DeleteDeadLetter
  unfoldable pub delete_dead_letter :
      Link → Link → Text → Text → (Space → Space) → Space → Option Error × Space
  unfolding delete_reply
  delete_dead_letter first second queue id between sp =
      let (reply, sp') = on_queue queue (send first (delete_archived_script r id)) sp in
      delete_reply second queue id between reply sp'

  -- CleanupDeadLetters
  unfoldable pub cleanup_dead_letters : Link → Text → ℤ → ℤ → Space → Result ℕ × Space
  cleanup_dead_letters link queue before limit sp =
      let (reply, sp') =
        on_queue queue (send link (cleanup_archived_script r (unix_milli before) (limit_of limit)))
          sp in
      (in_context "cleanup dead letters" reply, sp')

  -- ReplayArchived, DeleteArchived and CleanupArchived are aliases.
  abbrev replay_archived :
      Link → Link → ℤ → Text → Text → (Space → Space) → Space → Option Error × Space
  replay_archived = replay_dead_letter

  abbrev delete_archived :
      Link → Link → Text → Text → (Space → Space) → Space → Option Error × Space
  delete_archived = delete_dead_letter

  abbrev cleanup_archived : Link → Text → ℤ → ℤ → Space → Result ℕ × Space
  cleanup_archived = cleanup_dead_letters
