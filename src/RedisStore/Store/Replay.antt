-- ===== src/RedisStore/Store/Replay.antt =====
-- What ReplayDeadLetter and DeleteDeadLetter leave of a dead letter.
use go_task_engine.Prelude.{◌≡◌, ◌∙◌, refl, sym, ap, subst, false, Option, none, [], some, arith}
use go_task_engine.Prelude.Int.{ℤ, pos}
use go_task_engine.Prelude.Text.{Text, text_eq_refl}
use go_task_engine.Errors.{sentinel, task_not_found}
use go_task_engine.Result.{ok, err}
use go_task_engine.Model.{TaskMessage, archived, pending, zero_time}
use go_task_engine.Redis.{Redis}
use go_task_engine.Redis.Keyspace.{View}
use go_task_engine.Redis.Reference.{reference}
use go_task_engine.RedisStore.Invariant.Records.{Inv}
use go_task_engine.RedisStore.Invariant.DeadLetters.{delete_archived-Inv}
use go_task_engine.RedisStore.Scripts.DeadLetters.{replay_archived_script, delete_archived_script}
use go_task_engine.RedisStore.Transfer.DeadLetters.{replay_archived-Agrees, delete_archived-Agrees}
use go_task_engine.RedisStore.Store.Base.{Codec, sound, send, on_queue}
use go_task_engine.RedisStore.Store.Arrivals.{Arrived, Agrees-Arrived}
use go_task_engine.RedisStore.Store.Reads.{get, get_dead_letter}
use go_task_engine.RedisStore.Store.Lookup.{waiting_copy, get-waiting, get-missing_iff}
use go_task_engine.RedisStore.Store.DeadLetters.{replay_dead_letter, delete_dead_letter}

module _ {B : Type 0} (v : View B) (id : Text) (h : Inv v)
    (dead : (v.hash id).state ≡ some archived) where
  replay_with :
      (b : B) (o : Option ℤ)
      → (v.hash id).rank ≡ o
      → Arrived (reference B) false id b pending v (replay_archived_script (reference B) id b v)
  unfolding replay_archived_script
  replay_with b none e = absurd (ground (arith, h.located id, dead, e))
  replay_with b (some s) e = ground (arith, h.located id, dead, e, text_eq_refl id)

  reference-replay-Arrived :
      (b : B)
      → Arrived (reference B) false id b pending v (replay_archived_script (reference B) id b v)
  reference-replay-Arrived b = replay_with b (v.hash id).rank refl

  reference-delete-gone :
      ((delete_archived_script (reference B) id v).0 ≡ 1)
      × (((delete_archived_script (reference B) id v).1.hash id).state ≡ none)
  unfolding delete_archived_script
  reference-delete-gone = ground (arith, h.located id, dead, text_eq_refl id)

module _ {B : Type 0} (r : Redis B) (json : Codec B) where
  abbrev Space : Type 0
  Space = Text → r.Db

  -- The message of a dead letter after its replay.
  abbrev pub revived : ℤ → TaskMessage → TaskMessage
  revived now m = record m {
    state = pending;
    attempt_id = [];
    retry_count = pos 0;
    last_error = [];
    last_failed_at = zero_time;
    completed_at = zero_time;
    run_at = now;
  }

  get_dead_letter-archived :
      (q id : Text) (sp : Space) (b : B) (m : TaskMessage)
      → ((r.view (sp q)).hash id).msg ≡ some b
      → ((r.view (sp q)).hash id).state ≡ some archived
      → json.unmarshal b ≡ ok m
      → get_dead_letter r json sound q id sp ≡ ok (waiting_copy r json m archived)
  unfolding get_dead_letter
  get_dead_letter-archived q id sp b m e s d =
      rw (get-waiting r json q id sp b m archived e s (λ x. ground (arith, x)) d) refl

  replay-Arrived :
      (d : r.Db) (id : Text) (b : B)
      → Inv (r.view d)
      → ((r.view d).hash id).state ≡ some archived
      → Arrived r false id b pending d (replay_archived_script r id b d)
  replay-Arrived d id b h s =
      Agrees-Arrived r id b pending d _ _ (replay_archived-Agrees r id b d)
        (reference-replay-Arrived (r.view d) id h s b)

  -- Replaying a dead letter on a connection that works gives no error, and Get then returns its
  -- message as pending and without an attempt, with no retry counted, no failure noted and the time
  -- of the replay. Its message can be decoded, and decoding undoes the encoding of the replayed
  -- one; what others do between the two round trips leaves the queue in order and the task
  -- archived.
  pub replay-restored :
      (now : ℤ) (q id : Text) (between : Space → Space) (sp : Space) (b c : B) (m : TaskMessage)
      → ((r.view (sp q)).hash id).msg ≡ some b
      → ((r.view (sp q)).hash id).state ≡ some archived
      → json.unmarshal b ≡ ok m
      → json.marshal (revived now m) ≡ ok c
      → json.unmarshal c ≡ ok (revived now m)
      → Inv (r.view (between sp q))
      → ((r.view (between sp q)).hash id).state ≡ some archived
      → ((replay_dead_letter r json sound sound now q id between sp).0 ≡ none)
        × (get r json sound q id (replay_dead_letter r json sound sound now q id between sp).1
            ≡ ok (revived now m))
  unfolding replay_dead_letter send on_queue
  replay-restored now q id between sp b c m e s d enc dec h s' =
      let (n, t, k) = replay-Arrived (between sp q) id c h s' in
      rw (get_dead_letter-archived q id sp b m e s d, enc, n)
        (
          refl,
          get-waiting r json q id _ c (revived now m) pending (rw (text_eq_refl q) k)
              (rw (text_eq_refl q) t) (λ x. ground (arith, x)) dec,
        )

  delete-gone :
      (d : r.Db) (id : Text)
      → Inv (r.view d)
      → ((r.view d).hash id).state ≡ some archived
      → ((delete_archived_script r id d).0 ≡ 1)
        × (((r.view (delete_archived_script r id d).1).hash id).state ≡ none)
        × Inv (r.view (delete_archived_script r id d).1)
  delete-gone d id h s =
      let (n, same) = delete_archived-Agrees r id d in
      let (one, gone) = reference-delete-gone (r.view d) id h s in
      (
        n ∙ one,
        ap (λ (v : View B). (v.hash id).state) same ∙ gone,
        subst Inv (sym same) (delete_archived-Inv (r.view d) h id),
      )

  -- Deleting a dead letter of a queue in order on a connection that works gives no error, whatever
  -- others would do before a second look, and Get then answers ErrTaskNotFound for its id.
  pub delete-missing :
      (q id : Text) (between : Space → Space) (sp : Space)
      → Inv (r.view (sp q))
      → ((r.view (sp q)).hash id).state ≡ some archived
      → ((delete_dead_letter r json sound sound q id between sp).0 ≡ none)
        × (get r json sound q id (delete_dead_letter r json sound sound q id between sp).1
            ≡ err (sentinel task_not_found))
  unfolding delete_dead_letter send on_queue
  delete-missing q id between sp h s =
      let (n, t, k) = delete-gone (sp q) id h s in
      rw n (refl, (get-missing_iff r json q id _ (rw (text_eq_refl q) k)).1 (rw (text_eq_refl q) t))
