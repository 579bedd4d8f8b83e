-- ===== src/RedisStore/Store/Reads.antt =====
-- Get, GetDeadLetter, ListDeadLetters, ExpiredIDs and the counts.
use go_task_engine.Prelude.{ℕ, Option, none, some, List, [], ◌∷◌, take, if◌then◌else◌}
use go_task_engine.Prelude.Int.{ℤ, pos, ◌+ℤ◌, ◌-ℤ◌, ltb_ℤ}
use go_task_engine.Prelude.Text.{Text}
use go_task_engine.Errors.{plain, wrap, sentinel, is, task_not_found, invalid_transition}
use go_task_engine.Result.{Result, ok, err, ◌>>=◌, in_context}
use go_task_engine.Model.{TaskMessage, TaskState, state_eq, unix_milli, archived}
use go_task_engine.Redis.{Redis}
use go_task_engine.Redis.Keyspace.{ZName}
use go_task_engine.RedisStore.Store.Base.{Codec, Link, send, limit_of}

module _ {B : Type 0} (r : Redis B) (json : Codec B) where
  abbrev Space : Type 0
  Space = Text → r.Db

  -- A command that only reads.
  unfoldable pub read : {X : Type 0} → Link → (r.Db → X) → r.Db → Result X
  unfolding send
  read link f d = (send link (λ d. (f d, d)) d).0

  -- The attempt id in the message that Get returns.
  unfoldable pub with_attempt : TaskMessage → TaskState → Option Text → Result TaskMessage
  with_attempt msg TaskState.active none = err (plain "get task: active attempt id is missing")
  with_attempt msg TaskState.active (some []) = err (plain "get task: active attempt id is missing")
  with_attempt msg TaskState.active (some (c ∷ cs)) =
      ok (record msg { state = TaskState.active; attempt_id = c ∷ cs })
  with_attempt msg s _ = ok (record msg { state = s; attempt_id = [] })

  -- What Get makes of the three fields that HMGET returns.
  unfoldable pub task_of_fields : Option B → Option TaskState → Option Text → Result TaskMessage
  unfolding with_attempt
  task_of_fields none s a = err (sentinel task_not_found)
  task_of_fields (some b) none a = err (plain "get task: state is missing")
  task_of_fields (some b) (some s) a = do
    msg ← in_context "decode task" (json.unmarshal b)
    with_attempt msg s a

  unfoldable pub get : Link → Text → Text → Space → Result TaskMessage
  unfolding read task_of_fields
  get link queue id sp = do
    h ← in_context "get task" (read link (r.hget id) (sp queue))
    task_of_fields h.msg h.state h.attempt_id

  -- GetDeadLetter
  unfoldable pub get_dead_letter : Link → Text → Text → Space → Result TaskMessage
  get_dead_letter link queue id sp = do
    msg ← get link queue id sp
    if state_eq msg.state archived then ok msg else err (sentinel invalid_transition)

  -- The loop of ListDeadLetters over the ids; each is read in its turn, `seen` being the keys then.
  unfoldable pub read_all :
      (Text → Link) → Text → (Text → Space) → List Text → Result (List TaskMessage)
  read_all links queue seen [] = ok []
  read_all links queue seen (id ∷ ids) =
      let rest = read_all links queue seen ids in
      elim (get_dead_letter (links id) queue id (seen id)) [
        | ok msg ↦ (do msgs ← rest; ok (msg ∷ msgs))
        | err e ↦ if is e invalid_transition then rest else err (wrap "read dead letter" e)
      ]

  -- ListDeadLetters
  unfoldable pub list_dead_letters :
      Link → (Text → Link) → Text → ℤ → ℤ → Space → (Text → Space) → Result (List TaskMessage)
  unfolding read read_all
  list_dead_letters link links queue offset limit sp seen =
      if ltb_ℤ offset (pos 0) then err (plain "dead-letter offset cannot be negative") else (do
        ids ← in_context "list dead letters" (
            read link (r.zrange ZName.archived offset (offset +ℤ pos (limit_of limit) -ℤ pos 1))
              (sp queue))
        read_all links queue seen ids)

  unfoldable pub expired_ids : Link → ℤ → Text → ℤ → Space → Result (List Text)
  unfolding read
  expired_ids link now queue limit sp =
      read link (λ d. take (limit_of limit) (r.zrange_by_score ZName.lease (unix_milli now) d))
        (sp queue)

  unfoldable pub pending_count : Link → Text → Space → Result ℕ
  unfolding read
  pending_count link queue sp = read link (r.zcard ZName.pending_rank) (sp queue)

  unfoldable pub retry_count : Link → Text → Space → Result ℕ
  unfolding read
  retry_count link queue sp = read link (r.zcard ZName.retry) (sp queue)

  unfoldable pub archived_count : Link → Text → Space → Result ℕ
  unfolding read
  archived_count link queue sp = read link (r.zcard ZName.archived) (sp queue)

  -- GetArchived and ListArchived are aliases.
  abbrev get_archived : Link → Text → Text → Space → Result TaskMessage
  get_archived = get_dead_letter

  abbrev list_archived :
      Link → (Text → Link) → Text → ℤ → ℤ → Space → (Text → Space) → Result (List TaskMessage)
  list_archived = list_dead_letters
