-- ===== src/Server/Dispatch/Order.antt =====
-- Which task dispatch takes, on the Redis store.
use go_task_engine.Prelude.{
  ◌≡◌, ◌≢◌, ◌∙◌, refl, ap, fun_ext, Option, none, some, List, [], ◌∷◌, if◌then◌else◌, Bool-cases,
  Option-cases, inl, inr,
}
use go_task_engine.Prelude.Int.{ℤ, pos, ◌+ℤ◌}
use go_task_engine.Prelude.Text.{Text, text_eq, text_eq_refl, text_eq→eq}
use go_task_engine.Errors.{is, sentinel_is, is_queue_empty, sentinel, queue_empty}
use go_task_engine.Result.{Result, ok, err}
use go_task_engine.Float.{Float64}
use go_task_engine.Model.{TaskMessage, TaskState, unix_milli, pending}
use go_task_engine.Redis.{Redis}
use go_task_engine.Redis.Keyspace.{View, pending_rank, rank_range}
use go_task_engine.RedisStore.Invariant.Records.{Inv}
use go_task_engine.RedisStore.Scripts.Intake.{claim_script, claim_members}
use go_task_engine.RedisStore.Calls.Claims.{Claimed, claim_best, claim-none_iff, pending_rank-nil}
use go_task_engine.RedisStore.Calls.Ranked.{Ranked}
use go_task_engine.RedisStore.Store.Base.{Codec, Link, sound, send, on_queue, or_default}
use go_task_engine.RedisStore.Store.Intake
use go_task_engine.RedisStore.Store.Reads
use go_task_engine.RedisStore.Store.Finish
use go_task_engine.Storage.{TaskSource}
use go_task_engine.Server.Process.{World}
use go_task_engine.Server.Dispatch.{claimed, claim_first}

abbrev pub NoPending : {B : Type 0} → View B → Type 0
NoPending v = (id : Text) → (v.hash id).state ≢ some pending

module _ {B : Type 0} (r : Redis B) (json : Codec B) (f : Float64) (standard : ℤ) where
  abbrev Space : Type 0
  Space = Text → r.Db

  -- The store, with the attempt ids that newAttemptID makes for the claims of one round.
  abbrev pub redis_source : Link → (Text → Result Text) → TaskSource Space
  redis_source link attempts = record {
    claim = λ q now lease. Intake.claim r json f link (attempts q) standard q now lease;
    move_ready = Intake.move_ready r json f (λ q k. link);
    pending_count = Reads.pending_count r json link;
    expired_ids = λ now q limit. Reads.expired_ids r json link now q limit;
    extend_lease = Finish.extend_lease r json link standard;
  }

  claim-empty :
      (n t : ℤ) (a : Text) (d : r.Db)
      → Inv (r.view d)
      → NoPending (r.view d)
      → claim_script r n t a d ≡ (none, d)
  unfolding claim_script claim_members rank_range
  claim-empty n t a d h p =
      rw (r.zrange_law pending_rank (pos 0) (pos 0) d, (pending_rank-nil (r.view d) h).1 p) refl

  -- The message that Claim hands out under an attempt.
  abbrev pub active_copy : TaskMessage → Text → TaskMessage
  active_copy m a = record m { state = TaskState.active; attempt_id = a }

  module _ (attempts : Text → Text) (now : Text → ℤ) (poll lease : ℤ) where
    -- When the lease of a claim in a queue ends.
    abbrev pub expires : Text → ℤ
    expires q = unix_milli (now q +ℤ or_default standard lease)

    -- `o` is what a look through the queues in their order gives, which turns the keys from `sp` to
    -- `sp'`: queues with no pending task are passed over, and the first queue with one gives a task
    -- that its claim made active.
    pub data Served (sp sp' : Space) (o : Option TaskMessage) : List Text → Type 0 where
      nothing : o ≡ none → Served sp sp' o []
      passed :
          {q : Text} {qs : List Text}
          → NoPending (r.view (sp q))
          → Served sp sp' o qs
          → Served sp sp' o (q ∷ qs)
      taken :
          {q : Text} {qs : List Text} (b : B) (m : TaskMessage)
          → Claimed (r.view (sp q)) (r.view (sp' q)) (expires q) (attempts q) b
          → json.unmarshal b ≡ ok m
          → o ≡ some (active_copy m (attempts q))
          → Served sp sp' o (q ∷ qs)

    abbrev source : TaskSource Space
    source = redis_source sound (λ q. ok (attempts q))

    abbrev script : Text → Space → Option B × r.Db
    script q sp = claim_script r (unix_milli (now q)) (expires q) (attempts q) (sp q)

    on_queue-same : (q : Text) (sp : Space) → (λ j. if text_eq q j then sp q else sp j) ≡ sp
    on_queue-same q sp = fun_ext λ j. elim (Bool-cases (text_eq q j)) [
      | inl h ↦ rw h (ap sp (text_eq→eq q j h))
      | inr h ↦ rw h
    ]

    claim-nothing :
        (q : Text) (sp : Space)
        → script q sp ≡ (none, sp q)
        → source.claim q (now q) lease sp ≡ (err (sentinel queue_empty), sp)
    unfolding Intake.claim Intake.claimed_message on_queue send
    claim-nothing q sp e =
        ap
          (λ (x : Option B × r.Db). (
            Intake.claimed_message r json f (attempts q) (ok x.0),
            λ j. if text_eq q j then x.1 else sp j,
          ))
          e
        ∙ ap (λ (x : Space). (err (sentinel queue_empty), x)) (on_queue-same q sp)

    claim-something :
        (q : Text) (sp : Space) (b : B) (m : TaskMessage)
        → (script q sp).0 ≡ some b
        → json.unmarshal b ≡ ok m
        → source.claim q (now q) lease sp
          ≡ (ok (active_copy m (attempts q)), λ j. if text_eq q j then (script q sp).1 else sp j)
    unfolding Intake.claim Intake.claimed_message on_queue send
    claim-something q sp b m e e' = rw (e, e') refl

    abbrev Ready : Space → Type 0
    Ready sp = (q : Text) → Inv (r.view (sp q)) × Ranked (r.view (sp q))

    -- With every queue in order and the pending tasks in the order of their ranks, on a connection
    -- that works and with stored messages that can be decoded, dispatch takes a task from the first of
    -- its queues that has a pending task, one before which no other of that queue comes by rank, and
    -- takes none only when no queue has a pending task.
    pub claim_first-Served :
        (decodes : (b : B) → (m : TaskMessage) × (json.unmarshal b ≡ ok m)) (qs : List Text)
        (w : World Space)
        → Ready w.store
        → Served w.store
            (claim_first source (pos 0) now poll lease qs w).1.store
            (claim_first source (pos 0) now poll lease qs w).0
            qs
    unfolding claim_first claimed is_queue_empty is sentinel_is
    claim_first-Served decodes [] w h = Served.nothing refl
    claim_first-Served decodes (q ∷ qs) w h = elim (Option-cases (script q w.store).0) [
      | inl e ↦
          let none_left : NoPending (r.view (w.store q)) =
            (claim-none_iff r _ _ (attempts q) (w.store q) (h q).0).0 e in
          let empty = claim-empty _ _ (attempts q) (w.store q) (h q).0 none_left in
          rw (claim-nothing q w.store empty)
            (Served.passed none_left (claim_first-Served decodes qs w h))
      | inr (b, e) ↦
          let (m, e') = decodes b in
          let best = claim_best r _ _ (attempts q) (w.store q) (h q).0 b (h q).1 e in
          rw (claim-something q w.store b m e e')
            (Served.taken b m (rw (text_eq_refl q) best) e' refl)
    ]
