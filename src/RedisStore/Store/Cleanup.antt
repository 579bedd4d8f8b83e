-- ===== src/RedisStore/Store/Cleanup.antt =====
-- What CleanupDeadLetters deletes.
use go_task_engine.Prelude.{
  ℕ, suc, ◌+◌, ◌≤◌, ◌<◌, ◌≡◌, ◌⊎◌, ◌∙◌, refl, subst, ap, Bool, true, false, none, some, List, [],
  ◌∷◌, Bool-cases, inl, inr, arith, is_some, leb,
}
use go_task_engine.Prelude.Int.{ℤ, ◌≤ℤ◌}
use go_task_engine.Prelude.Text.{Text, text_eq_iff, text_eq_refl}
use go_task_engine.Result.{Result, ok}
use go_task_engine.Model.{unix_milli}
use go_task_engine.Redis.{Redis}
use go_task_engine.Redis.Keyspace.{View, TaskHash, zscore, score_range}
use go_task_engine.Redis.SortedSets.{zscore-zdelete}
use go_task_engine.Redis.Ranges.{has, has-score_range}
use go_task_engine.Redis.Reference.{reference}
use go_task_engine.RedisStore.Scripts.DeadLetters.{
  cleanup_body, cleanup_loop, cleanup_archived_script,
}
use go_task_engine.RedisStore.Transfer.DeadLetters.{cleanup_archived-Agrees}
use go_task_engine.RedisStore.Invariant.Records.{Inv}
use go_task_engine.RedisStore.Invariant.DeadLetters.{cleanup_body-Inv}
use go_task_engine.RedisStore.Store.Base.{Codec, sound, send, on_queue, limit_of, most, limit-most}
use go_task_engine.RedisStore.Store.DeadLetters.{cleanup_dead_letters}

module _ {B : Type 0} where
  -- What becomes of one task when the archived ones of some ids are deleted, all if `done`.
  pub record Cleaned (done : Bool) (ids : List Text) (v w : View B) (j : Text) : Type 0 where
    pub gone :
        done ≡ true
        → has j ids ≡ true
        → is_some (zscore j v.archived) ≡ true
        → ((w.hash j).state ≡ none) × (zscore j w.archived ≡ none)
    pub kept : (has j ids ≡ false) ⊎ (zscore j v.archived ≡ none) → w.hash j ≡ v.hash j
    pub stays : has j ids ≡ false → zscore j w.archived ≡ zscore j v.archived
    pub outside : zscore j v.archived ≡ none → zscore j w.archived ≡ none

  body-Cleaned :
      (id j : Text) (v : View B)
      → Inv v
      → Cleaned true (id ∷ []) v (cleanup_body (reference B) id v).1 j
  unfolding cleanup_body
  body-Cleaned id j v h = record {
    gone = λ d m k. ground (arith, text_eq_iff id j, h.located id, zscore-zdelete j id v.archived);
    kept = λ k. ground (arith, k, text_eq_iff id j, h.located id);
    stays = λ k. ground (arith, text_eq_iff id j, zscore-zdelete j id v.archived);
    outside = λ k. ground (arith, text_eq_iff id j, zscore-zdelete j id v.archived);
  }

  body-le : (id : Text) (v : View B) → (cleanup_body (reference B) id v).0 ≤ 1
  unfolding cleanup_body
  body-le id v = ground arith

  Cleaned-trans :
      (done : Bool) (id j : Text) (ids : List Text) (u v w : View B)
      → Cleaned true (id ∷ []) u v j
      → Cleaned done ids v w j
      → Cleaned done (id ∷ ids) u w j
  Cleaned-trans done id j ids u v w s t = record {
    gone = λ d m e. elim (Bool-cases (has j (id ∷ []))) [
      | inl first ↦
          let (state, score) = s.gone refl first e in
          (ap (λ (x : TaskHash B). x.state) (t.kept (inr score)) ∙ state, t.outside score)
      | inr later ↦ t.gone d (ground arith) (ap is_some (s.stays later) ∙ e)
    ];
    kept = λ e. elim e [
      | inl neither ↦ t.kept (inl (ground arith)) ∙ s.kept (inl (ground arith))
      | inr nowhere ↦ t.kept (inr (s.outside nowhere)) ∙ s.kept (inr nowhere)
    ];
    stays = λ e. t.stays (ground arith) ∙ s.stays (ground arith);
    outside = λ e. t.outside (s.outside e);
  }

  -- The loop stops when its limit is reached, and else deletes all.
  loop-Cleaned :
      (max : ℕ) (ids : List Text) (n : ℕ) (j : Text) (v : View B)
      → Inv v
      → n ≤ max
      → ((cleanup_loop (reference B) max ids n v).0 ≤ max)
        × Cleaned
            (leb (suc (cleanup_loop (reference B) max ids n v).0) max)
            ids
            v
            (cleanup_loop (reference B) max ids n v).1
            j
  unfolding cleanup_loop
  loop-Cleaned max [] n j v h le = (
    le,
    record {
      gone = λ d m e. absurd (ground (arith, m));
      kept = λ e. refl;
      stays = λ e. refl;
      outside = λ e. e;
    },
  )
  loop-Cleaned max (id ∷ ids) n j v h le = elim (Bool-cases (leb max n)) [
    | inl full ↦ rw full (
      le,
      record {
        gone = λ d m e. absurd (ground (arith, d, full));
        kept = λ e. refl;
        stays = λ e. refl;
        outside = λ e. e;
      },
    )
    | inr room ↦
        let next = (cleanup_body (reference B) id v).1 in
        let (small, rest) =
          loop-Cleaned max ids (n + (cleanup_body (reference B) id v).0) j next
            (cleanup_body-Inv v h id) (ground (arith, body-le id v, room)) in
        rw room (small, Cleaned-trans _ id j ids v next _ (body-Cleaned id j v h) rest)
  ]

module _ {B : Type 0} where
  -- No more than this many are deleted: every task that was archived by then when fewer are, and no
  -- task that was not.
  abbrev pub Deletes : ℤ → ℕ → View B → ℕ → View B → Type 0
  Deletes before max v n w =
      (n ≤ max)
      × ((j : Text) (t : ℤ)
          → n < max
          → zscore j v.archived ≡ some t
          → t ≤ℤ before
          → (w.hash j).state ≡ none)
      × ((j : Text) → has j (score_range before v.archived) ≡ false → w.hash j ≡ v.hash j)

  reference-Deletes :
      (before : ℤ) (max : ℕ) (v : View B)
      → Inv v
      → Deletes before max v
          (cleanup_archived_script (reference B) before max v).0
          (cleanup_archived_script (reference B) before max v).1
  unfolding cleanup_archived_script
  reference-Deletes before max v h =
      let ids = score_range before v.archived in
      (
        (loop-Cleaned max ids 0 [] v h (omega arith)).0,
        (λ j t fewer e over.
            ((loop-Cleaned max ids 0 j v h (omega arith)).1.gone (ground (arith, fewer))
              (has-score_range before t j v.archived e over) (ap is_some e)).0),
        (λ j out. (loop-Cleaned max ids 0 j v h (omega arith)).1.kept (inl out)),
      )

module _ {B : Type 0} (r : Redis B) (json : Codec B) where
  abbrev Space : Type 0
  Space = Text → r.Db

  -- What a run of CleanupDeadLetters that deletes at most this many comes to.
  abbrev CleansUp : Text → ℤ → ℕ → Space → Result ℕ × Space → Type 0
  CleansUp queue before max sp p =
      (n : ℕ) × (p.0 ≡ ok n)
      × Deletes (unix_milli before) max (r.view (sp queue)) n (r.view (p.1 queue))

  limit-CleansUp :
      (queue : Text) (before limit : ℤ) (sp : Space)
      → Inv (r.view (sp queue))
      → CleansUp queue before
          (limit_of limit)
          sp
          (cleanup_dead_letters r json sound queue before limit sp)
  unfolding cleanup_dead_letters send on_queue
  limit-CleansUp queue before limit sp h =
      let (same, left) =
        cleanup_archived-Agrees r (unix_milli before) (limit_of limit) (sp queue) in
      (
        _,
        refl,
        rw (text_eq_refl queue, same, left)
            (reference-Deletes (unix_milli before) (limit_of limit) (r.view (sp queue)) h),
      )

  -- CleanupDeadLetters on a connection that works, for a queue in order, returns a number that is
  -- at most the limit, or 100 for a limit that is not positive. When it is smaller, every task
  -- whose time of archiving, in milliseconds, is at or before the given time, in milliseconds, is
  -- gone; and no task that is not such a task is changed.
  pub cleanup-Deletes :
      (queue : Text) (before limit : ℤ) (sp : Space)
      → Inv (r.view (sp queue))
      → (n : ℕ) × ((cleanup_dead_letters r json sound queue before limit sp).0 ≡ ok n)
        × Deletes
            (unix_milli before)
            (most limit)
            (r.view (sp queue))
            n
            (r.view ((cleanup_dead_letters r json sound queue before limit sp).1 queue))
  cleanup-Deletes queue before limit sp h =
      subst
        (λ (max : ℕ).
          CleansUp queue before max sp (cleanup_dead_letters r json sound queue before limit sp))
        (limit-most limit) (limit-CleansUp queue before limit sp h)
