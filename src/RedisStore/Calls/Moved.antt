-- ===== src/RedisStore/Calls/Moved.antt =====
-- Which tasks moveReadyScript makes pending.
use go_task_engine.Prelude.{
  ℕ, ◌+◌, ◌≤◌, ◌≡◌, ◌⊎◌, ◌∙◌, refl, ap, true, false, Option, none, some, List, [], ◌∷◌, Bool-cases,
  inl, inr, arith, is_some, length, leb,
}
use go_task_engine.Prelude.Int.{ℤ}
use go_task_engine.Prelude.Text.{Text, text_eq_iff}
use go_task_engine.Model.{pending}
use go_task_engine.Redis.Keyspace.{
  View, ZName, TaskHash, scheduled, retry, get_zset, zscore, score_range,
}
use go_task_engine.Redis.SortedSets.{zscore-zdelete}
use go_task_engine.Redis.Ranges.{has}
use go_task_engine.Redis.Reference.{reference}
use go_task_engine.RedisStore.Scripts.Intake.{move_ready_body, move_ready_loop, move_ready_script}
use go_task_engine.RedisStore.Scripts.Loops.{move_ready_loop-keeps}
use go_task_engine.RedisStore.Invariant.Records.{Inv}
use go_task_engine.RedisStore.Invariant.Intake.{IsSource, move_ready_body-Inv}

-- The other sorted set from which MoveReady takes tasks.
abbrev pub opposite : ZName → ZName
opposite scheduled = retry
opposite retry = scheduled
opposite z = z

module _ {B : Type 0} where
  -- What becomes of one task when some of a sorted set are moved.
  pub record Moved (z : ZName) (ids : List Text) (v w : View B) (j : Text) : Type 0 where
    pub moved :
        has j ids ≡ true
        → is_some (zscore j (get_zset z v)) ≡ true
        → (w.hash j).state ≡ some pending
    pub kept : (has j ids ≡ false) ⊎ (zscore j (get_zset z v) ≡ none) → w.hash j ≡ v.hash j
    pub stays : has j ids ≡ false → zscore j (get_zset z w) ≡ zscore j (get_zset z v)
    pub gone : zscore j (get_zset z v) ≡ none → zscore j (get_zset z w) ≡ none
    pub other : get_zset (opposite z) w ≡ get_zset (opposite z) v

  body-Moved :
      (z : ZName) (id j : Text) (v : View B) (o : Option ℤ)
      → IsSource z
      → Inv v
      → (v.hash id).rank ≡ o
      → Moved z (id ∷ []) v (move_ready_body (reference B) z id v).1 j
  unfolding move_ready_body
  body-Moved scheduled id j v (some s) w h e = record {
    moved = λ m k. ground (arith, text_eq_iff id j);
    kept = λ k. ground (arith, k, text_eq_iff id j);
    stays = λ k. ground (arith, zscore-zdelete j id v.scheduled);
    gone = λ k. ground (arith, zscore-zdelete j id v.scheduled);
    other = ground arith;
  }
  body-Moved retry id j v (some s) w h e = record {
    moved = λ m k. ground (arith, text_eq_iff id j);
    kept = λ k. ground (arith, k, text_eq_iff id j);
    stays = λ k. ground (arith, zscore-zdelete j id v.retry);
    gone = λ k. ground (arith, zscore-zdelete j id v.retry);
    other = ground arith;
  }
  body-Moved scheduled id j v none w h e = record {
    moved = λ m k. ground (arith, text_eq_iff id j, h.located id);
    kept = λ k. ground (arith, k, text_eq_iff id j);
    stays = λ k. ground (arith, zscore-zdelete j id v.scheduled);
    gone = λ k. ground (arith, zscore-zdelete j id v.scheduled);
    other = ground arith;
  }
  body-Moved retry id j v none w h e = record {
    moved = λ m k. ground (arith, text_eq_iff id j, h.located id);
    kept = λ k. ground (arith, k, text_eq_iff id j);
    stays = λ k. ground (arith, zscore-zdelete j id v.retry);
    gone = λ k. ground (arith, zscore-zdelete j id v.retry);
    other = ground arith;
  }
  body-Moved _ id j v o w h e = absurd w

  body-le :
      (z : ZName) (id : Text) (v : View B) (o : Option ℤ)
      → IsSource z
      → (v.hash id).rank ≡ o
      → (move_ready_body (reference B) z id v).0 ≤ 1
  unfolding move_ready_body
  body-le scheduled id v none w e = ground arith
  body-le scheduled id v (some s) w e = ground arith
  body-le retry id v none w e = ground arith
  body-le retry id v (some s) w e = ground arith
  body-le _ id v o w e = absurd w

  -- A pending task is in neither set.
  pub pending-nowhere :
      (z : ZName) (j : Text) (v : View B)
      → IsSource z
      → Inv v
      → (v.hash j).state ≡ some pending
      → zscore j (get_zset z v) ≡ none
  pending-nowhere scheduled j v w h e = ground (arith, h.located j)
  pending-nowhere retry j v w h e = ground (arith, h.located j)
  pending-nowhere _ j v w h e = absurd w

  Moved-trans :
      (z : ZName) (id j : Text) (ids : List Text) (u v w : View B)
      → IsSource z
      → Inv v
      → Moved z (id ∷ []) u v j
      → Moved z ids v w j
      → Moved z (id ∷ ids) u w j
  Moved-trans z id j ids u v w k h s t = record {
    moved = λ m e. elim (Bool-cases (has j (id ∷ []))) [
      | inl first ↦
          let done = s.moved first e in
          ap (λ (x : TaskHash B). x.state) (t.kept (inr (pending-nowhere z j v k h done))) ∙ done
      | inr later ↦ t.moved (ground arith) (ap is_some (s.stays later) ∙ e)
    ];
    kept = λ e. elim e [
      | inl neither ↦ t.kept (inl (ground arith)) ∙ s.kept (inl (ground arith))
      | inr nowhere ↦ t.kept (inr (s.gone nowhere)) ∙ s.kept (inr nowhere)
    ];
    stays = λ e. t.stays (ground arith) ∙ s.stays (ground arith);
    gone = λ e. t.gone (s.gone e);
    other = t.other ∙ s.other;
  }

  loop-Moved :
      (z : ZName) (max : ℕ) (ids : List Text) (n : ℕ) (j : Text) (v : View B)
      → IsSource z
      → Inv v
      → n + length ids ≤ max
      → Moved z ids v (move_ready_loop (reference B) z max ids n v).1 j
  unfolding move_ready_loop
  loop-Moved z max [] n j v w h le = record {
    moved = λ m e. ground arith;
    kept = λ e. refl;
    stays = λ e. refl;
    gone = λ e. e;
    other = refl;
  }
  loop-Moved z max (id ∷ ids) n j v w h le =
      let next = (move_ready_body (reference B) z id v).1 in
      let k = move_ready_body-Inv z id v w h in
      let room : leb max n ≡ false = ground arith in
      rw room (
        Moved-trans z id j ids v next _ w k (body-Moved z id j v (v.hash id).rank w h refl) (
          loop-Moved z max ids (n + (move_ready_body (reference B) z id v).0) j next w k
            (omega (arith, le, body-le z id v (v.hash id).rank w refl))))

  -- The script, when no more than its limit are due.
  pub script-Moved :
      (z : ZName) (now : ℤ) (max : ℕ) (j : Text) (v : View B)
      → IsSource z
      → Inv v
      → length (score_range now (get_zset z v)) ≤ max
      → Moved z (score_range now (get_zset z v)) v (move_ready_script (reference B) z now max v).1 j
  unfolding move_ready_script
  script-Moved z now max j v w h le = loop-Moved z max _ 0 j v w h (omega (arith, le))

  -- Whatever is due, a pending task stays pending and the other set stays as it is.
  pub script-pending :
      (z : ZName) (now : ℤ) (max : ℕ) (j : Text) (v : View B)
      → IsSource z
      → Inv v
      → (v.hash j).state ≡ some pending
      → ((move_ready_script (reference B) z now max v).1.hash j).state ≡ some pending
  unfolding move_ready_script
  script-pending z now max j v w h e =
      (move_ready_loop-keeps (reference B) (λ u. Inv u × ((u.hash j).state ≡ some pending)) z max
        (λ id u k. (
          move_ready_body-Inv z id u w k.0,
          ap (λ (x : TaskHash B). x.state)
                ((body-Moved z id j u (u.hash id).rank w k.0 refl).kept
                  (inr (pending-nowhere z j u w k.0 k.1)))
              ∙ k.1,
        ))
        _ 0 v (h, e)).1

  pub script-other :
      (z : ZName) (now : ℤ) (max : ℕ) (v : View B)
      → IsSource z
      → Inv v
      → get_zset (opposite z) (move_ready_script (reference B) z now max v).1
        ≡ get_zset (opposite z) v
  unfolding move_ready_script
  script-other z now max v w h =
      (move_ready_loop-keeps (reference B)
        (λ u. Inv u × (get_zset (opposite z) u ≡ get_zset (opposite z) v)) z max
        (λ id u k. (
          move_ready_body-Inv z id u w k.0,
          (body-Moved z id id u (u.hash id).rank w k.0 refl).other ∙ k.1,
        ))
        _ 0 v (h, refl)).1
