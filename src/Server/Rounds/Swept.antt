-- ===== src/Server/Rounds/Swept.antt =====
-- What sweeping the leases of some queues does to the queues.
use go_task_engine.Prelude.{
  ℕ, zero, suc, ◌≡◌, ◌≢◌, ◌⊎◌, refl, sym, ap, subst, ◌∙◌, true, false, Option, some, List, [], ◌∷◌,
  Bool-cases, inl, inr, arith, take,
}
use go_task_engine.Prelude.Int.{ℤ}
use go_task_engine.Prelude.Text.{Text, text_eq, text_eq_iff, text_eq→eq}
use go_task_engine.Model.{TaskState, active}
use go_task_engine.Redis.{Redis}
use go_task_engine.Redis.Keyspace.{View, TaskHash, score_range}
use go_task_engine.Redis.Ranges.{has}
use go_task_engine.RedisStore.Store.Base.{Codec}
use go_task_engine.Server.Recovery.Spares.{Ended, is_active, Shrinks, Sound}

module _ {B : Type 0} (r : Redis B) (json : Codec B) where
  abbrev Space : Type 0
  Space = Text → r.Db

  -- Every active task has an attempt and a message that names its queue and id.
  abbrev pub AllSound : Text → View B → Type 0
  AllSound q v = (id : Text) → (v.hash id).state ≡ some active → Sound json q id v

  Ended-idle : (o : Option TaskState) → Ended o → o ≢ some active
  Ended-idle o h e = ground (arith, h, e)

  -- The active ones of these tasks of a queue ended, and no other task changed.
  pub record Swept (q : Text) (ids : List Text) (sp sp' : Space) : Type 0 where
    pub elsewhere : (p : Text) → p ≢ q → sp' p ≡ sp p
    pub ended :
        (j : Text)
        → has j ids ≡ true
        → ((r.view (sp q)).hash j).state ≡ some active
        → Ended ((r.view (sp' q)).hash j).state
    pub kept :
        (j : Text)
        → (has j ids ≡ false) ⊎ (((r.view (sp q)).hash j).state ≢ some active)
        → (r.view (sp' q)).hash j ≡ (r.view (sp q)).hash j
    pub shrinks : Shrinks (r.view (sp q)) (r.view (sp' q))

  Sound-same :
      (q j : Text) (v w : View B) → w.hash j ≡ v.hash j → Sound json q j v → Sound json q j w
  Sound-same q j v w e k = record {
    message = k.message;
    encoded = k.encoded;
    first = k.first;
    rest = k.rest;
    queue = k.queue;
    id_of = k.id_of;
    has_msg = rw e k.has_msg;
    has_attempt = rw e k.has_attempt;
    decoded = k.decoded;
  }

  -- What the sweep of a queue left active was there before.
  pub Swept-AllSound :
      (q : Text) (ids : List Text) (sp sp' : Space)
      → Swept q ids sp sp'
      → AllSound q (r.view (sp q))
      → AllSound q (r.view (sp' q))
  Swept-AllSound q ids sp sp' s k j e = elim (is_active ((r.view (sp q)).hash j).state) [
    | inr idle ↦ absurd (idle (ap (λ (x : TaskHash B). x.state) (sym (s.kept j (inr idle))) ∙ e))
    | inl was ↦ elim (Bool-cases (has j ids)) [
      | inl in_ids ↦ absurd (Ended-idle _ (s.ended j in_ids was) e)
      | inr not_in ↦ Sound-same q j _ _ (s.kept j (inl not_in)) (k j was)
    ]
  ]

  pub Swept-nil : (q : Text) (sp : Space) → Swept q [] sp sp
  Swept-nil q sp = record {
    elsewhere = λ p ne. refl;
    ended = λ j h. ground arith;
    kept = λ j h. refl;
    shrinks = λ s j h. h;
  }

  pub only : (id j : Text) → has j (id ∷ []) ≡ true → id ≡ j
  only id j h = ground (arith, text_eq_iff id j)

  pub idle_here :
      (q id j : Text) (sp : Space)
      → text_eq id j ≡ true
      → (has j (id ∷ []) ≡ false) ⊎ (((r.view (sp q)).hash j).state ≢ some active)
      → ((r.view (sp q)).hash id).state ≢ some active
  idle_here q id j sp e (inl h) = absurd (ground arith)
  idle_here q id j sp e (inr h) =
      subst (λ (x : Text). ((r.view (sp q)).hash x).state ≢ some active) (sym (text_eq→eq id j e)) h

  pub Swept-trans :
      (q id : Text) (ids : List Text) (sp sp' sp'' : Space)
      → Swept q (id ∷ []) sp sp'
      → Swept q ids sp' sp''
      → Swept q (id ∷ ids) sp sp''
  Swept-trans q id ids sp sp' sp'' s t = record {
    elsewhere = λ p ne. t.elsewhere p ne ∙ s.elsewhere p ne;
    ended = λ j h e. elim (Bool-cases (has j (id ∷ []))) [
      | inl first ↦
          let done = s.ended j first e in
          subst Ended (ap (λ (x : TaskHash B). x.state) (sym (t.kept j (inr (Ended-idle _ done)))))
            done
      | inr later ↦
          t.ended j (ground arith) (ap (λ (x : TaskHash B). x.state) (s.kept j (inl later)) ∙ e)
    ];
    kept = λ j h. elim h [
      | inl neither ↦ t.kept j (inl (ground arith)) ∙ s.kept j (inl (ground arith))
      | inr idle ↦
          let same = s.kept j (inr idle) in
          t.kept j (inr (λ e. idle (ap (λ (x : TaskHash B). x.state) (sym same) ∙ e))) ∙ same
    ];
    shrinks = λ u j h. s.shrinks u j (t.shrinks u j h);
  }

  -- A round over the queues, at the milliseconds of its tick.
  pub record RoundSwept (at : ℤ) (qs : List Text) (sp sp' : Space) : Type 0 where
    pub elsewhere : (p : Text) → has p qs ≡ false → sp' p ≡ sp p
    pub ended :
        (p j : Text)
        → has p qs ≡ true
        → has j (take 100 (score_range at (r.view (sp p)).lease)) ≡ true
        → ((r.view (sp p)).hash j).state ≡ some active
        → Ended ((r.view (sp' p)).hash j).state
    pub kept :
        (p j : Text)
        → (has p qs ≡ false)
          ⊎ ((has j (score_range at (r.view (sp p)).lease) ≡ false)
              ⊎ (((r.view (sp p)).hash j).state ≢ some active))
        → (r.view (sp' p)).hash j ≡ (r.view (sp p)).hash j
    pub shrinks : (p : Text) → Shrinks (r.view (sp p)) (r.view (sp' p))

  pub RoundSwept-nil : (at : ℤ) (sp : Space) → RoundSwept at [] sp sp
  RoundSwept-nil at sp = record {
    elsewhere = λ p h. refl;
    ended = λ p j h. ground arith;
    kept = λ p j h. refl;
    shrinks = λ p s j h. h;
  }

  has-take : (n : ℕ) (j : Text) (l : List Text) → has j l ≡ false → has j (take n l) ≡ false
  has-take zero j l h = refl
  has-take (suc n) j [] h = refl
  has-take (suc n) j (x ∷ l) h = ground (arith, has-take n j l)

  -- What a tick asks Redis for.
  abbrev pub asked : ℤ → Text → Space → List Text
  asked at q sp = take 100 (score_range at (r.view (sp q)).lease)

  pub Swept-at :
      (at : ℤ) (q p : Text) (sp sp' : Space)
      → text_eq q p ≡ true
      → Swept q (asked at q sp) sp sp'
      → Swept p (asked at p sp) sp sp'
  Swept-at at q p sp sp' e s =
      subst (λ (x : Text). Swept x (asked at x sp) sp sp') (text_eq→eq q p e) s

  pub elsewhere-ne : (q p : Text) → text_eq q p ≡ false → p ≢ q
  elsewhere-ne q p h e = ground (arith, text_eq_iff q p)

  Shrinks-eq : (d d' : r.Db) → d' ≡ d → Shrinks (r.view d) (r.view d')
  Shrinks-eq d d' e s j h = ground (arith, h, e)

  pub Swept-Round :
      (at : ℤ) (q : Text) (sp sp' : Space)
      → Swept q (asked at q sp) sp sp'
      → RoundSwept at (q ∷ []) sp sp'
  Swept-Round at q sp sp' s = record {
    elsewhere = λ p h. s.elsewhere p (elsewhere-ne q p (ground arith));
    ended = λ p j h m e. (Swept-at at q p sp sp' (ground arith) s).ended j m e;
    kept = λ p j h. elim (Bool-cases (text_eq q p)) [
      | inl here ↦
          let k = Swept-at at q p sp sp' here s in
          (elim h [
            | inl no_queue ↦ absurd (ground arith)
            | inr (inl no_lease) ↦ k.kept j (inl (has-take 100 j _ no_lease))
            | inr (inr idle) ↦ k.kept j (inr idle)
          ])
      | inr other ↦ ap (λ (d : r.Db). (r.view d).hash j) (s.elsewhere p (elsewhere-ne q p other))
    ];
    shrinks = λ p. elim (Bool-cases (text_eq q p)) [
      | inl here ↦ (Swept-at at q p sp sp' here s).shrinks
      | inr other ↦ Shrinks-eq _ _ (s.elsewhere p (elsewhere-ne q p other))
    ];
  }

  not_listed :
      (at : ℤ) (j : Text) (v w : View B)
      → Shrinks v w
      → has j (score_range at v.lease) ≡ false
      → has j (score_range at w.lease) ≡ false
  not_listed at j v w k h = ground (arith, k at j)

  pub RoundSwept-trans :
      (at : ℤ) (q : Text) (qs : List Text) (sp sp' sp'' : Space)
      → RoundSwept at (q ∷ []) sp sp'
      → RoundSwept at qs sp' sp''
      → RoundSwept at (q ∷ qs) sp sp''
  RoundSwept-trans at q qs sp sp' sp'' s t = record {
    elsewhere = λ p h. t.elsewhere p (ground arith) ∙ s.elsewhere p (ground arith);
    ended = λ p j h m e. elim (Bool-cases (has p (q ∷ []))) [
      | inl first ↦
          let done = s.ended p j first m e in
          subst Ended
            (ap (λ (x : TaskHash B). x.state) (sym (t.kept p j (inr (inr (Ended-idle _ done))))))
            done
      | inr later ↦
          let same = s.elsewhere p later in t.ended p j (ground arith) (rw same m) (rw same e)
    ];
    kept = λ p j h. elim h [
      | inl no_queue ↦ t.kept p j (inl (ground arith)) ∙ s.kept p j (inl (ground arith))
      | inr (inl no_lease) ↦
          t.kept p j
            (inr (inl (not_listed at j (r.view (sp p)) (r.view (sp' p)) (s.shrinks p) no_lease)))
          ∙ s.kept p j (inr (inl no_lease))
      | inr (inr idle) ↦
          let same = s.kept p j (inr (inr idle)) in
          t.kept p j (inr (inr (λ e. idle (ap (λ (x : TaskHash B). x.state) (sym same) ∙ e))))
          ∙ same
    ];
    shrinks = λ p u j h. s.shrinks p u j (t.shrinks p u j h);
  }
