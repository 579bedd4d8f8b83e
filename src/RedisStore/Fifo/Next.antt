-- ===== src/RedisStore/Fifo/Next.antt =====
-- Which of the tasks that wait is the next.
use go_task_engine.Prelude.{
  ℕ, ◌^◌, ◌≤◌, ◌<◌, ◌≡◌, ◌≢◌, ◌⊎◌, refl, sym, subst, ap, ◌∙◌, false, true, Option, none, some, List,
  [], ◌∷◌, arith, inl, inr, is_some,
}
use go_task_engine.Prelude.Int.{ℤ, ◌<ℤ◌}
use go_task_engine.Prelude.Text.{Text, text_eq_iff}
use go_task_engine.Model.{pending, active}
use go_task_engine.Redis.{Redis}
use go_task_engine.Redis.Keyspace.{View, Entry, empty_view, zscore, entry_lt}
use go_task_engine.Redis.Order.{First, IsAscending}
use go_task_engine.Redis.Reference.{reference}
use go_task_engine.RedisStore.Scripts.Members.{rank_text}
use go_task_engine.RedisStore.Scripts.Intake.{claim_script}
use go_task_engine.RedisStore.Invariant.Records.{Inv, Inv-empty, listed}
use go_task_engine.RedisStore.Calls.{Call, step, run}
use go_task_engine.RedisStore.Calls.Order.{step-Agrees, reference-step-Inv}
use go_task_engine.RedisStore.Calls.Ranked.{Ranked, reference-step-Ranked}
use go_task_engine.RedisStore.Calls.Claims.{Claimed, claim_best}
use go_task_engine.RedisStore.Fifo.Digits.{rank_text-lt}
use go_task_engine.RedisStore.Fifo.Members.{step_cases}
use go_task_engine.RedisStore.Fifo.Numbered.{
  Known-number, Numbered, Numbered-empty, Wanes-Numbered, Numbers-Numbered,
}
use go_task_engine.RedisStore.Fifo.Scored.{Scored, score_of, step-Scored}

First-zscore :
    (x : Entry) (m : Text) (t : ℤ) (l : List Entry)
    → First x l
    → zscore m l ≡ some t
    → entry_lt (record { score = t; member = m }) x ≡ false
unfolding zscore
First-zscore x m t [] f e = ground arith
First-zscore x m t (y ∷ l) f e = ground (arith, First-zscore x m t l f.1, text_eq_iff y.member m)

-- Of two entries with different numbers the one that does not come later has the lower rank, or the
-- same rank and the smaller number.
earlier :
    (x : Entry) (s t : ℤ) (n m : ℕ) (i j : Text)
    → x.score ≡ s
    → x.member ≡ rank_text n i
    → n < 10 ^ 20
    → m < 10 ^ 20
    → n ≢ m
    → entry_lt (record { score = t; member = rank_text m j }) x ≡ false
    → (s <ℤ t) ⊎ ((s ≡ t) × (n < m))
unfolding entry_lt
earlier x s t n m i j g f h k ne e = ground (arith, rank_text-lt m n j i)

found {ℓ} : {A : Type ℓ} (o : Option A) → is_some o ≡ true → (x : A) × (o ≡ some x)
found none h = absurd (ground arith)
found (some x) h = (x, refl)

score-listed : (o : Option Text) (l : List Entry) → is_some (score_of o l) ≡ listed o l
score-listed none l = refl
score-listed (some m) l = refl

listed_score :
    (o : Option Text) (l : List Entry) (m : Text) → o ≡ some m → score_of o l ≡ zscore m l
listed_score none l m e = ground arith
listed_score (some u) l m e = ground arith

module _ {B : Type 0} where
  -- Everything that the order of a queue rests on.
  record Queued (v : View B) : Type 0 where
    pub inv : Inv v
    pub ranked : Ranked v
    pub numbered : Numbered v
    pub scored : Scored v

  Queued-empty : Queued empty_view
  Queued-empty = record {
    inv = Inv-empty;
    ranked = IsAscending.nil;
    numbered = Numbered-empty;
    scored = λ id s e. ground arith;
  }

  sequence-le-step : (c : Call B) (v : View B) → v.sequence ≤ (step (reference B) c v).sequence
  sequence-le-step c v = elim (step_cases c v) [
    | inl h ↦ omega (arith, h.sequence)
    | inr h ↦ omega (arith, h.sequence)
  ]

  step-Numbered :
      (c : Call B) (v : View B)
      → (step (reference B) c v).sequence < 10 ^ 20
      → Numbered v
      → Numbered (step (reference B) c v)
  step-Numbered c v lim k = elim (step_cases c v) [
    | inl h ↦ Wanes-Numbered v _ h k
    | inr h ↦ Numbers-Numbered v _ h lim k
  ]

  step-Queued :
      (c : Call B) (v : View B)
      → (step (reference B) c v).sequence < 10 ^ 20
      → Queued v
      → Queued (step (reference B) c v)
  step-Queued c v lim q = record {
    inv = reference-step-Inv c v q.inv;
    ranked = reference-step-Ranked c v q.ranked;
    numbered = step-Numbered c v lim q.numbered;
    scored = step-Scored c v q.inv q.scored;
  }

  -- A task with this rank and this number.
  abbrev pub HasPlace : View B → Text → ℤ → ℕ → Type 0
  HasPlace v j t m = ((v.hash j).rank ≡ some t) × ((v.hash j).rank_member ≡ some (rank_text m j))

  place_of :
      (v : View B) (j : Text)
      → Queued v
      → (v.hash j).state ≡ some pending
      → (t : ℤ) × (m : ℕ) × (m ≤ v.sequence)
        × HasPlace v j t m
        × (zscore (rank_text m j) v.pending_rank ≡ some t)
  place_of v j q p =
      let (s, is) =
        found (score_of (v.hash j).rank_member v.pending_rank)
          (ground (arith, q.inv.located j, score-listed (v.hash j).rank_member v.pending_rank)) in
      let (u, own) = found (v.hash j).rank_member (ground (arith, q.inv.located j)) in
      let (m, le, e) =
        Known-number v.sequence j u (v.hash j).rank_member own (q.numbered.drawn j) in
      (
        s,
        m,
        le,
        (q.scored j s is, ground arith),
        ground (arith, listed_score (v.hash j).rank_member v.pending_rank u),
      )

  -- A claim that turns the keys `v` into `w`: the task it takes, and where it stood among those that
  -- waited.
  pub record TakesNext (v w : View B) (a : Text) (b : B) : Type 0 where
    pub id : Text
    pub rank : ℤ
    pub number : ℕ
    pub was_pending : (v.hash id).state ≡ some pending
    pub message : (v.hash id).msg ≡ some b
    pub placed : HasPlace v id rank number
    pub first :
        (j : Text)
        → j ≢ id
        → (v.hash j).state ≡ some pending
        → (t : ℤ) × (m : ℕ) × HasPlace v j t m × ((rank <ℤ t) ⊎ ((rank ≡ t) × (number < m)))
    pub now_active : (w.hash id).state ≡ some active
    pub attempted : (w.hash id).attempt_id ≡ some a

  Claimed-TakesNext :
      (v w : View B) (t : ℤ) (a : Text) (b : B)
      → Queued v
      → v.sequence < 10 ^ 20
      → Claimed v w t a b
      → TakesNext v w a b
  Claimed-TakesNext v w t a b q lim c =
      let (s, n, le, here, score) = place_of v c.id q c.was_pending in
      record {
        id = c.id;
        rank = s;
        number = n;
        was_pending = c.was_pending;
        message = c.message;
        placed = here;
        first = λ j ne p.
            let (t, m, le', there, score') = place_of v j q p in
            let own : some c.entry.member ≡ some (rank_text n c.id) = sym c.ranked ∙ here.1 in
            let ranks : c.entry.score ≡ s = ground arith in
            (
              t,
              m,
              there,
              earlier c.entry s t n m c.id j ranks (ground arith) (omega (arith, le, lim))
                  (omega (arith, le', lim))
                  (λ e. ne (q.numbered.apart j c.id n (omega (arith, le)) (ground arith) here.1))
                  (First-zscore c.entry (rank_text m j) t v.pending_rank c.best score'),
            );
        now_active = c.now_active;
        attempted = c.attempted;
      }

module _ {B : Type 0} (r : Redis B) where
  sequence-le-run :
      (cs : List (Call B)) (d : r.Db) → (r.view d).sequence ≤ (r.view (run r cs d)).sequence
  unfolding run
  sequence-le-run [] d = omega arith
  sequence-le-run (c ∷ cs) d = omega (
    arith,
    sequence-le-run cs (step r c d),
    sequence-le-step c (r.view d),
    ap (λ (v : View B). v.sequence) (step-Agrees r c d),
  )

  run-Queued :
      (cs : List (Call B)) (d : r.Db)
      → (r.view (run r cs d)).sequence < 10 ^ 20
      → Queued (r.view d)
      → Queued (r.view (run r cs d))
  unfolding run
  run-Queued [] d lim q = q
  run-Queued (c ∷ cs) d lim q = run-Queued cs (step r c d) lim (
      subst Queued (sym (step-Agrees r c d)) (
        step-Queued c (r.view d)
          (omega (
            arith,
            lim,
            sequence-le-run cs (step r c d),
            ap (λ (v : View B). v.sequence) (step-Agrees r c d),
          ))
          q))

  -- In a queue that was empty at first and whose sequence number has at most 20 digits, after any calls
  -- of any clients, a claim that returns a message takes a pending task before which no other comes:
  -- every other pending task has a higher rank, or the same rank and a higher sequence number.
  pub claim-TakesNext :
      (cs : List (Call B)) (d : r.Db) (n t : ℤ) (a : Text) (b : B)
      → r.view d ≡ empty_view
      → (r.view (run r cs d)).sequence < 10 ^ 20
      → (claim_script r n t a (run r cs d)).0 ≡ some b
      → TakesNext (r.view (run r cs d)) (r.view (claim_script r n t a (run r cs d)).1) a b
  claim-TakesNext cs d n t a b e lim claimed =
      let q = run-Queued cs d lim (subst Queued (sym e) Queued-empty) in
      Claimed-TakesNext _ _ t a b q lim (claim_best r n t a (run r cs d) q.inv b q.ranked claimed)
