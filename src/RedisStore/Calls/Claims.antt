-- ===== src/RedisStore/Calls/Claims.antt =====
-- Which task claimScript hands out.
use go_task_engine.Prelude.{
  ◌≡◌, ◌≢◌, ◌↔◌, ◌⊎◌, refl, sym, ap, ◌∙◌, subst, Option, none, some, List, [], ◌∷◌, arith, inl, inr,
}
use go_task_engine.Prelude.Int.{ℤ, pos}
use go_task_engine.Prelude.Text.{Text, text_eq_iff, text_eq_refl}
use go_task_engine.Model.{pending, active}
use go_task_engine.Redis.{Redis}
use go_task_engine.Redis.Keyspace.{View, Entry, zscore, rank_range}
use go_task_engine.Redis.Order.{First, IsAscending, First-head}
use go_task_engine.Redis.SortedSets.{zscore-zinsert}
use go_task_engine.Redis.Reference.{reference}
use go_task_engine.RedisStore.Scripts.Members.{candidate}
use go_task_engine.RedisStore.Scripts.Replies.{is_text_iff}
use go_task_engine.RedisStore.Scripts.Intake.{claim_script, claim_members}
use go_task_engine.RedisStore.Transfer.Intake.{claim-Agrees}
use go_task_engine.RedisStore.Invariant.Records.{Inv}
use go_task_engine.RedisStore.Calls.Ranked.{Ranked}

head_cases {ℓ} : {A : Type ℓ} (l : List A) → (l ≡ []) ⊎ ((x : A) × (m : List A) × (l ≡ x ∷ m))
head_cases [] = inl refl
head_cases (x ∷ m) = inr (x, m, refl)

module _ {B : Type 0} where
  -- A claim that turns the keys `v` into `w`, under the attempt `a`, with a lease until `t`.
  pub record Claimed (v w : View B) (t : ℤ) (a : Text) (b : B) : Type 0 where
    pub id : Text
    pub entry : Entry
    pub was_pending : (v.hash id).state ≡ some pending
    pub message : (v.hash id).msg ≡ some b
    pub ranked : (v.hash id).rank_member ≡ some entry.member
    pub scored : zscore entry.member v.pending_rank ≡ some entry.score
    pub best : First entry v.pending_rank
    pub now_active : (w.hash id).state ≡ some active
    pub attempted : (w.hash id).attempt_id ≡ some a
    pub leased : zscore id w.lease ≡ some t
    pub others : (j : Text) → j ≢ id → w.hash j ≡ v.hash j

  claim_head :
      (x : Entry) (l : List Entry) (n t : ℤ) (a : Text) (v : View B) (b : B)
      → v.pending_rank ≡ x ∷ l
      → Inv v
      → Ranked v
      → (claim_members (reference B) (x.member ∷ []) n t a v).0 ≡ some b
      → Claimed v (claim_members (reference B) (x.member ∷ []) n t a v).1 t a b
  unfolding claim_members zscore
  claim_head x l n t a v b e h s r =
      let known : (v.hash (candidate x.member)).rank_member ≡ some x.member =
        h.known x.member (ground (arith, text_eq_refl x.member)) in
      let here = h.located (candidate x.member) in
      let own = is_text_iff x.member (v.hash (candidate x.member)).rank_member in
      let eq = text_eq_refl (candidate x.member) in
      let sc = text_eq_refl x.member in
      record {
        id = candidate x.member;
        entry = x;
        was_pending = ground (arith, known, here, sc);
        message = ground (arith, known, here, own, sc, r);
        ranked = known;
        scored = ground (arith, sc);
        best = rw e (First-head x l (subst IsAscending e s));
        now_active = ground (arith, known, here, own, sc, r, eq);
        attempted = ground (arith, known, here, own, sc, r, eq);
        leased = ground (
          arith,
          known,
          here,
          own,
          sc,
          r,
          zscore-zinsert (candidate x.member) t (candidate x.member) v.lease,
          eq,
        );
        others =
            λ j ne. ground (arith, known, here, own, sc, r, text_eq_iff (candidate x.member) j);
      }

  claim-pending_rank :
      (l : List Entry) (n t : ℤ) (a : Text) (v : View B)
      → v.pending_rank ≡ l
      → claim_script (reference B) n t a v
        ≡ claim_members (reference B) (rank_range (pos 0) (pos 0) l) n t a v
  unfolding claim_script
  claim-pending_rank l n t a v e =
      ap (λ (q : List Entry). claim_members (reference B) (rank_range (pos 0) (pos 0) q) n t a v) e

  claim_nil :
      (n t : ℤ) (a : Text) (v : View B)
      → v.pending_rank ≡ []
      → (claim_script (reference B) n t a v).0 ≡ none
  unfolding claim_members rank_range
  claim_nil n t a v e = ap (λ (q : Option B × View B). q.0) (claim-pending_rank [] n t a v e)

  claim_ranks :
      (l : List Entry) (n t : ℤ) (a : Text) (v : View B) (b : B)
      → v.pending_rank ≡ l
      → Inv v
      → Ranked v
      → (claim_members (reference B) (rank_range (pos 0) (pos 0) l) n t a v).0 ≡ some b
      → Claimed v (claim_members (reference B) (rank_range (pos 0) (pos 0) l) n t a v).1 t a b
  unfolding claim_members rank_range
  claim_ranks [] n t a v b e h s r = cc
  claim_ranks (x ∷ l) n t a v b e h s r = claim_head x l n t a v b e h s r

  -- Under the invariant a task whose member leads `pending_rank` is handed out.
  claim_members-none :
      (l : List Entry) (n t : ℤ) (a : Text) (v : View B)
      → v.pending_rank ≡ l
      → Inv v
      → (claim_members (reference B) (rank_range (pos 0) (pos 0) l) n t a v).0 ≡ none
      → l ≡ []
  unfolding claim_members rank_range zscore
  claim_members-none [] n t a v e h r = refl
  claim_members-none (x ∷ l) n t a v e h r = ground (
    arith,
    text_eq_refl x.member,
    h.known x.member,
    h.located (candidate x.member),
    is_text_iff x.member (v.hash (candidate x.member)).rank_member,
  )

  pub pending_rank-nil :
      (v : View B)
      → Inv v
      → (v.pending_rank ≡ []) ↔ ((id : Text) → (v.hash id).state ≢ some pending)
  unfolding zscore
  pending_rank-nil v h = (
    λ e id p. ground (arith, h.located id),
    λ p. elim (head_cases v.pending_rank) [
      | inl e ↦ e
      | inr (x, l, e) ↦ absurd (
          p (candidate x.member) (
            ground
              (arith, h.known x.member, h.located (candidate x.member), text_eq_refl x.member)))
    ],
  )

module _ {B : Type 0} (r : Redis B) (n t : ℤ) (a : Text) (d : r.Db) (h : Inv (r.view d)) where
  -- From keys in order, with the pending tasks in the order of their ranks, a claim that returns a
  -- message takes a pending task before which no other comes by rank, makes it active under the
  -- attempt with its lease, and changes no other task.
  pub claim_best :
      (b : B)
      → Ranked (r.view d)
      → (claim_script r n t a d).0 ≡ some b
      → Claimed (r.view d) (r.view (claim_script r n t a d).1) t a b
  claim_best b s e =
      let (same, left) = claim-Agrees r n t a d in
      let ranks = claim-pending_rank (r.view d).pending_rank n t a (r.view d) refl in
      rw (left, ranks)
        (claim_ranks _ n t a (r.view d) b refl h s
          (ap (λ (q : Option B × View B). q.0) (sym ranks) ∙ sym same ∙ e))

  -- From keys in order, a claim returns nothing exactly when no task is pending.
  pub claim-none_iff :
      ((claim_script r n t a d).0 ≡ none)
      ↔ ((id : Text) → ((r.view d).hash id).state ≢ some pending)
  claim-none_iff =
      let same = (claim-Agrees r n t a d).0 in
      let ranks =
        ap (λ (q : Option B × View B). q.0)
          (claim-pending_rank (r.view d).pending_rank n t a (r.view d) refl) in
      let nil = pending_rank-nil (r.view d) h in
      (
        λ e. nil.0 (claim_members-none _ n t a (r.view d) refl h (sym ranks ∙ sym same ∙ e)),
        λ p. same ∙ claim_nil n t a (r.view d) (nil.1 p),
      )
