-- ===== src/Server/Rounds/Expired.antt =====
-- A tick of the recovery loop on the Redis store: what becomes of the tasks whose leases ran out.
use go_task_engine.Prelude.{
  ℕ, zero, suc, ◌≡◌, ◌≤◌, refl, sym, ap, subst, ◌∙◌, true, false, some, List, [], ◌∷◌, Bool-cases,
  inl, inr, arith, take, length,
}
use go_task_engine.Prelude.Int.{ℤ, pos, ◌≤ℤ◌}
use go_task_engine.Prelude.Text.{Text, text_eq, text_eq_iff}
use go_task_engine.Errors.{Error}
use go_task_engine.Result.{ok}
use go_task_engine.Float.{Float64}
use go_task_engine.Model.{unix_milli, active}
use go_task_engine.Storage.{TaskStore, TaskSource}
use go_task_engine.Redis.{Redis}
use go_task_engine.Redis.Keyspace.{View, ZName, zscore, score_range}
use go_task_engine.Redis.Ranges.{has, has-score_range}
use go_task_engine.RedisStore.Invariant.Records.{Inv}
use go_task_engine.RedisStore.Store.Base.{Codec, sound, send}
use go_task_engine.RedisStore.Store.Reads.{read, expired_ids}
use go_task_engine.Server.Process.{World, recover}
use go_task_engine.Server.OnRedis.{redis_store, Encodes}
use go_task_engine.Server.Dispatch.Order.{redis_source}
use go_task_engine.Server.Recovery.Spares.{Ended, is_active}
use go_task_engine.Server.Recovery.Effect.{recover-Recovers}
use go_task_engine.Server.Rounds.{recover_ids, recover_expired, recover_round, no_ids}
use go_task_engine.Server.Rounds.Swept.{
  AllSound, Swept, Swept-AllSound, Swept-nil, Swept-trans, Swept-Round, Swept-at, asked, RoundSwept,
  RoundSwept-nil, RoundSwept-trans, elsewhere-ne, only, idle_here,
}

take-all : (n : ℕ) (l : List Text) → length l ≤ n → take n l ≡ l
take-all zero [] h = refl
take-all zero (x ∷ l) h = absurd (omega (arith, h))
take-all (suc n) [] h = refl
take-all (suc n) (x ∷ l) h = ap (λ (m : List Text). x ∷ m) (take-all n l (omega (arith, h)))

leased-active :
    {B : Type 0} (v : View B) (id : Text) (t : ℤ)
    → Inv v
    → zscore id v.lease ≡ some t
    → (v.hash id).state ≡ some active
leased-active v id t h e = elim (is_active (v.hash id).state) [
  | inl here ↦ here
  | inr idle ↦ absurd (ground (arith, h.located id, e, idle))
]

module _ {B : Type 0} (r : Redis B) (json : Codec B) where
  abbrev Space : Type 0
  Space = Text → r.Db

  module _ (now : ℤ) (text : Error → Text) (delay : ℤ → ℤ) (tick : ℤ) (codec : Encodes r json)
      (writes : codec.CanWrite now) where
    abbrev store : TaskStore Space
    store = redis_store r json sound

    one-Swept :
        (q id : Text) (w : World Space)
        → AllSound r json q (r.view (w.store q))
        → Swept r json q (id ∷ []) w.store (recover store now text delay tick q id w).store
    one-Swept q id w k =
        let one = recover-Recovers r json now text delay tick codec writes q id w (k id) in
        record {
          elsewhere = one.spares.0;
          ended = λ j h e.
              subst
                (λ (x : Text).
                  Ended
                    ((r.view ((recover store now text delay tick q id w).store q)).hash x).state)
                (only r json id j h)
                (one.ended (
                  ap (λ (x : Text). ((r.view (w.store q)).hash x).state) (only r json id j h) ∙ e));
          kept = λ j h. elim (Bool-cases (text_eq id j)) [
            | inl same ↦
                ap (λ (sp : Space). (r.view (sp q)).hash j)
                  (one.idle (idle_here r json q id j w.store same h))
            | inr other ↦ one.spares.1 j (λ e. ground (arith, text_eq_iff id j))
          ];
          shrinks = one.spares.2;
        }

    ids-Swept :
        (q : Text) (ids : List Text) (w : World Space)
        → AllSound r json q (r.view (w.store q))
        → Swept r json q ids w.store (recover_ids store now text delay tick q ids w).store
    unfolding recover_ids
    ids-Swept q [] w k = Swept-nil r json q w.store
    ids-Swept q (id ∷ ids) w k =
        let one = one-Swept q id w k in
        Swept-trans r json q id ids _ _ _ one (
          ids-Swept q ids (recover store now text delay tick q id w)
            (Swept-AllSound r json q (id ∷ []) _ _ one k))

    asked_lem :
        (q : Text) (sp : Space)
        → expired_ids r json sound tick q (pos 100) sp ≡ ok (asked r json (unix_milli tick) q sp)
    unfolding expired_ids read send
    asked_lem q sp = rw (r.zrange_by_score_law ZName.lease (unix_milli tick) (sp q)) refl

    expired-Swept :
        (q : Text) (w : World Space)
        → AllSound r json q (r.view (w.store q))
        → Swept r json q
            (asked r json (unix_milli tick) q w.store)
            w.store
            (recover_expired store now text delay tick q
              (expired_ids r json sound tick q (pos 100) w.store)
              w).store
    unfolding recover_expired
    expired-Swept q w k = rw (asked_lem q w.store) (ids-Swept q _ w k)

    Round-AllSound :
        (q : Text) (sp sp' : Space)
        → Swept r json q (asked r json (unix_milli tick) q sp) sp sp'
        → ((p : Text) → AllSound r json p (r.view (sp p)))
        → (p : Text) → AllSound r json p (r.view (sp' p))
    Round-AllSound q sp sp' s k p = elim (Bool-cases (text_eq q p)) [
      | inl here ↦
          Swept-AllSound r json p _ sp sp' (Swept-at r json (unix_milli tick) q p sp sp' here s)
            (k p)
      | inr other ↦
          subst (λ (d : r.Db). AllSound r json p (r.view d))
            (sym (s.elsewhere p (elsewhere-ne r json q p other))) (k p)
    ]

    module _ (f : Float64) (standard : ℤ) where
      abbrev source : TaskSource Space
      source = redis_source r json f standard sound no_ids

      round-Swept :
          (qs : List Text) (w : World Space)
          → ((p : Text) → AllSound r json p (r.view (w.store p)))
          → RoundSwept r json
              (unix_milli tick)
              qs
              w.store
              (recover_round store now text delay tick source qs w).store
      unfolding recover_round
      round-Swept [] w k = RoundSwept-nil r json (unix_milli tick) w.store
      round-Swept (q ∷ qs) w k =
          let one = expired-Swept q w (k q) in
          RoundSwept-trans r json (unix_milli tick) q qs _ _ _
            (Swept-Round r json (unix_milli tick) q _ _ one)
            (round-Swept qs
              (recover_expired store now text delay tick q
                (source.expired_ids tick q (pos 100) w.store) w)
              (Round-AllSound q _ _ one k))

      -- A tick of the recovery loop on a connection that works ends every task of its queues whose lease
      -- has run out at the tick, as archived or to be retried, when no more than 100 leases of the queue
      -- have; and it changes no task of the queue whose lease has not. The queues are in order, every
      -- active task has an attempt and a stored message that names its queue and id, and the time of the
      -- recovery can be encoded.
      pub recover_round-Ended :
          (qs : List Text) (w : World Space) (q id : Text) (expires : ℤ)
          → ((p : Text) → Inv (r.view (w.store p)))
          → ((p : Text) → AllSound r json p (r.view (w.store p)))
          → has q qs ≡ true
          → zscore id (r.view (w.store q)).lease ≡ some expires
          → expires ≤ℤ unix_milli tick
          → length (score_range (unix_milli tick) (r.view (w.store q)).lease) ≤ 100
          → Ended
              ((r.view ((recover_round store now text delay tick source qs w).store q)).hash
                id).state
            × ((j : Text)
                → has j (score_range (unix_milli tick) (r.view (w.store q)).lease) ≡ false
                → (r.view ((recover_round store now text delay tick source qs w).store q)).hash j
                  ≡ (r.view (w.store q)).hash j)
      recover_round-Ended qs w q id expires inv k served leased over few =
          let round = round-Swept qs w k in
          let listed =
            has-score_range (unix_milli tick) expires id (r.view (w.store q)).lease leased over in
          (
            round.ended q id served
                (rw (take-all 100 (score_range (unix_milli tick) (r.view (w.store q)).lease) few)
                  listed)
                (leased-active (r.view (w.store q)) id expires (inv q) leased),
            λ j h. round.kept q j (inr (inl h)),
          )
