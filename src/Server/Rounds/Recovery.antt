-- ===== src/Server/Rounds/Recovery.antt =====
-- A tick of the recovery loop on queues that clients and servers have used.
use go_task_engine.Prelude.{
  ℕ, ◌≤◌, ◌≡◌, ◌≢◌, refl, sym, subst, true, false, Option, none, some, List, [], ◌∷◌, arith,
  is_some, length,
}
use go_task_engine.Prelude.Int.{ℤ, ◌≤ℤ◌}
use go_task_engine.Prelude.Text.{Text}
use go_task_engine.Errors.{Error}
use go_task_engine.Result.{ok}
use go_task_engine.Float.{Float64}
use go_task_engine.Model.{TaskMessage, active, unix_milli}
use go_task_engine.Redis.{Redis}
use go_task_engine.Redis.Keyspace.{View, empty_view, zscore, score_range}
use go_task_engine.Redis.Ranges.{has}
use go_task_engine.RedisStore.Invariant.Records.{Inv, Inv-empty}
use go_task_engine.RedisStore.Calls.{Call, run}
use go_task_engine.RedisStore.Calls.Order.{run-Inv}
use go_task_engine.RedisStore.Calls.Origins.{AreOf, Holds, run-Holds}
use go_task_engine.RedisStore.Store.Base.{Codec, sound}
use go_task_engine.Server.Metrics.{Metrics}
use go_task_engine.Server.Process.{World}
use go_task_engine.Server.OnRedis.{redis_store, Encodes}
use go_task_engine.Server.Dispatch.Order.{redis_source}
use go_task_engine.Server.Recovery.Spares.{Ended, Sound}
use go_task_engine.Server.Rounds.{recover_round, no_ids}
use go_task_engine.Server.Rounds.Swept.{AllSound}
use go_task_engine.Server.Rounds.Expired.{recover_round-Ended}

found {ℓ} : {A : Type ℓ} (o : Option A) → is_some o ≡ true → (x : A) × (o ≡ some x)
found none h = absurd (ground arith)
found (some x) h = (x, refl)

module _ {B : Type 0} (json : Codec B) (q : Text) where
  -- A stored message that decodes to one that names this queue and this id.
  abbrev pub Names : Text → B → Type 0
  Names id b = (m : TaskMessage) × (json.unmarshal b ≡ ok m) × (m.queue ≡ q) × (m.id ≡ id)

  abbrev pub NotEmpty : Text → Type 0
  NotEmpty a = a ≢ []

  attempt_of :
      (v : View B) (id a : Text)
      → (v.hash id).attempt_id ≡ some a
      → NotEmpty a
      → (c : ℕ) × (cs : Text) × ((v.hash id).attempt_id ≡ some (c ∷ cs))
  attempt_of v id [] e ne = absurd (ne refl)
  attempt_of v id (c ∷ cs) e ne = (c, cs, e)

  Holds-Sound :
      (v : View B)
      → Inv v
      → Holds Names NotEmpty v
      → (id : Text) → (v.hash id).state ≡ some active
      → Sound json q id v
  Holds-Sound v h k id s =
      let (b, msg) = found (v.hash id).msg (ground (arith, h.located id, s)) in
      let (a, att) = found (v.hash id).attempt_id (ground (arith, h.located id, s)) in
      let (m, decoded, queue, own) = k.messages id b msg in
      let (c, cs, first) = attempt_of v id a att (k.attempts id a att) in
      record {
        message = m;
        encoded = b;
        first = c;
        rest = cs;
        queue = queue;
        id_of = own;
        has_msg = msg;
        has_attempt = first;
        decoded = decoded;
      }

  Holds-empty : Holds Names NotEmpty empty_view
  Holds-empty = record {
    messages = λ j b e. absurd (ground (arith, e));
    attempts = λ j a e. absurd (ground (arith, e));
  }

module _ {B : Type 0} (r : Redis B) (json : Codec B) (codec : Encodes r json) (f : Float64)
    (standard now : ℤ) (writes : codec.CanWrite now) (text : Error → Text) (delay : ℤ → ℤ)
    (tick : ℤ) (start : Text → r.Db) (empty : (p : Text) → r.view (start p) ≡ empty_view)
    (calls : Text → List (Call B))
    (made : (p : Text) → AreOf (Names json p) (NotEmpty json p) (calls p)) where
  -- The queues after these calls.
  abbrev pub used : Text → r.Db
  used p = run r (calls p) (start p)

  used-Inv : (p : Text) → Inv (r.view (used p))
  used-Inv p = run-Inv r (calls p) (start p) (subst Inv (sym (empty p)) Inv-empty)

  used-AllSound : (p : Text) → AllSound r json p (r.view (used p))
  used-AllSound p = Holds-Sound json p (r.view (used p)) (used-Inv p) (
      run-Holds (Names json p) (NotEmpty json p) r (calls p) (start p) (made p)
        (subst (Holds (Names json p) (NotEmpty json p)) (sym (empty p)) (Holds-empty json p)))

  -- A server with these queues; what the tick leaves of them.
  abbrev pub server : Option Metrics → List Error → World (Text → r.Db)
  server metrics reports = record { store = used; metrics = metrics; reports = reports }

  abbrev pub after : List Text → World (Text → r.Db) → Text → r.Db
  after qs w =
      (recover_round (redis_store r json sound) now text delay tick
        (redis_source r json f standard sound no_ids) qs w).store

  -- After any calls on empty queues, a tick of the recovery loop on a connection that works ends every
  -- task of its queues whose lease has run out at the tick, as archived or to be retried, when no more
  -- than 100 leases of the queue have; and it changes no task of the queue whose lease has not. The
  -- calls store messages that name their queue and the id they are stored under, and claim under
  -- attempt ids that are not empty; the time of the recovery can be encoded.
  pub recover_used-Ended :
      (metrics : Option Metrics) (reports : List Error) (qs : List Text) (q id : Text) (expires : ℤ)
      → has q qs ≡ true
      → zscore id (r.view (used q)).lease ≡ some expires
      → expires ≤ℤ unix_milli tick
      → length (score_range (unix_milli tick) (r.view (used q)).lease) ≤ 100
      → Ended ((r.view (after qs (server metrics reports) q)).hash id).state
        × ((j : Text)
            → has j (score_range (unix_milli tick) (r.view (used q)).lease) ≡ false
            → (r.view (after qs (server metrics reports) q)).hash j ≡ (r.view (used q)).hash j)
  recover_used-Ended metrics reports qs q id expires =
      recover_round-Ended r json now text delay tick codec writes f standard qs
        (server metrics reports) q id expires used-Inv used-AllSound
