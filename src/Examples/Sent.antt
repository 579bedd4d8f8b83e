-- ===== src/Examples/Sent.antt =====
-- What the producers of the examples enqueue.
use go_task_engine.Prelude.{
  ℕ, ◌≡◌, refl, false, Option, none, some, List, [], ◌∷◌, arith, Bool-cases, inl, inr, subst,
}
use go_task_engine.Prelude.Int.{ℤ, ltb_ℤ}
use go_task_engine.Prelude.Text.{Text, text_eq}
use go_task_engine.Errors.{Error}
use go_task_engine.Result.{Result, ok, err}
use go_task_engine.Model.{TaskMessage}
use go_task_engine.Client.{
  Store, TaskOptions, process_in, apply_all, defaults, message, persist, persisted, enqueue_with,
  enqueue_live,
}
use go_task_engine.Examples.Support.{ProducerConfig}
use go_task_engine.Examples.Producers.{
  producer_options, Surroundings, send, send_encoded, send_connected, send_parsed,
}

-- The message is for this configuration and has this payload.
pub record IsFor (c : ProducerConfig) (bytes : List ℕ) (m : TaskMessage) : Type 0 where
  pub payload : m.payload ≡ bytes
  pub queue : m.queue ≡ c.queue
  pub max_retry : m.max_retry ≡ c.max_retry
  pub timeout : m.timeout ≡ c.timeout

-- What a producer enqueued: the configuration that it read, and its encoded payload.
pub record Sent (p : Result ProducerConfig) (encode : ProducerConfig → Result (List ℕ))
    (m : TaskMessage) : Type 0 where
  pub config : ProducerConfig
  pub bytes : List ℕ
  pub parsed : p ≡ ok config
  pub encoded : encode config ≡ ok bytes
  pub is_for : IsFor config bytes m

module _ {S : Type 0} where
  -- A store leaves these fields of a message as they are.
  pub record Keeps (store : Store S) : Type 0 where
    pub enqueued :
        (c : ProducerConfig) (bytes : List ℕ) (m : TaskMessage) (s : S)
        → IsFor c bytes m
        → IsFor c bytes (store.enqueue m s).0.1
    pub scheduled :
        (c : ProducerConfig) (bytes : List ℕ) (m : TaskMessage) (s : S)
        → IsFor c bytes m
        → IsFor c bytes (store.schedule m s).0.1

  persisted-ok :
      (p : (Option Error × TaskMessage) × S) (m : TaskMessage) → (persisted p).0 ≡ ok m → p.0.1 ≡ m
  persisted-ok ((none, n), s) m h = ground arith
  persisted-ok ((some e, n), s) m h = ground arith

  persist-IsFor :
      (store : Store S) (k : Keeps store) (c : ProducerConfig) (bytes : List ℕ) (now : ℤ)
      (m n : TaskMessage) (s : S)
      → IsFor c bytes m
      → (persist store now m s).0 ≡ ok n
      → IsFor c bytes n
  unfolding persist
  persist-IsFor store k c bytes now m n s f h = elim (Bool-cases (ltb_ℤ now m.run_at)) [
    | inl later ↦ subst (IsFor c bytes) (persisted-ok _ n (rw later at h)) (
        k.scheduled c bytes _ s (record {
          payload = f.payload;
          queue = f.queue;
          max_retry = f.max_retry;
          timeout = f.timeout;
        }))
    | inr due ↦ subst (IsFor c bytes) (persisted-ok _ n (rw due at h)) (k.enqueued c bytes m s f)
  ]

options-IsFor :
    (c : ProducerConfig) (type : Text) (bytes : List ℕ) (id : Text) (now : ℤ) (o : TaskOptions)
    → apply_all (some (process_in c.enqueue_delay) ∷ producer_options c) (defaults id now) ≡ ok o
    → IsFor c bytes (message now (record { type_name = type; payload = bytes; opts = [] }) o)
unfolding apply_all message
options-IsFor c type bytes id now o h = ground arith

module _ {S : Type 0} (store : Store S) (k : Keeps store) (c : ProducerConfig) (bytes : List ℕ)
    (type : Text) (now : ℤ) (n : TaskMessage) (s : S) where
  with-IsFor :
      (id : Text) (o : Result TaskOptions)
      → apply_all (some (process_in c.enqueue_delay) ∷ producer_options c) (defaults id now) ≡ o
      → (enqueue_with store now (record { type_name = type; payload = bytes; opts = [] }) o s).0
        ≡ ok n
      → IsFor c bytes n
  unfolding enqueue_with
  with-IsFor id (err e) f h = absurd (ground arith)
  with-IsFor id (ok o) f h =
      persist-IsFor store k c bytes now _ n s (options-IsFor c type bytes id now o f) h

  live-IsFor :
      (id : Result Text)
      → (enqueue_live store now id
          (record { type_name = type; payload = bytes; opts = [] })
          (some (process_in c.enqueue_delay) ∷ producer_options c)
          s).0
        ≡ ok n
      → IsFor c bytes n
  unfolding enqueue_live
  live-IsFor (err e) h = absurd (ground arith)
  live-IsFor (ok id) h = with-IsFor id _ refl h

module _ {S : Type 0} (w : Surroundings S) (k : (address : Text) → Keeps (w.store address)) where
  send-IsFor :
      (type : Text) (c : ProducerConfig) (rdb : Text) (bytes : List ℕ) (s : S) (n : TaskMessage)
      → text_eq type [] ≡ false
      → (send w type c rdb bytes s).0 ≡ ok n
      → IsFor c bytes n
  unfolding send
  send-IsFor type c rdb bytes s n e h =
      live-IsFor (w.store rdb) (k rdb) c bytes type w.now n s w.new_id (rw e at h)

  module _ (type : Text) (e : text_eq type [] ≡ false) (encode : ProducerConfig → Result (List ℕ))
      (s : S) (m : TaskMessage) where
    encoded-Sent :
        (c : ProducerConfig) (rdb : Text) (b : Result (List ℕ))
        → encode c ≡ b
        → (send_encoded w type c rdb b s).0 ≡ ok m
        → Sent (ok c) encode m
    unfolding send_encoded
    encoded-Sent c rdb (err x) f h = absurd (ground arith)
    encoded-Sent c rdb (ok bytes) f h = record {
      config = c;
      bytes = bytes;
      parsed = refl;
      encoded = f;
      is_for = send-IsFor type c rdb bytes s m e h;
    }

    connected-Sent :
        (c : ProducerConfig) (rdb : Result Text)
        → (send_connected w type encode c rdb s).0 ≡ ok m
        → Sent (ok c) encode m
    unfolding send_connected
    connected-Sent c (err x) h = absurd (ground arith)
    connected-Sent c (ok rdb) h = encoded-Sent c rdb (encode c) refl h

    pub parsed-Sent :
        (p : Result ProducerConfig) → (send_parsed w type encode p s).0 ≡ ok m → Sent p encode m
    unfolding send_parsed
    parsed-Sent (err x) h = absurd (ground arith)
    parsed-Sent (ok c) h = connected-Sent c _ h
