-- ===== src/Examples/Handled.antt =====
-- What the handlers of the examples make of the tasks of their producers.
use go_task_engine.Prelude.{
  ℕ, ◌≡◌, refl, ap, ◌∙◌, sym, subst, ◌*◌, ◌/◌, ◌^◌, false, Option, none, some, List, [], arith,
  if◌then◌else◌, String,
}
use go_task_engine.Prelude.Int.{ℤ, pos, negsuc, ◌≤ℤ◌, ltb_ℤ, pos_part, wrap_int64}
use go_task_engine.Prelude.Text.{Text, codes, text_eq_iff}
use go_task_engine.Errors.{Error, plain, wrap, sentinel, non_retryable}
use go_task_engine.Result.{Result, ok, err, in_context}
use go_task_engine.Model.{TaskMessage}
use go_task_engine.Examples.Support.{
  ProducerConfig, IsUsable, parse_producer_config, parse_producer-IsUsable,
}
use go_task_engine.Examples.Timers.{Waits, milliseconds, in_milliseconds}
use go_task_engine.Examples.Image
use go_task_engine.Examples.Signing
use go_task_engine.Examples.Producers.{
  image_payload, signing_payload, Surroundings, image_run, signing_run,
}
use go_task_engine.Float.{Float64}
use go_task_engine.Redis.{Redis}
use go_task_engine.RedisStore.Store.Base.{Codec, Link}
use go_task_engine.Examples.Stored.{client_store, client_store-Keeps}
use go_task_engine.Examples.Sent.{Keeps, parsed-Sent}

in_context-ok {ℓ} :
    {A : Type ℓ} (what : String) (r : Result A) (x : A) → in_context what r ≡ ok x → r ≡ ok x
in_context-ok what (ok a) x h = h
in_context-ok what (err e) x h = cc

-- A timer for this long, and a failure when one was asked for.
abbrev work : Waits → ℤ → ProducerConfig → String → Option Error
work waits d c failure = elim (waits d) [
  | some e ↦ some e
  | none ↦ if c.fail then some (plain failure) else none
]

-- The work of a handler: a timer for the whole milliseconds of the duration, in nanoseconds.
abbrev pub worked : Waits → ProducerConfig → String → Option Error
worked waits c failure = elim (waits (wrap_int64 (pos (pos_part c.duration / 10 ^ 6 * 10 ^ 6)))) [
  | some e ↦ some e
  | none ↦ if c.fail then some (plain failure) else none
]

whole-milliseconds :
    (d : ℤ)
    → pos 0 ≤ℤ d
    → milliseconds (in_milliseconds d) ≡ wrap_int64 (pos (pos_part d / 10 ^ 6 * 10 ^ 6))
unfolding milliseconds in_milliseconds
whole-milliseconds (pos n) h = refl
whole-milliseconds (negsuc n) h = absurd (omega arith)

work-worked :
    (waits : Waits) (c : ProducerConfig) (failure : String)
    → IsUsable c
    → work waits (milliseconds (in_milliseconds c.duration)) c failure ≡ worked waits c failure
work-worked waits c failure u =
    let (queue, input, delay, duration, timeout, retries) = u in
    ap (λ (d : ℤ). work waits d c failure) (whole-milliseconds c.duration duration)

in_milliseconds-nonneg : (d : ℤ) → pos 0 ≤ℤ d → ltb_ℤ (in_milliseconds d) (pos 0) ≡ false
unfolding in_milliseconds
in_milliseconds-nonneg (pos n) h = ground arith
in_milliseconds-nonneg (negsuc n) h = absurd (omega arith)

image_work :
    (waits : Waits) (c : ProducerConfig)
    → IsUsable c
    → Image.process_payload waits (image_payload c)
      ≡ work waits (milliseconds (in_milliseconds c.duration)) c "simulated image processor failure"
unfolding Image.process_payload
image_work waits c u = ground (arith, in_milliseconds-nonneg c.duration, text_eq_iff c.input [])

image-worked :
    (waits : Waits) (c : ProducerConfig)
    → IsUsable c
    → Image.process_payload waits (image_payload c)
      ≡ worked waits c "simulated image processor failure"
image-worked waits c u =
    image_work waits c u ∙ work-worked waits c "simulated image processor failure" u

image_decoded :
    (decode : List ℕ → Result Image.Payload) (waits : Waits) (m : TaskMessage) (p : Image.Payload)
    → decode m.payload ≡ ok p
    → Image.process_task decode waits m ≡ Image.process_payload waits p
unfolding Image.process_task
image_decoded decode waits m p e = rw (Image.process_task, e)

signing_decoded :
    (decode : List ℕ → Result Signing.Payload) (waits : Waits) (m : TaskMessage)
    (p : Signing.Payload)
    → decode m.payload ≡ ok p
    → Signing.process_task decode waits m ≡ Signing.process_payload waits p
unfolding Signing.process_task
signing_decoded decode waits m p e = rw (Signing.process_task, e)

-- The signing handler, which refuses what was sent as invalid.
abbrev pub signed : Waits → ProducerConfig → Option Error
signed waits c =
    if c.invalid
    then some (wrap "invalid asset for c2pa signing" (sentinel non_retryable))
    else worked waits c "simulated signing service failure"

signing_work :
    (waits : Waits) (c : ProducerConfig)
    → IsUsable c
    → Signing.process_payload waits (signing_payload c) ≡ (
        if c.invalid
        then some (wrap "invalid asset for c2pa signing" (sentinel non_retryable))
        else work waits
            (milliseconds (in_milliseconds c.duration))
            c
            "simulated signing service failure")
unfolding Signing.process_payload
signing_work waits c u = ground (arith, text_eq_iff c.input [])

signing-signed :
    (waits : Waits) (c : ProducerConfig)
    → IsUsable c
    → Signing.process_payload waits (signing_payload c) ≡ signed waits c
signing-signed waits c u =
    signing_work waits c u
    ∙ ap
        (λ (o : Option Error).
          if c.invalid
          then some (wrap "invalid asset for c2pa signing" (sentinel non_retryable))
          else o)
        (work-worked waits c "simulated signing service failure" u)

module _ {B : Type 0} (r : Redis B) (json : Codec B) (f : Float64) (link : Text → Link)
    (w : Surroundings (Text → r.Db))
    (redis : (address : Text) → w.store address ≡ client_store r json f (link address)) where
  stores-Keep : (address : Text) → Keeps (w.store address)
  stores-Keep address =
      subst Keeps (sym (redis address)) (client_store-Keeps r json f (link address))

  -- A message that the image producer enqueued is for the configuration that its arguments and the
  -- environment say, and the image handler does not refuse it: it waits for the milliseconds of the
  -- duration, then fails if the producer was told so, and succeeds otherwise; only the end of its
  -- context comes before. The store is the Redis store over any connection, and decoding undoes the
  -- encoding of the payload that the arguments say.
  pub image_run-handled :
      (encode : Image.Payload → Result (List ℕ)) (decode : List ℕ → Result Image.Payload)
      (args : List Text) (s : Text → r.Db) (m : TaskMessage)
      → ((c : ProducerConfig) (bytes : List ℕ)
          → parse_producer_config w.readers w.env (codes "image-producer") args ≡ ok c
          → encode (image_payload c) ≡ ok bytes
          → decode bytes ≡ ok (image_payload c))
      → (image_run w encode args s).0 ≡ ok m
      → (c : ProducerConfig) × (parse_producer_config w.readers w.env (codes "image-producer") args
          ≡ ok c)
        × (m.queue ≡ c.queue)
        × (m.max_retry ≡ c.max_retry)
        × (m.timeout ≡ c.timeout)
        × ((waits : Waits)
            → Image.process_task decode waits m
              ≡ worked waits c "simulated image processor failure")
  unfolding image_run
  image_run-handled encode decode args s m undo h =
      let sent = parsed-Sent w stores-Keep (codes "image:process") refl _ s m _ h in
      let c = sent.config in
      let encoded = in_context-ok _ (encode (image_payload c)) sent.bytes sent.encoded in
      let decoded = ap decode sent.is_for.payload ∙ undo c sent.bytes sent.parsed encoded in
      (
        c,
        sent.parsed,
        sent.is_for.queue,
        sent.is_for.max_retry,
        sent.is_for.timeout,
        λ waits.
            image_decoded decode waits m _ decoded
            ∙ image-worked waits c (
                parse_producer-IsUsable w.readers w.env (codes "image-producer") args c
                  sent.parsed),
      )

  -- A message that the signing producer enqueued is for the configuration that its arguments and the
  -- environment say, and the signing handler refuses it, as not to be retried, when it was sent as
  -- invalid; else it waits for the milliseconds of the duration, then fails if the producer was told
  -- so, and succeeds otherwise; only the end of its context comes before. The store is
  -- the Redis store over any connection, and decoding undoes the encoding of that payload.
  pub signing_run-handled :
      (encode : Signing.Payload → Result (List ℕ)) (decode : List ℕ → Result Signing.Payload)
      (args : List Text) (s : Text → r.Db) (m : TaskMessage)
      → ((c : ProducerConfig) (bytes : List ℕ)
          → parse_producer_config w.readers w.env (codes "c2pa-producer") args ≡ ok c
          → encode (signing_payload c) ≡ ok bytes
          → decode bytes ≡ ok (signing_payload c))
      → (signing_run w encode args s).0 ≡ ok m
      → (c : ProducerConfig) × (parse_producer_config w.readers w.env (codes "c2pa-producer") args
          ≡ ok c)
        × (m.queue ≡ c.queue)
        × (m.max_retry ≡ c.max_retry)
        × (m.timeout ≡ c.timeout)
        × ((waits : Waits) → Signing.process_task decode waits m ≡ signed waits c)
  unfolding signing_run
  signing_run-handled encode decode args s m undo h =
      let sent = parsed-Sent w stores-Keep (codes "c2pa:sign") refl _ s m _ h in
      let c = sent.config in
      let encoded = in_context-ok _ (encode (signing_payload c)) sent.bytes sent.encoded in
      let decoded = ap decode sent.is_for.payload ∙ undo c sent.bytes sent.parsed encoded in
      (
        c,
        sent.parsed,
        sent.is_for.queue,
        sent.is_for.max_retry,
        sent.is_for.timeout,
        λ waits.
            signing_decoded decode waits m _ decoded
            ∙ signing-signed waits c (
                parse_producer-IsUsable w.readers w.env (codes "c2pa-producer") args c sent.parsed),
      )
