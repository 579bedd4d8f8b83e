-- ===== src/RedisStore/Store/Base.antt =====
-- What the methods share: the codec of encoding/json, the connection, and the keys of all queues.
use go_task_engine.Prelude.{ℕ, ◌≡◌, arith, zero, suc, String, Option, none, some, if◌then◌else◌}
use go_task_engine.Prelude.Int.{ℤ, pos, negsuc, pos_part, ltb_ℤ, leb_ℤ}
use go_task_engine.Prelude.Text.{Text, text_eq}
use go_task_engine.Errors.{Sentinel, Error, sentinel, wrap}
use go_task_engine.Result.{Result, ok, err}
use go_task_engine.Model.{TaskMessage}

-- json.Marshal and json.Unmarshal on a message.
pub record Codec (B : Type 0) : Type 0 where
  pub marshal : TaskMessage → Result B
  pub unmarshal : B → Result TaskMessage

-- What becomes of one command: it runs and its reply arrives, it does not run, or it runs and the
-- reply is lost.
pub data Link : Type 0 where
  sound : Link
  refused cut : Error → Link

module _ {D X : Type 0} where
  unfoldable pub send : Link → (D → X × D) → D → Result X × D
  send sound f d = let (x, d') = f d in (ok x, d')
  send (refused e) f d = (err e, d)
  send (cut e) f d = (err e, (f d).1)

  -- A command on the keys of one queue.
  unfoldable pub on_queue : Text → (D → X × D) → (Text → D) → X × (Text → D)
  on_queue q f sp = let (x, d) = f (sp q) in (x, λ j. if text_eq q j then d else sp j)

-- How a method reads the integer reply of its script: an error is wrapped, 0 is the given error,
-- and anything else lets the method update the message.
unfoldable pub settle :
    String
    → Sentinel
    → (TaskMessage → TaskMessage)
    → TaskMessage
    → Result ℕ
    → Option Error × TaskMessage
settle what s update msg (err e) = (some (wrap what e), msg)
settle what s update msg (ok zero) = (some (sentinel s), msg)
settle what s update msg (ok (suc n)) = (none, update msg)

-- `if lease <= 0 { lease = s.leaseDuration }`
abbrev pub or_default : ℤ → ℤ → ℤ
or_default standard d = if leb_ℤ d (pos 0) then standard else d

-- `if limit <= 0 { limit = 100 }`, for a limit that is then positive
abbrev pub limit_of : ℤ → ℕ
limit_of (pos zero) = 100
limit_of (pos (suc n)) = suc n
limit_of (ℤ.negsuc n) = 100

-- A positive limit as it is, and 100 for any other.
abbrev pub most : ℤ → ℕ
most limit = if ltb_ℤ (pos 0) limit then pos_part limit else 100

pub limit-most : (limit : ℤ) → limit_of limit ≡ most limit
limit-most (pos zero) = ground arith
limit-most (pos (suc n)) = ground arith
limit-most (negsuc n) = ground arith

-- SetLeaseDuration, on the lease duration that the store holds.
unfoldable pub set_lease_duration : ℤ → ℤ → ℤ
set_lease_duration d held = if leb_ℤ d (pos 0) then held else d
