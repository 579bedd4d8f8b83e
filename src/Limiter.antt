-- ===== src/Limiter.antt =====
-- internal/limiter/bucket.go: the token bucket, whose tokens are in a hash of Redis. Redis is a
-- parameter: the commands of the script on the key of the bucket, with their documented behaviour.
pub mod Bounds
pub mod Valid
use go_task_engine.Prelude.{
  ℕ, zero, suc, ◌+◌, ◌*◌, ◌/◌, ◌^◌, ◌≡◌, Bool, true, false, ◌||◌, Option, none, some, List, [], ◌∷◌,
  ◌++◌, if◌then◌else◌, String,
}
use go_task_engine.Prelude.Int.{ℤ, pos, eq_ℤ, wrap_int64, ◌≤ℤ◌, ◌<ℤ◌}
use go_task_engine.Prelude.Text.{Text, codes}
use go_task_engine.Errors.{Error, sentinel, plain, wrap, limiter_invalid_config}
use go_task_engine.Result.{Result, ok, err, ◌>>=◌}
use go_task_engine.Float.{scale}
use go_task_engine.Double.{Double, nought}
use go_task_engine.RedisStore.Store.Base.{Link, send}

-- The hash of a bucket. HGET of both fields, HSET of both, PEXPIRE, which deletes the key when the
-- time is not positive. Redis keeps 17 digits of a number, which is all of a float64.
pub record Hash (W : Type 0) : Type 1 where
  pub Key : Type 0
  pub hget : Key → Option W × Option ℤ
  pub hset : W → ℤ → Key → Key
  pub pexpire : ℤ → Key → Key
  pub hset_law :
      (tokens : W) (last : ℤ) (k : Key) → hget (hset tokens last k) ≡ (some tokens, some last)
  pub pexpire_law : (ms : ℤ) (k : Key) → pos 0 <ℤ ms → hget (pexpire ms k) ≡ hget k
  pub pexpire_none : (ms : ℤ) (k : Key) → ms ≤ℤ pos 0 → hget (pexpire ms k) ≡ (none, none)

-- TokenBucket; `wired` says whether its client is not nil.
pub record TokenBucket (W : Type 0) : Type 0 where
  pub wired : Bool
  pub key : Text
  pub capacity : W
  pub rate_per_second : W

-- Result
pub record Acquired (W : Type 0) : Type 0 where
  pub allowed : Bool
  pub retry_after : ℤ
  pub tokens : W

-- ScopeKey; a panic is an error.
unfoldable pub scope_key : Text → Result Text
scope_key [] = err (plain "token bucket scope cannot be empty")
scope_key (c ∷ cs) = ok (codes "gte:limiter:" ++ c ∷ cs)

module _ {W : Type 0} (d : Double W) where
  -- `x <= 0 || math.IsNaN(x) || math.IsInf(x, 0)`
  abbrev pub is_not_positive : W → Bool
  is_not_positive x = d.le x (nought d) || d.is_nan x || d.is_inf x

  -- `x < 0 || math.IsNaN(x) || math.IsInf(x, 0)`
  abbrev pub is_negative : W → Bool
  is_negative x = d.lt x (nought d) || d.is_nan x || d.is_inf x

  -- NewTokenBucket; a panic is an error.
  unfoldable pub new_token_bucket : Bool → Text → W → W → Result (TokenBucket W)
  new_token_bucket wired key capacity rate =
      if is_not_positive capacity
      then err (plain "token bucket capacity must be finite and positive")
      else if is_negative rate
      then err (plain "token bucket rate must be finite and non-negative")
      else ok (record { wired = wired; key = key; capacity = capacity; rate_per_second = rate })

  -- NewScopedTokenBucket
  unfoldable pub new_scoped_token_bucket : Bool → Text → W → W → Result (TokenBucket W)
  unfolding scope_key new_token_bucket
  new_scoped_token_bucket wired scope capacity rate =
      scope_key scope >>= λ key. new_token_bucket wired key capacity rate

  abbrev refuse : String → Option Error
  refuse what = some (wrap what (sentinel limiter_invalid_config))

  abbrev is_empty : Text → Bool
  is_empty [] = true
  is_empty (c ∷ cs) = false

  -- Validate; a nil bucket is `none`.
  unfoldable pub validate_token_bucket : Option (TokenBucket W) → Option Error
  validate_token_bucket none = refuse "client is nil"
  validate_token_bucket (some b) =
      if b.wired
      then (if is_empty b.key
          then refuse "key is empty"
          else if is_not_positive b.capacity
          then refuse "capacity must be finite and positive"
          else if is_negative b.rate_per_second
          then refuse "rate must be finite and non-negative"
          else none)
      else refuse "client is nil"

  -- Capacity
  unfoldable pub capacity_of : Option (TokenBucket W) → W
  capacity_of none = nought d
  capacity_of (some b) = b.capacity

  -- RatePerSecond
  unfoldable pub rate_of : Option (TokenBucket W) → W
  rate_of none = nought d
  rate_of (some b) = b.rate_per_second

  -- `math.min(capacity, x)` of Lua, which keeps its first argument unless the second is less.
  abbrev pub lua_min : W → W → W
  lua_min c x = if d.lt x c then x else c

  -- What the bucket starts with: what the hash has, or the capacity from now on.
  abbrev pub held : W → ℤ → Option W × Option ℤ → W × ℤ
  held capacity now (some tokens, some last) = (tokens, last)
  held capacity now (some tokens, none) = (capacity, now)
  held capacity now (none, last) = (capacity, now)

  unfoldable pub refilled : W → W → ℤ → W × ℤ → W
  refilled capacity rate now (tokens, last) =
      if d.lt (nought d) rate
      then lua_min capacity (
          d.add tokens
            (d.mul (d.div (d.sub (d.of_int now) (d.of_int last)) (d.of_int (pos 1000))) rate))
      else tokens

  -- Whether the tokens are given, when to ask again, and what is left.
  unfoldable pub decide : W → W → W → Bool × ℤ × W
  decide rate amount tokens =
      if d.le amount tokens
      then (true, pos 0, d.sub tokens amount)
      else if d.lt (nought d) rate
      then (false, d.ceil (d.mul (d.div (d.sub amount tokens) rate) (d.of_int (pos 1000))), tokens)
      else (false, pos 31536000000, tokens)

  module _ (h : Hash W) where
    unfoldable pub expire : W → W → h.Key → h.Key
    expire capacity rate k =
        if d.lt (nought d) rate
        then h.pexpire (d.ceil (d.mul (d.div capacity rate) (d.of_int (pos 2000)))) k
        else k

    -- The script. A number in a reply loses its fraction.
    unfoldable pub acquire_script : ℤ → W → W → W → h.Key → (ℤ × ℤ × ℤ) × h.Key
    unfolding refilled decide expire
    acquire_script now capacity rate amount k =
        let start = refilled capacity rate now (held capacity now (h.hget k)) in
        let (allowed, retry, left) = decide rate amount start in
        (
          (if allowed then pos 1 else pos 0, retry, d.truncate left),
          expire capacity rate (h.hset left now k),
        )

    unfoldable pub acquire_reply : Result (ℤ × ℤ × ℤ) → Result (Acquired W)
    acquire_reply (err e) = err (wrap "acquire token" e)
    acquire_reply (ok (allowed, retry, tokens)) = ok (record {
      allowed = eq_ℤ allowed (pos 1);
      retry_after = wrap_int64 (scale 1000000 retry);
      tokens = d.of_int tokens;
    })

    unfoldable pub acquire_from : Link → ℤ → W → TokenBucket W → h.Key → Result (Acquired W) × h.Key
    unfolding acquire_script acquire_reply send
    acquire_from link now amount b k =
        if is_not_positive amount
        then (err (plain "token amount must be finite and positive"), k)
        else (let (reply, k') =
              send link (acquire_script now b.capacity b.rate_per_second amount) k in
            (acquire_reply reply, k'))

    -- Acquire of an amount; `now` is what the script makes of TIME.
    unfoldable pub acquire :
        Link → ℤ → W → Option (TokenBucket W) → h.Key → Result (Acquired W) × h.Key
    unfolding acquire_from
    acquire link now amount none k = (err (plain "token bucket client is nil"), k)
    acquire link now amount (some b) k =
        if b.wired
        then acquire_from link now amount b k
        else (err (plain "token bucket client is nil"), k)

-- `now` of the script, from the seconds and microseconds of TIME.
unfoldable pub clock : ℕ → ℕ → ℤ
clock seconds micros = pos (seconds * 1000 + micros / 1000)
