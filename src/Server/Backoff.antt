-- ===== src/Server/Backoff.antt =====
-- ExponentialBackoff of server/server.go, with the wrap-around of time.Duration.
use go_task_engine.Prelude.{
  ℕ, zero, suc, ◌+◌, ◌*◌, ◌/◌, ◌^◌, ◌≤◌, ◌<◌, min, ◌≡◌, refl, sym, if◌then◌else◌, Bool-cases, inl,
  inr, leb, ◌==◌, arith, ◌-◌,
}
use go_task_engine.Prelude.Int.{
  ℤ, pos, negsuc, pos_part, ltb_ℤ, leb_ℤ, ◌+ℤ◌, wrap_int64, InInt64, int64_limit,
}

abbrev pub second : ℕ
second = 10 ^ 9

-- `max/2`, which rounds towards 0.
unfoldable pub half : ℤ → ℤ
half (pos n) = pos (n / 2)
half (negsuc n) = if n == 0 then pos 0 else negsuc (suc n / 2 - 1)

-- `result *= 2`
unfoldable pub doubled : ℤ → ℤ
doubled a = wrap_int64 (a +ℤ a)

-- The loop of ExponentialBackoff with `n` rounds to go.
unfoldable pub backoff_loop : ℕ → ℤ → ℤ → ℤ
unfolding half doubled
backoff_loop zero max result = result
backoff_loop (suc n) max result =
    let rest = backoff_loop n max (doubled result) in
    if ltb_ℤ result max then (if ltb_ℤ (half max) result then max else rest) else result

abbrev pub rounds : ℤ → ℕ
rounds (pos n) = n
rounds (negsuc n) = 0

abbrev pub or_seconds : ℕ → ℤ → ℤ
or_seconds s d = if leb_ℤ d (pos 0) then pos (s * second) else d

-- `if result > max { return max }; return result`
abbrev pub capped : ℤ → ℤ → ℤ
capped max result = if ltb_ℤ max result then max else result

unfoldable pub exponential_backoff : ℤ → ℤ → ℤ → ℤ
unfolding backoff_loop
exponential_backoff retry_count base max =
    let limit = or_seconds 3600 max in
    capped limit (backoff_loop (rounds retry_count) limit (or_seconds 2 base))

pow_suc : (r n : ℕ) → r * 2 ^ suc n ≡ (r + r) * 2 ^ n
pow_suc r n = grind arith

le_mul-pow : (r n : ℕ) → r ≤ r * 2 ^ n
le_mul-pow r zero = omega arith
le_mul-pow r (suc n) = omega (arith, le_mul-pow (r + r) n, pow_suc r n)

doubled-eq : (r m : ℕ) → m < int64_limit → r ≤ m / 2 → doubled (pos r) ≡ pos (r + r)
unfolding doubled wrap_int64 ◌+ℤ◌
doubled-eq r m h h' = ground arith

-- One round of the loop, `rest` being what the later rounds give.
one_round :
    (m r p : ℕ) (rest : ℤ)
    → r + r ≤ p
    → (r ≤ m / 2 → capped (pos m) rest ≡ pos (min m p))
    → capped (pos m) (
        if ltb_ℤ (pos r) (pos m)
        then (if ltb_ℤ (pos (m / 2)) (pos r) then pos m else rest)
        else pos r)
      ≡ pos (min m p)
one_round m r p rest h k = elim (Bool-cases (leb r (m / 2))) [
  | inl e ↦ ground arith
  | inr e ↦ ground arith
]

backoff_loop-eq :
    (n m r : ℕ)
    → m < int64_limit
    → capped (pos m) (backoff_loop n (pos m) (pos r)) ≡ pos (min m (r * 2 ^ n))
unfolding backoff_loop half
backoff_loop-eq zero m r h = ground arith
backoff_loop-eq (suc n) m r h =
    one_round m r (r * 2 ^ suc n) (backoff_loop n (pos m) (doubled (pos r)))
      (omega (arith, pow_suc r n, le_mul-pow (r + r) n))
      (λ le. rw (doubled-eq r m h le, pow_suc r n) (backoff_loop-eq n m (r + r) h))

or_seconds-Pos : (s : ℕ) (d : ℤ) → or_seconds s d ≡ pos (pos_part (or_seconds s d))
or_seconds-Pos s (pos n) = ground arith
or_seconds-Pos s (negsuc n) = ground arith

or_seconds-Small : (d : ℤ) → InInt64 d → pos_part (or_seconds 3600 d) < int64_limit
or_seconds-Small (pos n) h = ground arith
or_seconds-Small (negsuc n) h = ground arith

-- A positive duration as it is, any other as this many seconds.
abbrev pub or_else_seconds : ℕ → ℤ → ℕ
or_else_seconds s (pos (suc n)) = suc n
or_else_seconds s d = s * 10 ^ 9

or_seconds-else : (s : ℕ) (d : ℤ) → pos_part (or_seconds s d) ≡ or_else_seconds s d
or_seconds-else s (pos zero) = ground arith
or_seconds-else s (pos (suc n)) = ground arith
or_seconds-else s (negsuc n) = ground arith

rounds-pos_part : (k : ℤ) → rounds k ≡ pos_part k
rounds-pos_part (pos n) = refl
rounds-pos_part (negsuc n) = refl

backoff-eq_min :
    (k base max : ℤ)
    → InInt64 max
    → exponential_backoff k base max
      ≡ pos (min (pos_part (or_seconds 3600 max)) (pos_part (or_seconds 2 base) * 2 ^ rounds k))
unfolding exponential_backoff
backoff-eq_min k base max h =
    rw (or_seconds-Pos 3600 max, or_seconds-Pos 2 base)
      (backoff_loop-eq (rounds k) (pos_part (or_seconds 3600 max)) (pos_part (or_seconds 2 base))
        (or_seconds-Small max h))

-- ExponentialBackoff is the base doubled once for each retry and cut off at the maximum, for any
-- retry count, base and maximum of Go's types: the doubling never overflows. A negative count is
-- no retry, a base that is not positive is 2 seconds, and such a maximum is an hour.
pub exponential_backoff-eq_min :
    (k base max : ℤ)
    → InInt64 max
    → exponential_backoff k base max
      ≡ pos (min (or_else_seconds 3600 max) (or_else_seconds 2 base * 2 ^ pos_part k))
exponential_backoff-eq_min k base max h =
    rw (sym (or_seconds-else 3600 max), sym (or_seconds-else 2 base), sym (rounds-pos_part k))
      (backoff-eq_min k base max h)
