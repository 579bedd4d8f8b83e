-- ===== src/Server/Jitter.antt =====
-- ExponentialBackoffWithJitter of server/server.go. The random number between 0 and 1 is an argument.
use go_task_engine.Prelude.{if◌then◌else◌}
use go_task_engine.Prelude.Int.{ℤ}
use go_task_engine.Double.{Double, nought, one}
use go_task_engine.Server.Backoff.{exponential_backoff}

module _ {W : Type 0} (d : Double W) where
  -- `if upper > float64(max) { upper = float64(max) }`
  abbrev pub at_most : W → W → W
  at_most bound x = if d.lt bound x then bound else x

  -- `if result < float64(time.Nanosecond) { result = float64(time.Nanosecond) }`
  abbrev pub at_least : W → W → W
  at_least bound x = if d.lt x bound then bound else x

  unfoldable pub between : W → W → W → ℤ → ℤ
  between random lower upper delay =
      if d.le upper lower
      then delay
      else d.truncate (at_least (one d) (d.add lower (d.mul random (d.sub upper lower))))

  -- The delay with a jitter of up to 1.
  unfoldable pub jittered : W → ℤ → W → ℤ → ℤ
  unfolding between
  jittered random max jitter delay =
      between random (d.mul (d.of_int delay) (d.sub (one d) jitter))
        (at_most (d.of_int max) (d.mul (d.of_int delay) (d.add (one d) jitter))) delay

  unfoldable pub exponential_backoff_with_jitter : W → ℤ → ℤ → ℤ → W → ℤ
  unfolding jittered
  exponential_backoff_with_jitter random retry_count base max jitter =
      let delay = exponential_backoff retry_count base max in
      if d.le jitter (nought d) then delay else jittered random max (at_most (one d) jitter) delay
