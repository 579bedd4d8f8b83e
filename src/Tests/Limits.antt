-- ===== src/Tests/Limits.antt =====
-- The limiter, the delays with jitter, Run and the work of a server at concrete inputs.
use go_task_engine.Prelude.{
  zero, suc, ◌≡◌, refl, true, Option, none, some, List, [], ◌∷◌, if◌then◌else◌, arith,
}
use go_task_engine.Prelude.Int.{ℤ, pos, negsuc, ◌≤ℤ◌, ◌<ℤ◌, leb_ℤ, ltb_ℤ, ◌+ℤ◌, ◌-ℤ◌}
use go_task_engine.Prelude.Text.{codes}
use go_task_engine.Double.{whole}
use go_task_engine.Errors.{plain}
use go_task_engine.RedisStore.Store.Base.{sound, refused, cut}
use go_task_engine.Limiter.{Hash, TokenBucket, new_token_bucket}
use go_task_engine.Limiter.Bounds.{
  IsFloat, Use, ask, lapse, end_time, InBounds, use_all, use_all-InBounds,
}

mul_nonneg_whole :
    (a b : ℤ)
    → leb_ℤ (pos 0) a ≡ true
    → ltb_ℤ (pos 0) b ≡ true
    → leb_ℤ (pos 0) (whole.mul a b) ≡ true
mul_nonneg_whole (pos a) (pos b) h k = ground arith
mul_nonneg_whole (pos a) (negsuc b) h k = absurd (ground arith)
mul_nonneg_whole (negsuc a) b h k = absurd (ground arith)

div_nonneg_whole :
    (a b : ℤ)
    → leb_ℤ (pos 0) a ≡ true
    → ltb_ℤ (pos 0) b ≡ true
    → leb_ℤ (pos 0) (whole.div a b) ≡ true
div_nonneg_whole (pos a) (pos (suc b)) h k = ground arith
div_nonneg_whole (pos a) (pos zero) h k = absurd (ground arith)
div_nonneg_whole (pos a) (negsuc b) h k = absurd (ground arith)
div_nonneg_whole (negsuc a) b h k = absurd (ground arith)

whole-IsFloat : IsFloat whole
unfolding ◌+ℤ◌ ◌-ℤ◌
whole-IsFloat = record {
  le_refl = λ a e. ground arith;
  le_trans = λ a b c h k. ground arith;
  le_total = λ a b e e' h. ground arith;
  lt→le = λ a b h. ground arith;
  int_nan = λ n. refl;
  int_inf = λ n. refl;
  int_le = λ m n h. ground arith;
  int_lt = λ n. ground arith;
  add_nonneg = λ a b h k. ground arith;
  mul_nonneg = λ a b h k e. mul_nonneg_whole a b h k;
  div_nonneg = λ a b h k e. div_nonneg_whole a b h k;
  sub_nonneg = λ a b h e. ground arith;
  sub_le = λ a b h e k. ground arith;
}

abbrev kept : ℤ → Option ℤ × Option ℤ → Option ℤ × Option ℤ
kept ms k = if leb_ℤ ms (pos 0) then (none, none) else k

kept-same : (ms : ℤ) (k : Option ℤ × Option ℤ) → pos 0 <ℤ ms → kept ms k ≡ k
kept-same ms k h = ground arith

kept-none : (ms : ℤ) (k : Option ℤ × Option ℤ) → ms ≤ℤ pos 0 → kept ms k ≡ (none, none)
kept-none ms k h = ground arith

-- A hash with its two fields.
abbrev plain_hash : Hash ℤ
plain_hash = record {
  Key = Option ℤ × Option ℤ;
  hget = λ k. k;
  hset = λ tokens last k. (some tokens, some last);
  pexpire = kept;
  hset_law = λ tokens last k. refl;
  pexpire_law = kept-same;
  pexpire_none = kept-none;
}

abbrev bucket : TokenBucket ℤ
bucket = record { wired = true; key = codes "k"; capacity = pos 5; rate_per_second = pos 1 }

abbrev uses : List (Use ℤ)
uses =
    ask sound (pos 1000) (pos 3)
    ∷ ask (cut (plain "timeout")) (pos 1000) (pos 3)
    ∷ lapse
    ∷ ask sound (pos 9000) (pos 5)
    ∷ ask (refused (plain "down")) (pos 9500) (pos 1)
    ∷ []

use_all-InBounds_example :
    InBounds whole plain_hash
      (pos 5)
      (end_time (pos 0) uses)
      (use_all whole plain_hash bucket uses (none, none))
unfolding new_token_bucket
use_all-InBounds_example =
    use_all-InBounds whole plain_hash whole-IsFloat true (codes "k") (pos 5) (pos 1) bucket uses
      (pos 0) (none, none) refl refl
      (ground arith, (ground arith, (ground arith, (ground arith, tt))))
