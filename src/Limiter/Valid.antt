-- ===== src/Limiter/Valid.antt =====
-- Which buckets NewScopedTokenBucket makes, and what Validate says of them.
use go_task_engine.Prelude.{◌≡◌, ◌≢◌, ◌↔◌, refl, true, false, none, some, [], ◌∷◌, ◌++◌, arith}
use go_task_engine.Prelude.Text.{Text, codes}
use go_task_engine.Result.{ok}
use go_task_engine.Double.{Double}
use go_task_engine.Limiter.{
  TokenBucket, scope_key, is_not_positive, is_negative, new_token_bucket, new_scoped_token_bucket,
  validate_token_bucket,
}

module _ {W : Type 0} (d : Double W) where
  -- The bucket of a scope was made, and Validate accepts it.
  abbrev pub IsMade : Text → W → W → Type 0
  IsMade scope c r =
      (b : TokenBucket W) × (new_scoped_token_bucket d true scope c r ≡ ok b)
      × (validate_token_bucket d (some b) ≡ none)

  made-parts :
      (key : Text) (c r : W) (b : TokenBucket W)
      → new_token_bucket d true key c r ≡ ok b
      → (is_not_positive d c ≡ false) × (is_negative d r ≡ false)
  unfolding new_token_bucket
  made-parts key c r b e = ground (arith, e)

  IsMade-parts :
      (scope : Text) (c r : W)
      → IsMade scope c r
      → (scope ≢ []) × (is_not_positive d c ≡ false) × (is_negative d r ≡ false)
  unfolding new_scoped_token_bucket scope_key
  IsMade-parts [] c r (b, e, v) = absurd (ground (arith, e))
  IsMade-parts (x ∷ xs) c r (b, e, v) =
      let parts = made-parts _ c r b e in (λ q. ground (arith, q), parts.0, parts.1)

  parts-IsMade :
      (scope : Text) (c r : W)
      → scope ≢ []
      → is_not_positive d c ≡ false
      → is_negative d r ≡ false
      → IsMade scope c r
  unfolding new_scoped_token_bucket scope_key new_token_bucket validate_token_bucket
  parts-IsMade [] c r n p q = absurd (n refl)
  parts-IsMade (x ∷ xs) c r n p q = (
    record {
      wired = true;
      key = codes "gte:limiter:" ++ x ∷ xs;
      capacity = c;
      rate_per_second = r;
    },
    simp (p, q) refl,
    simp (p, q) refl,
  )

  -- With a client, NewScopedTokenBucket makes a bucket that Validate accepts exactly for a scope that is
  -- not empty, a finite positive capacity and a finite rate that is not negative; otherwise it panics.
  pub new_scoped-IsMade_iff :
      (scope : Text) (c r : W)
      → IsMade scope c r
        ↔ ((scope ≢ []) × (is_not_positive d c ≡ false) × (is_negative d r ≡ false))
  new_scoped-IsMade_iff scope c r =
      (IsMade-parts scope c r, λ h. parts-IsMade scope c r h.0 h.1 h.2)
