-- ===== src/Limiter/Bounds.antt =====
-- How many tokens a bucket has.
use go_task_engine.Prelude.{
  ℕ, suc, ◌≡◌, Bool, true, false, Option, none, some, List, [], ◌∷◌, Bool-cases, inl, inr, arith,
}
use go_task_engine.Prelude.Int.{ℤ, pos, ◌≤ℤ◌, leb_ℤ}
use go_task_engine.Prelude.Text.{Text}
use go_task_engine.Result.{ok}
use go_task_engine.Double.{Double, nought}
use go_task_engine.RedisStore.Store.Base.{Link, sound, refused, cut, send}
use go_task_engine.Limiter.{
  Hash, TokenBucket, is_not_positive, is_negative, new_token_bucket, lua_min, held, refilled,
  decide, expire, acquire_script, acquire_from, acquire,
}

-- What the limiter relies on of IEEE 754: the order of numbers that are not NaN, and the signs and
-- the order of results, which rounding keeps.
pub record IsFloat {W : Type 0} (d : Double W) : Type 0 where
  pub le_refl : (a : W) → d.is_nan a ≡ false → d.le a a ≡ true
  pub le_trans : (a b c : W) → d.le a b ≡ true → d.le b c ≡ true → d.le a c ≡ true
  pub le_total :
      (a b : W) → d.is_nan a ≡ false → d.is_nan b ≡ false → d.le a b ≡ false → d.le b a ≡ true
  pub lt→le : (a b : W) → d.lt a b ≡ true → d.le a b ≡ true
  pub int_nan : (n : ℤ) → d.is_nan (d.of_int n) ≡ false
  pub int_inf : (n : ℤ) → d.is_inf (d.of_int n) ≡ false
  pub int_le : (m n : ℤ) → m ≤ℤ n → d.le (d.of_int m) (d.of_int n) ≡ true
  pub int_lt : (n : ℕ) → d.lt (nought d) (d.of_int (pos (suc n))) ≡ true
  pub add_nonneg :
      (a b : W)
      → d.le (nought d) a ≡ true
      → d.le (nought d) b ≡ true
      → d.le (nought d) (d.add a b) ≡ true
  pub mul_nonneg :
      (a b : W)
      → d.le (nought d) a ≡ true
      → d.lt (nought d) b ≡ true
      → d.is_inf b ≡ false
      → d.le (nought d) (d.mul a b) ≡ true
  pub div_nonneg :
      (a b : W)
      → d.le (nought d) a ≡ true
      → d.lt (nought d) b ≡ true
      → d.is_inf b ≡ false
      → d.le (nought d) (d.div a b) ≡ true
  pub sub_nonneg :
      (a b : W) → d.le b a ≡ true → d.is_inf b ≡ false → d.le (nought d) (d.sub a b) ≡ true
  pub sub_le :
      (a b : W)
      → d.le (nought d) b ≡ true
      → d.is_inf b ≡ false
      → d.le b a ≡ true
      → d.le (d.sub a b) a ≡ true

-- What happens to a bucket: somebody asks for an amount at a time, or its key runs out.
pub data Use (W : Type 0) : Type 0 where
  ask : Link → ℤ → W → Use W
  lapse : Use W

-- The clock of Redis does not go back.
abbrev pub Rising : {W : Type 0} → ℤ → List (Use W) → Type 0
Rising t [] = Unit
Rising t (ask link now amount ∷ us) = (t ≤ℤ now) × Rising now us
Rising t (lapse ∷ us) = Rising t us

abbrev pub end_time : {W : Type 0} → ℤ → List (Use W) → ℤ
end_time t [] = t
end_time t (ask link now amount ∷ us) = end_time now us
end_time t (lapse ∷ us) = end_time t us

module _ {W : Type 0} (d : Double W) (h : Hash W) where
  -- A key that has run out is as one that was deleted.
  unfoldable pub use_one : TokenBucket W → Use W → h.Key → h.Key
  use_one b (ask link now amount) k = (acquire d h link now amount (some b) k).1
  use_one b lapse k = h.pexpire (pos 0) k

  unfoldable pub use_all : TokenBucket W → List (Use W) → h.Key → h.Key
  unfolding use_one
  use_all b [] k = k
  use_all b (u ∷ us) k = use_all b us (use_one b u k)

  abbrev pub Within : W → W → Type 0
  Within c x = (d.le (nought d) x ≡ true) × (d.le x c ≡ true)

  -- The tokens that the hash has are not negative and at most the capacity, at a time that is not
  -- after `t`.
  abbrev pub InBounds : W → ℤ → Option W × Option ℤ → Type 0
  InBounds c t (some x, some last) = Within c x × (last ≤ℤ t)
  InBounds c t (some x, none) = Unit
  InBounds c t (none, last) = Unit

  module _ (f : IsFloat d) where
    -- A capacity that is in order, and a rate.
    abbrev Sound : W → W → Type 0
    Sound c r = (d.le (nought d) c ≡ true) × (d.le c c ≡ true) × (d.is_inf r ≡ false)

    positive-le : (x : W) → is_not_positive d x ≡ false → d.le (nought d) x ≡ true
    positive-le x e = f.le_total x (nought d) (ground arith) (f.int_nan (pos 0)) (ground arith)

    new-Sound :
        (wired : Bool) (key : Text) (c r : W) (b : TokenBucket W)
        → new_token_bucket d wired key c r ≡ ok b
        → Sound b.capacity b.rate_per_second
    unfolding new_token_bucket
    new-Sound wired key c r b e = elim (Bool-cases (is_not_positive d c)) [
      | inl p ↦ absurd (ground (arith, p, e))
      | inr p ↦ elim (Bool-cases (is_negative d r)) [
        | inl q ↦ absurd (ground (arith, p, q, e))
        | inr q ↦
            let same_c : b.capacity ≡ c = ground (arith, p, q, e) in
            let same_r : b.rate_per_second ≡ r = ground (arith, p, q, e) in
            rw (same_c, same_r) (positive-le c p, f.le_refl c (ground arith), ground arith)
      ]
    ]

    held-Within :
        (c r : W) (t now : ℤ) (o : Option W × Option ℤ)
        → Sound c r
        → t ≤ℤ now
        → InBounds c t o
        → Within c (held d c now o).0 × ((held d c now o).1 ≤ℤ now)
    held-Within c r t now (some x, some last) s le i = (i.0, omega (arith, i.1, le))
    held-Within c r t now (some x, none) s le i = ((s.0, s.1), omega arith)
    held-Within c r t now (none, last) s le i = ((s.0, s.1), omega arith)

    lua_min-Within : (c r x : W) → Sound c r → d.le (nought d) x ≡ true → Within c (lua_min d c x)
    lua_min-Within c r x s p = elim (Bool-cases (d.lt x c)) [
      | inl e ↦ rw e (p, f.lt→le x c e)
      | inr e ↦ rw e (s.0, s.1)
    ]

    refilled-Within :
        (c r : W) (now : ℤ) (p : W × ℤ)
        → Sound c r
        → Within c p.0
        → p.1 ≤ℤ now
        → Within c (refilled d c r now p)
    unfolding refilled
    refilled-Within c r now (x, last) s w le = elim (Bool-cases (d.lt (nought d) r)) [
      | inl e ↦ rw e (
          lua_min-Within c r _ s (
            f.add_nonneg _ _ w.0 (
              f.mul_nonneg _ _
                (f.div_nonneg _ _ (f.sub_nonneg _ _ (f.int_le last now le) (f.int_inf last))
                  (f.int_lt 999) (f.int_inf (pos 1000)))
                e s.2)))
      | inr e ↦ rw e w
    ]

    decide-Within :
        (c r amount x : W)
        → is_not_positive d amount ≡ false
        → Within c x
        → Within c (decide d r amount x).2
    unfolding decide
    decide-Within c r amount x p w = elim (Bool-cases (d.le amount x)) [
      | inl e ↦
          let finite : d.is_inf amount ≡ false = ground arith in
          rw e (
            f.sub_nonneg x amount e finite,
            f.le_trans _ x c (f.sub_le x amount (positive-le amount p) finite e) w.1,
          )
      | inr e ↦ ground arith
    ]

    pexpire-InBounds :
        (c : W) (t ms : ℤ) (k : h.Key)
        → InBounds c t (h.hget k)
        → InBounds c t (h.hget (h.pexpire ms k))
    pexpire-InBounds c t ms k i = elim (Bool-cases (leb_ℤ ms (pos 0))) [
      | inl e ↦ rw (h.pexpire_none ms k (ground arith)) tt
      | inr e ↦ rw (h.pexpire_law ms k (ground arith)) i
    ]

    expire-InBounds :
        (c r : W) (t : ℤ) (k : h.Key)
        → InBounds c t (h.hget k)
        → InBounds c t (h.hget (expire d h c r k))
    unfolding expire
    expire-InBounds c r t k i = elim (Bool-cases (d.lt (nought d) r)) [
      | inl e ↦ rw e (pexpire-InBounds c t _ k i)
      | inr e ↦ rw e i
    ]

    script-InBounds :
        (c r amount : W) (t now : ℤ) (k : h.Key)
        → Sound c r
        → is_not_positive d amount ≡ false
        → t ≤ℤ now
        → InBounds c t (h.hget k)
        → InBounds c now (h.hget (acquire_script d h now c r amount k).1)
    unfolding acquire_script
    script-InBounds c r amount t now k s p le i =
        let start = held-Within c r t now (h.hget k) s le i in
        let full = refilled-Within c r now (held d c now (h.hget k)) s start.0 start.1 in
        expire-InBounds c r now _
          (rw (h.hset_law _ now k) (decide-Within c r amount _ p full, omega arith))

    InBounds-later :
        (c : W) (t now : ℤ) (o : Option W × Option ℤ) → t ≤ℤ now → InBounds c t o → InBounds c now o
    InBounds-later c t now (some x, some last) le i = (i.0, omega (arith, i.1, le))
    InBounds-later c t now (some x, none) le i = tt
    InBounds-later c t now (none, last) le i = tt

    send-InBounds :
        (link : Link) (b : TokenBucket W) (amount : W) (t now : ℤ) (k : h.Key)
        → Sound b.capacity b.rate_per_second
        → is_not_positive d amount ≡ false
        → t ≤ℤ now
        → InBounds b.capacity t (h.hget k)
        → InBounds b.capacity now
            (h.hget (send link (acquire_script d h now b.capacity b.rate_per_second amount) k).1)
    unfolding send
    send-InBounds sound b amount t now k s p le i =
        script-InBounds b.capacity b.rate_per_second amount t now k s p le i
    send-InBounds (refused e) b amount t now k s p le i =
        InBounds-later b.capacity t now (h.hget k) le i
    send-InBounds (cut e) b amount t now k s p le i =
        script-InBounds b.capacity b.rate_per_second amount t now k s p le i

    acquire-InBounds :
        (link : Link) (b : TokenBucket W) (amount : W) (t now : ℤ) (k : h.Key)
        → Sound b.capacity b.rate_per_second
        → t ≤ℤ now
        → InBounds b.capacity t (h.hget k)
        → InBounds b.capacity now (h.hget (acquire d h link now amount (some b) k).1)
    unfolding acquire acquire_from
    acquire-InBounds link b amount t now k s le i = elim (Bool-cases b.wired) [
      | inl w ↦ elim (Bool-cases (is_not_positive d amount)) [
        | inl p ↦ simp (w, p) (InBounds-later b.capacity t now (h.hget k) le i)
        | inr p ↦ simp (w, p) (send-InBounds link b amount t now k s p le i)
      ]
      | inr w ↦ simp w (InBounds-later b.capacity t now (h.hget k) le i)
    ]

    all-InBounds :
        (us : List (Use W)) (b : TokenBucket W) (t : ℤ) (k : h.Key)
        → Sound b.capacity b.rate_per_second
        → Rising t us
        → InBounds b.capacity t (h.hget k)
        → InBounds b.capacity (end_time t us) (h.hget (use_all b us k))
    unfolding use_all use_one
    all-InBounds [] b t k s g i = i
    all-InBounds (ask link now amount ∷ us) b t k s g i =
        all-InBounds us b now _ s g.1 (acquire-InBounds link b amount t now k s g.0 i)
    all-InBounds (lapse ∷ us) b t k s g i =
        all-InBounds us b t _ s g (pexpire-InBounds b.capacity t (pos 0) k i)

    -- A bucket that NewTokenBucket made never has fewer than 0 tokens or more than its capacity,
    -- whatever is asked of it, with calls that fail or whose replies are lost and with keys that run
    -- out, as long as the clock of Redis does not go back. The key has no tokens at first.
    pub use_all-InBounds :
        (wired : Bool) (key : Text) (c r : W) (b : TokenBucket W) (us : List (Use W)) (t : ℤ)
        (k : h.Key)
        → new_token_bucket d wired key c r ≡ ok b
        → h.hget k ≡ (none, none)
        → Rising t us
        → InBounds b.capacity (end_time t us) (h.hget (use_all b us k))
    use_all-InBounds wired key c r b us t k e empty g =
        all-InBounds us b t k (new-Sound wired key c r b e) g (rw empty tt)
