-- ===== src/RedisStore/Fifo/Digits.antt =====
-- The members of `pending_rank`, in the order of Redis.
use go_task_engine.Prelude.{
  ℕ, zero, suc, ◌/◌, ◌%◌, ◌^◌, ◌≤◌, ◌<◌, ◌≡◌, sym, ap, ◌∙◌, true, ◌∷◌, ◌++◌, arith, ◌⊎◌, inl, inr,
}
use go_task_engine.Prelude.Text.{Text, text_lt, text_lt_irrefl}
use go_task_engine.RedisStore.Scripts.Members.{padded, rank_text}
use native.Mathlib.Nat.{div-div-eq-div-mul, div-lt_iff_lt-mul, div-one}

-- Of two numbers that differ, the greater has the greater digit where they first differ.
later : (a b : ℕ) → a / 10 ≡ b / 10 → a ≤ b → (a ≡ b) ⊎ (a % 10 < b % 10)
later a b h k = ground arith

pow-positive : (w : ℕ) → 0 < 10 ^ w
pow-positive zero = omega arith
pow-positive (suc w) = omega (arith, pow-positive w)

div-monotone : (p n m : ℕ) → 0 < p → n < m → n / p ≤ m / p
div-monotone p n m h k =
    let above = (div-lt_iff_lt-mul {x = m} {y = suc (m / p)} h).0 (omega arith) in
    let below = (div-lt_iff_lt-mul {x = n} {y = suc (m / p)} h).1 (omega (arith, above)) in
    omega (arith, below)

div-shift : (w n : ℕ) → n / 10 ^ w / 10 ≡ n / 10 ^ suc w
div-shift w n = div-div-eq-div-mul n (10 ^ w) 10 ∙ ap (λ (k : ℕ). n / k) (omega arith)

padded-lt :
    (w n m : ℕ) (x y : Text)
    → n / 10 ^ w ≡ m / 10 ^ w
    → n < m
    → text_lt (padded w n ++ x) (padded w m ++ y) ≡ true
unfolding padded text_lt
padded-lt zero n m x y e h = absurd (omega (arith, sym (div-one n) ∙ e ∙ div-one m))
padded-lt (suc w) n m x y e h =
    elim (later (n / 10 ^ w) (m / 10 ^ w) (div-shift w n ∙ e ∙ sym (div-shift w m))
      (div-monotone (10 ^ w) n m (pow-positive w) h)) [
        | inl same ↦ ground (arith, padded-lt w n m x y same h, ap (λ (a : ℕ). a % 10) same)
        | inr less ↦ ground arith
      ]

-- Of two members with sequence numbers of at most 20 digits the one with the smaller number comes
-- first, whatever the ids.
pub rank_text-lt :
    (n m : ℕ) (i j : Text) → n < m → m < 10 ^ 20 → text_lt (rank_text n i) (rank_text m j) ≡ true
unfolding rank_text
rank_text-lt n m i j h k = padded-lt 20 n m (58 ∷ i) (58 ∷ j) (ground arith) h

-- A sequence number of at most 20 digits is known from its member.
pub rank_text-injective :
    (n m : ℕ) (i j : Text) → n < 10 ^ 20 → m < 10 ^ 20 → rank_text n i ≡ rank_text m j → n ≡ m
rank_text-injective n m i j h k e =
    ground (arith, rank_text-lt n m i j, rank_text-lt m n j i, text_lt_irrefl (rank_text n i))
