-- ===== src/RedisStore/Fifo/Numbered.antt =====
-- The sequence numbers of the tasks.
use go_task_engine.Prelude.{
  ℕ, suc, ◌^◌, ◌≤◌, ◌<◌, ◌≡◌, refl, sym, subst, Option, none, some, arith, ◌⊎◌, inl, inr,
  Bool-cases,
}
use go_task_engine.Prelude.Text.{Text, text_eq, text_eq_iff}
use go_task_engine.Redis.Keyspace.{View, empty_view}
use go_task_engine.RedisStore.Scripts.Members.{rank_text}
use go_task_engine.RedisStore.Fifo.Digits.{rank_text-injective}
use go_task_engine.RedisStore.Fifo.Members.{Wanes, Numbers}

-- A member, when there is one, is that of a task with a number up to this one.
abbrev pub Known : ℕ → Text → Option Text → Type 0
Known s j none = Unit
Known s j (some m) = (n : ℕ) × (n ≤ s) × (m ≡ rank_text n j)

Known-le : (s t : ℕ) (j : Text) (o : Option Text) → s ≤ t → Known s j o → Known t j o
Known-le s t j none h k = tt
Known-le s t j (some m) h (n, le, e) = (n, omega arith, e)

rank_text-Known : (s : ℕ) (j : Text) (n : ℕ) → n ≤ s → Known s j (some (rank_text n j))
rank_text-Known s j n h = (n, h, refl)

pub Known-number :
    (s : ℕ) (j m : Text) (o : Option Text)
    → o ≡ some m
    → Known s j o
    → (n : ℕ) × (n ≤ s) × (m ≡ rank_text n j)
Known-number s j m none e k = absurd (ground arith)
Known-number s j m (some t) e (n, le, f) = (n, le, ground arith)

drawn_with :
    (s : ℕ) (j : Text) (o p : Option Text) → (p ≡ none) ⊎ (p ≡ o) → Known s j o → Known s j p
drawn_with s j o none (inl e) k = tt
drawn_with s j o (some m) (inl e) k = absurd (ground arith)
drawn_with s j o p (inr e) k = subst (Known s j) (sym e) k

module _ {B : Type 0} where
  -- Every task has a number that was drawn, and no two tasks have the same.
  pub record Numbered (v : View B) : Type 0 where
    pub drawn : (j : Text) → Known v.sequence j (v.hash j).rank_member
    pub apart :
        (i j : Text) (n : ℕ)
        → n ≤ v.sequence
        → (v.hash i).rank_member ≡ some (rank_text n i)
        → (v.hash j).rank_member ≡ some (rank_text n j)
        → i ≡ j

  pub Numbered-empty : Numbered empty_view
  Numbered-empty = record { drawn = λ j. tt; apart = λ i j n h e f. ground arith }

  pub Wanes-Numbered : (v w : View B) → Wanes v w → Numbered v → Numbered w
  Wanes-Numbered v w h k = record {
    drawn = λ j. rw h.sequence (
        drawn_with v.sequence j (v.hash j).rank_member (w.hash j).rank_member
          (ground (arith, h.member j)) (k.drawn j));
    apart = λ i j n le e f. ground (arith, h.member i, h.member j, k.apart i j n, h.sequence);
  }

  fresh_apart :
      (v : View B) (id j : Text) (n : ℕ)
      → Numbered v
      → suc v.sequence < 10 ^ 20
      → n ≤ suc v.sequence
      → some (rank_text (suc v.sequence) id) ≡ some (rank_text n id)
      → (v.hash j).rank_member ≡ some (rank_text n j)
      → ⊥
  fresh_apart v id j n k lim le e f =
      let (m, lt, g) =
        Known-number v.sequence j (rank_text n j) (v.hash j).rank_member f (k.drawn j) in
      ground (arith, rank_text-injective (suc v.sequence) n id id, rank_text-injective n m j j)

  pub Numbers-Numbered :
      (v w : View B) → Numbers v w → w.sequence < 10 ^ 20 → Numbered v → Numbered w
  Numbers-Numbered v w h lim k = record {
    drawn = λ j. elim (Bool-cases (text_eq h.id j)) [
      | inl e ↦
          subst (Known w.sequence j) {x = some (rank_text (suc v.sequence) j)}
            (ground (arith, h.member j, text_eq_iff h.id j))
            (rank_text-Known w.sequence j (suc v.sequence) (omega (arith, h.sequence)))
      | inr e ↦
          subst (Known w.sequence j) {x = (v.hash j).rank_member} (ground (arith, h.member j)) (
            Known-le v.sequence w.sequence j (v.hash j).rank_member (omega (arith, h.sequence))
              (k.drawn j))
    ];
    apart = λ i j n le e f. ground (
      arith,
      h.member i,
      h.member j,
      k.apart i j n,
      h.sequence,
      text_eq_iff h.id i,
      text_eq_iff h.id j,
      fresh_apart v i j n k,
      fresh_apart v j i n k,
    );
  }
