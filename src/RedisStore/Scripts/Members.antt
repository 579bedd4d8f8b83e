-- ===== src/RedisStore/Scripts/Members.antt =====
-- The members of `pending_rank`: string.format("%020d", sequence) .. ":" .. id.
use go_task_engine.Prelude.{ℕ, zero, suc, ◌+◌, ◌/◌, ◌%◌, ◌^◌, ◌≡◌, refl, [], ◌∷◌, ◌++◌, drop}
use go_task_engine.Prelude.Text.{Text}

-- The last `width` decimal digits of a number; a sequence number has no more than 19.
unfoldable pub padded : ℕ → ℕ → Text
padded zero n = []
padded (suc width) n = (48 + n / 10 ^ width % 10) ∷ padded width n

unfoldable pub rank_text : ℕ → Text → Text
unfolding padded
rank_text n id = padded 20 n ++ 58 ∷ id

-- string.sub(rankMember, 22)
unfoldable pub candidate : Text → Text
candidate member = drop 21 member

-- The id is read back from its member.
pub candidate-rank_text : (n : ℕ) (id : Text) → candidate (rank_text n id) ≡ id
unfolding candidate rank_text
candidate-rank_text n id = refl
