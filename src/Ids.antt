-- ===== src/Ids.antt =====
-- The ids that the programs draw: randomID of client/client.go for tasks and newAttemptID of
-- internal/redisstore/rdb.go for attempts. The 16 bytes of crypto/rand are a parameter.
use go_task_engine.Prelude.{
  ℕ, ◌+◌, ◌*◌, ◌/◌, ◌%◌, ◌<◌, ◌≡◌, ◌↔◌, refl, List, [], ◌∷◌, length, All, arith, ltb, if◌then◌else◌,
  ap,
}
use go_task_engine.Prelude.Text.{Text}
use go_task_engine.Result.{Result, ok, err}

-- hex.EncodeToString
abbrev hex_digit : ℕ → ℕ
hex_digit n = if ltb n 10 then 48 + n else 87 + n

unfoldable pub encode_hex : List ℕ → Text
encode_hex [] = []
encode_hex (b ∷ bs) = hex_digit (b / 16) ∷ hex_digit (b % 16) ∷ encode_hex bs

unfoldable pub random_id : Result (List ℕ) → Result Text
unfolding encode_hex
random_id (err e) = err e
random_id (ok bytes) = ok (encode_hex bytes)

unfoldable pub new_attempt_id : Result (List ℕ) → Result Text
unfolding encode_hex
new_attempt_id (err e) = err e
new_attempt_id (ok bytes) = ok (encode_hex bytes)

-- Numbers that fit into a byte.
abbrev pub AreBytes : List ℕ → Type 0
AreBytes = All (λ b. b < 256)

hex_digit-injective : (a b : ℕ) → a < 16 → b < 16 → hex_digit a ≡ hex_digit b → a ≡ b
hex_digit-injective a b h k e = ground arith

encode_hex-injective :
    (bs cs : List ℕ) → AreBytes bs → AreBytes cs → encode_hex bs ≡ encode_hex cs → bs ≡ cs
unfolding encode_hex
encode_hex-injective [] [] h k e = refl
encode_hex-injective [] (c ∷ cs) h k e = cc
encode_hex-injective (b ∷ bs) [] h k e = cc
encode_hex-injective (b ∷ bs) (c ∷ cs) h k e = ground (
  arith,
  hex_digit-injective (b / 16) (c / 16),
  hex_digit-injective (b % 16) (c % 16),
  encode_hex-injective bs cs h.1 k.1,
)

length-encode_hex : (bs : List ℕ) → length (encode_hex bs) ≡ 2 * length bs
unfolding encode_hex
length-encode_hex [] = refl
length-encode_hex (b ∷ bs) = omega (arith, length-encode_hex bs)

ok-injective : (s t : Text) → ok s ≡ ok t → s ≡ t
ok-injective s t e = cc

-- An id of 16 random bytes has 32 characters, so it is not empty, and two such ids are the same exactly
-- when the bytes were.
pub random_id-distinct :
    (bs cs : List ℕ)
    → length bs ≡ 16
    → AreBytes bs
    → AreBytes cs
    → (id : Text) × (random_id (ok bs) ≡ ok id)
      × (length id ≡ 32)
      × ((random_id (ok cs) ≡ ok id) ↔ (cs ≡ bs))
unfolding random_id
random_id-distinct bs cs n h k = (
  encode_hex bs,
  refl,
  omega (arith, length-encode_hex bs),
  (
    λ e. encode_hex-injective cs bs k h (ok-injective _ _ e),
    λ e. ap (λ (l : List ℕ). random_id (ok l)) e,
  ),
)
