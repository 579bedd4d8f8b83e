-- ===== src/RedisStore/Keys.antt =====
-- The names of the keys: queuePrefix, TaskKey and the other functions of internal/redisstore/rdb.go. The
-- other modules take the keys of each queue as a database of their own.
use mathlib.Core.List.{append_assoc}
use go_task_engine.Prelude.{
  drop, ◌≡◌, ◌≢◌, refl, ap, sym, ◌∙◌, Option, none, some, [], ◌∷◌, ◌++◌, All, arith, if◌then◌else◌,
  ◌==◌,
}
use go_task_engine.Prelude.Text.{Text, codes, text_eq}

-- A key of a queue.
pub data Key : Type 0 where
  task : Text → Key
  pending pending_rank sequence scheduled retry active lease archived : Key

-- queuePrefix, where 123 and 125 are the braces.
unfoldable pub queue_prefix : Text → Text
queue_prefix queue = codes "gte:" ++ 123 ∷ (queue ++ codes "}:")

-- What follows the prefix.
unfoldable pub suffix : Key → Text
suffix (task id) = codes "task:" ++ id
suffix pending = codes "pending"
suffix pending_rank = codes "pending_rank"
suffix sequence = codes "sequence"
suffix scheduled = codes "scheduled"
suffix retry = codes "retry"
suffix active = codes "active"
suffix lease = codes "lease"
suffix archived = codes "archived"

-- TaskKey, PendingKey, PendingRankKey, SequenceKey, ScheduledKey, RetryKey, ActiveKey, LeaseKey and
-- ArchivedKey.
unfoldable pub key_name : Text → Key → Text
unfolding queue_prefix suffix
key_name queue k = queue_prefix queue ++ suffix k

-- A reader of what follows the prefix.
strip : Text → Text → Option Text
strip [] s = some s
strip (c ∷ p) [] = none
strip (c ∷ p) (x ∷ s) = if c == x then strip p s else none

read_task : Option Text → Option Key
read_task none = none
read_task (some id) = some (task id)

read_suffix : Text → Option Key
unfolding strip read_task text_eq
read_suffix s =
    if text_eq s (codes "pending")
    then some pending
    else if text_eq s (codes "pending_rank")
    then some pending_rank
    else if text_eq s (codes "sequence")
    then some sequence
    else if text_eq s (codes "scheduled")
    then some scheduled
    else if text_eq s (codes "retry")
    then some retry
    else if text_eq s (codes "active")
    then some active
    else if text_eq s (codes "lease")
    then some lease
    else if text_eq s (codes "archived")
    then some archived
    else read_task (strip (codes "task:") s)

read_suffix-suffix : (k : Key) → read_suffix (suffix k) ≡ some k
unfolding read_suffix suffix
read_suffix-suffix (task id) = refl
read_suffix-suffix pending = refl
read_suffix-suffix pending_rank = refl
read_suffix-suffix sequence = refl
read_suffix-suffix scheduled = refl
read_suffix-suffix retry = refl
read_suffix-suffix active = refl
read_suffix-suffix lease = refl
read_suffix-suffix archived = refl

-- No closing brace.
abbrev pub IsPlain : Text → Type 0
IsPlain = All (λ c. c ≢ 125)

first_brace :
    (q q' s s' : Text)
    → IsPlain q
    → IsPlain q'
    → q ++ 125 ∷ s ≡ q' ++ 125 ∷ s'
    → (q ≡ q') × (s ≡ s')
first_brace [] [] s s' h h' e = ground arith
first_brace [] (c ∷ q') s s' h h' e = absurd (ground (arith, h'.0))
first_brace (c ∷ q) [] s s' h h' e = absurd (ground (arith, h.0))
first_brace (c ∷ q) (c' ∷ q') s s' h h' e = ground (arith, first_brace q q' s s' h.1 h'.1)

-- Different keys have different names, within a queue and between queues, when the names of the
-- queues have no closing brace.
pub key_name-injective :
    (q q' : Text) (k k' : Key)
    → IsPlain q
    → IsPlain q'
    → key_name q k ≡ key_name q' k'
    → (q ≡ q') × (k ≡ k')
unfolding key_name
key_name-injective q q' k k' h h' e =
    let split = first_brace q q' (58 ∷ suffix k) (58 ∷ suffix k') h h' (
      sym (append_assoc q (codes "}:") (suffix k))
      ∙ ap (drop 5) e
      ∙ append_assoc q' (codes "}:") (suffix k')) in
    let same : some k ≡ some k' =
      sym (read_suffix-suffix k)
      ∙ ap (λ (s : Text). read_suffix (drop 1 s)) split.1
      ∙ read_suffix-suffix k' in
    (split.0, ground (arith, same))

-- Names of queues with a closing brace collide: every key of the queue `q}:task:id` has the name of
-- the hash of a task of the queue `q`.
pub key_name-collides :
    (q id : Text) (k : Key)
    → key_name (q ++ codes "}:task:" ++ id) k ≡ key_name q (task (id ++ codes "}:" ++ suffix k))
unfolding key_name
key_name-collides q id k = simp append_assoc
