-- ===== src/Redis/Keyspace.antt =====
-- What the keys of one queue hold, and what the documentation of each Redis command says that the
-- command does to it. Hashes, sorted sets and lists start empty.
use go_task_engine.Prelude.{
  ℕ, suc, ◌-◌, Bool, true, false, ◌||◌, Option, none, some, List, [], ◌∷◌, ◌++◌, map, take, drop,
  is_some, if◌then◌else◌,
}
pub use go_task_engine.Prelude.{length}
use go_task_engine.Prelude.Int.{ℤ, pos, negsuc, ltb_ℤ, leb_ℤ, eq_ℤ}
use go_task_engine.Prelude.Text.{Text, text_eq, text_lt}
use go_task_engine.Model.{TaskState}

-- The hash of one task, with the fields that the scripts write; B is the type of encoded messages.
pub record TaskHash (B : Type 0) : Type 0 where
  pub msg : Option B
  pub state : Option TaskState
  pub priority : Option ℤ
  pub rank : Option ℤ
  pub rank_member : Option Text
  pub active_since : Option ℤ
  pub attempt_id : Option Text
  pub completed_at : Option ℤ
  pub retry_at : Option ℤ
  pub last_error : Option Text

abbrev pub empty_hash : {B : Type 0} → TaskHash B
empty_hash = record {
  msg = none;
  state = none;
  priority = none;
  rank = none;
  rank_member = none;
  active_since = none;
  attempt_id = none;
  completed_at = none;
  retry_at = none;
  last_error = none;
}

-- One field with its value, as HSET takes them.
pub data FieldValue (B : Type 0) : Type 0 where
  msg : B → FieldValue B
  state : TaskState → FieldValue B
  priority rank active_since completed_at retry_at : ℤ → FieldValue B
  rank_member attempt_id last_error : Text → FieldValue B

-- A member of a sorted set.
pub record Entry : Type 0 where
  pub score : ℤ
  pub member : Text

pub data ZName : Type 0 where
  pending_rank scheduled retry lease archived : ZName

pub data LName : Type 0 where
  pending active : LName

pub record View (B : Type 0) : Type 0 where
  pub hash : Text → TaskHash B
  pub pending : List Text
  pub active : List Text
  pub pending_rank : List Entry
  pub scheduled : List Entry
  pub retry : List Entry
  pub lease : List Entry
  pub archived : List Entry
  pub sequence : ℕ

abbrev pub empty_view : {B : Type 0} → View B
empty_view = record {
  hash = λ id. empty_hash;
  pending = [];
  active = [];
  pending_rank = [];
  scheduled = [];
  retry = [];
  lease = [];
  archived = [];
  sequence = 0;
}

module _ {B : Type 0} where
  abbrev set_field : FieldValue B → TaskHash B → TaskHash B
  set_field (FieldValue.msg b) h = record h { msg = some b }
  set_field (FieldValue.state s) h = record h { state = some s }
  set_field (FieldValue.priority n) h = record h { priority = some n }
  set_field (FieldValue.rank n) h = record h { rank = some n }
  set_field (FieldValue.active_since n) h = record h { active_since = some n }
  set_field (FieldValue.completed_at n) h = record h { completed_at = some n }
  set_field (FieldValue.retry_at n) h = record h { retry_at = some n }
  set_field (FieldValue.rank_member m) h = record h { rank_member = some m }
  set_field (FieldValue.attempt_id m) h = record h { attempt_id = some m }
  set_field (FieldValue.last_error m) h = record h { last_error = some m }

  abbrev pub set_fields : List (FieldValue B) → TaskHash B → TaskHash B
  set_fields [] h = h
  set_fields (f ∷ fs) h = set_fields fs (set_field f h)

  abbrev pub clear_attempt : TaskHash B → TaskHash B
  clear_attempt h = record h { attempt_id = none }

  -- A hash is there as long as it has a field.
  abbrev pub has_field : TaskHash B → Bool
  has_field h =
      is_some h.msg
      || is_some h.state
      || is_some h.priority
      || is_some h.rank
      || is_some h.rank_member
      || is_some h.active_since
      || is_some h.attempt_id
      || is_some h.completed_at
      || is_some h.retry_at
      || is_some h.last_error

  abbrev pub put_hash : Text → TaskHash B → View B → View B
  put_hash id h v = record v { hash = λ j. if text_eq id j then h else v.hash j }

  abbrev pub get_zset : ZName → View B → List Entry
  get_zset ZName.pending_rank v = v.pending_rank
  get_zset ZName.scheduled v = v.scheduled
  get_zset ZName.retry v = v.retry
  get_zset ZName.lease v = v.lease
  get_zset ZName.archived v = v.archived

  abbrev pub put_zset : ZName → List Entry → View B → View B
  put_zset ZName.pending_rank l v = record v { pending_rank = l }
  put_zset ZName.scheduled l v = record v { scheduled = l }
  put_zset ZName.retry l v = record v { retry = l }
  put_zset ZName.lease l v = record v { lease = l }
  put_zset ZName.archived l v = record v { archived = l }

  abbrev pub get_list : LName → View B → List Text
  get_list LName.pending v = v.pending
  get_list LName.active v = v.active

  abbrev pub put_list : LName → List Text → View B → View B
  put_list LName.pending l v = record v { pending = l }
  put_list LName.active l v = record v { active = l }

-- LPUSH and RPUSH of one value, and LREM with count 1.
abbrev pub lpush_to : Text → List Text → List Text
lpush_to m l = m ∷ l

abbrev pub rpush_to : Text → List Text → List Text
rpush_to m l = l ++ m ∷ []

unfoldable pub remove_one : Text → List Text → List Text
remove_one m [] = []
remove_one m (x ∷ l) = if text_eq x m then l else x ∷ remove_one m l

-- ZSCORE, the test behind the reply of ZREM.
unfoldable pub zscore : Text → List Entry → Option ℤ
zscore m [] = none
zscore m (x ∷ l) = if text_eq x.member m then some x.score else zscore m l

-- Sorted sets are ordered by score, then by member.
unfoldable pub entry_lt : Entry → Entry → Bool
entry_lt x y =
    if ltb_ℤ x.score y.score
    then true
    else if eq_ℤ x.score y.score
    then text_lt x.member y.member
    else false

unfoldable pub place : Entry → List Entry → List Entry
place x [] = x ∷ []
place x (y ∷ l) = if entry_lt x y then x ∷ y ∷ l else y ∷ place x l

unfoldable pub zdelete : Text → List Entry → List Entry
zdelete m [] = []
zdelete m (x ∷ l) = if text_eq x.member m then zdelete m l else x ∷ zdelete m l

-- ZADD moves a member that is there already.
unfoldable pub zinsert : ℤ → Text → List Entry → List Entry
unfolding place zdelete
zinsert s m l = place (record { score = s; member = m }) (zdelete m l)

abbrev members : List Entry → List Text
members = map (λ x. x.member)

-- The first rank of a range, and the rank after its last; a negative index counts from the end.
abbrev start_rank : ℤ → ℕ → ℕ
start_rank (pos n) size = n
start_rank (negsuc n) size = size - suc n

abbrev stop_rank : ℤ → ℕ → ℕ
stop_rank (pos n) size = suc n
stop_rank (negsuc n) size = size - n

-- ZRANGE by rank.
unfoldable pub rank_range : ℤ → ℤ → List Entry → List Text
rank_range a b l =
    take (stop_rank b (length l) - start_rank a (length l))
      (drop (start_rank a (length l)) (members l))

-- ZRANGEBYSCORE from -inf.
unfoldable pub score_range : ℤ → List Entry → List Text
score_range s [] = []
score_range s (x ∷ l) = if leb_ℤ x.score s then x.member ∷ score_range s l else score_range s l
