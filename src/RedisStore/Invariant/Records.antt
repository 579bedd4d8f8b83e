-- ===== src/RedisStore/Invariant/Records.antt =====
-- The records of the tasks of a queue.
use go_task_engine.Prelude.{
  ℕ, ◌≡◌, refl, Bool, true, false, Option, none, some, List, arith, is_some, if◌then◌else◌,
}
use go_task_engine.Prelude.Int.{ℤ}
use go_task_engine.Prelude.Text.{Text, text_eq_iff}
use go_task_engine.Model.{scheduled, retry, active, archived, pending}
use go_task_engine.Redis.Keyspace.{View, Entry, empty_view, zscore, zinsert, zdelete}
use go_task_engine.Redis.SortedSets.{zscore-zdelete, zscore-zinsert}
use go_task_engine.Redis.Lists.{count}
use go_task_engine.RedisStore.Scripts.Replies.{is_state, is_text}
use go_task_engine.RedisStore.Scripts.Members.{candidate}

abbrev pub one_if : Bool → ℕ
one_if true = 1
one_if false = 0

-- Whether a task with this member is in `pending_rank`.
abbrev pub listed : Option Text → List Entry → Bool
listed none l = false
listed (some m) l = is_some (zscore m l)

-- The id that claimScript reads from the member of a task.
abbrev pub id_of : Option Text → Text → Text
id_of none id = id
id_of (some m) id = candidate m

pub listed-zinsert :
    (o : Option Text) (s : ℤ) (m : Text) (l : List Entry)
    → listed o (zinsert s m l) ≡ (if is_text m o then true else listed o l)
listed-zinsert none s m l = refl
listed-zinsert (some t) s m l =
    ground (arith, zscore-zinsert t s m l, text_eq_iff m t, text_eq_iff t m)

pub listed-zdelete :
    (o : Option Text) (m : Text) (l : List Entry)
    → listed o (zdelete m l) ≡ (if is_text m o then false else listed o l)
listed-zdelete none m l = refl
listed-zdelete (some t) m l = ground (arith, zscore-zdelete t m l, text_eq_iff m t, text_eq_iff t m)

module _ {B : Type 0} where
  -- The records of one task: it is in the sorted set of its state and in no other, once in the list
  -- of its state, an attempt is noted exactly while it is active, and its hash is complete.
  pub record Located (v : View B) (id : Text) : Type 0 where
    pub in_scheduled : is_some (zscore id v.scheduled) ≡ is_state scheduled (v.hash id).state
    pub in_retry : is_some (zscore id v.retry) ≡ is_state retry (v.hash id).state
    pub in_lease : is_some (zscore id v.lease) ≡ is_state active (v.hash id).state
    pub in_archived : is_some (zscore id v.archived) ≡ is_state archived (v.hash id).state
    pub in_pending :
        listed (v.hash id).rank_member v.pending_rank ≡ is_state pending (v.hash id).state
    pub pending_list : count id v.pending ≡ one_if (is_state pending (v.hash id).state)
    pub active_list : count id v.active ≡ one_if (is_state active (v.hash id).state)
    pub attempted : is_some (v.hash id).attempt_id ≡ is_state active (v.hash id).state
    pub has_msg : is_some (v.hash id).msg ≡ is_some (v.hash id).state
    pub has_rank : is_some (v.hash id).rank ≡ is_some (v.hash id).state
    pub has_member : is_some (v.hash id).rank_member ≡ is_some (v.hash id).state
    pub own_member : id_of (v.hash id).rank_member id ≡ id

  -- Every task is recorded so, and `pending_rank` holds members of tasks only.
  pub record Inv (v : View B) : Type 0 where
    pub located : (id : Text) → Located v id
    pub known :
        (m : Text)
        → is_some (zscore m v.pending_rank) ≡ true
        → (v.hash (candidate m)).rank_member ≡ some m

  pub Inv-empty : Inv empty_view
  unfolding zscore count
  Inv-empty = record { located = λ id. ground arith; known = λ m e. ground arith }
