-- ===== src/Server/Pool/Balance.antt =====
-- Where the claimed tasks are: with the dispatcher, with the workers, processed or given back.
use go_task_engine.Prelude.{
  ℕ, zero, suc, ◌+◌, ◌≡◌, refl, subst, Option, none, some, List, [], ◌∷◌, get_elem?, total,
  total-set, Option-cases, inl, inr, arith,
}
use go_task_engine.Model.{TaskMessage}
use go_task_engine.Server.Pool.{
  Dispatcher, top, looking, done, holding, Worker, idle, gone, busy, Pool, Move, close, check,
  claim, again, leave, hand, requeue, finish, exit, check_in, claim_in, again_in, leave_in, hand_in,
  requeue_in, finish_in, exit_in, move, moves, idle_workers, started,
}

-- What holds of the state that a move leads to, if it can be made.
abbrev pub After : (Pool → Type 0) → Option Pool → Type 0
After P none = Unit
After P (some p) = P p

abbrev pub held : (TaskMessage → ℕ) → Dispatcher → ℕ
held t (holding m) = t m
held t top = 0
held t looking = 0
held t done = 0

abbrev pub at_work : (TaskMessage → ℕ) → Worker → ℕ
at_work t (busy m) = t m
at_work t idle = 0
at_work t gone = 0

abbrev pub is_gone : Worker → ℕ
is_gone gone = 1
is_gone idle = 0
is_gone (busy m) = 0

abbrev IsDone : Dispatcher → Type 0
IsDone done = Unit
IsDone _ = ⊥

-- Every measure of tasks adds up: what was claimed was processed or given back, or is in the hands of
-- the dispatcher or of a worker.
abbrev pub Balanced : (TaskMessage → ℕ) → Pool → Type 0
Balanced t p =
    total t p.claimed
    ≡ total t p.finished + total t p.requeued + held t p.dispatcher + total (at_work t) p.workers

module _ (t : TaskMessage → ℕ) (p : Pool) where
  check-Balanced :
      (d : Dispatcher) → p.dispatcher ≡ d → Balanced t p → After (Balanced t) (check_in d p)
  unfolding check_in
  check-Balanced top e h = ground arith
  check-Balanced looking e h = tt
  check-Balanced done e h = tt
  check-Balanced (holding m) e h = tt

  claim-Balanced :
      (d : Dispatcher) (m : TaskMessage)
      → p.dispatcher ≡ d
      → Balanced t p
      → After (Balanced t) (claim_in d m p)
  unfolding claim_in total
  claim-Balanced top m e h = tt
  claim-Balanced looking m e h = ground arith
  claim-Balanced done m e h = tt
  claim-Balanced (holding n) m e h = tt

  hand-Balanced :
      (d : Dispatcher) (o : Option Worker) (i : ℕ)
      → p.dispatcher ≡ d
      → get_elem? p.workers i ≡ o
      → Balanced t p
      → After (Balanced t) (hand_in d o i p)
  unfolding hand_in
  hand-Balanced (holding m) (some idle) i e e' h =
      let k = total-set (at_work t) p.workers i idle (busy m) e' in ground (arith, k)
  hand-Balanced (holding m) (some gone) i e e' h = tt
  hand-Balanced (holding m) (some (busy n)) i e e' h = tt
  hand-Balanced (holding m) none i e e' h = tt
  hand-Balanced top o i e e' h = tt
  hand-Balanced looking o i e e' h = tt
  hand-Balanced done o i e e' h = tt

  requeue-Balanced :
      (d : Dispatcher) → p.dispatcher ≡ d → Balanced t p → After (Balanced t) (requeue_in d p)
  unfolding requeue_in total
  requeue-Balanced (holding m) e h = ground arith
  requeue-Balanced top e h = tt
  requeue-Balanced looking e h = tt
  requeue-Balanced done e h = tt

  again-Balanced :
      (d : Dispatcher) → p.dispatcher ≡ d → Balanced t p → After (Balanced t) (again_in d p)
  unfolding again_in
  again-Balanced looking e h = ground arith
  again-Balanced top e h = tt
  again-Balanced (holding m) e h = tt
  again-Balanced done e h = tt

  leave-Balanced :
      (d : Dispatcher) → p.dispatcher ≡ d → Balanced t p → After (Balanced t) (leave_in d p)
  unfolding leave_in
  leave-Balanced looking e h = ground arith
  leave-Balanced top e h = tt
  leave-Balanced (holding m) e h = tt
  leave-Balanced done e h = tt

  finish-Balanced :
      (o : Option Worker) (i : ℕ)
      → get_elem? p.workers i ≡ o
      → Balanced t p
      → After (Balanced t) (finish_in o i p)
  unfolding finish_in total
  finish-Balanced (some (busy m)) i e h =
      let k = total-set (at_work t) p.workers i (busy m) idle e in ground (arith, k)
  finish-Balanced (some idle) i e h = tt
  finish-Balanced (some gone) i e h = tt
  finish-Balanced none i e h = tt

  exit-Balanced :
      (d : Dispatcher) (o : Option Worker) (i : ℕ)
      → p.dispatcher ≡ d
      → get_elem? p.workers i ≡ o
      → Balanced t p
      → After (Balanced t) (exit_in d o i p)
  unfolding exit_in
  exit-Balanced done (some idle) i e e' h =
      let k = total-set (at_work t) p.workers i idle gone e' in ground (arith, k)
  exit-Balanced done (some gone) i e e' h = tt
  exit-Balanced done (some (busy m)) i e e' h = tt
  exit-Balanced done none i e e' h = tt
  exit-Balanced top o i e e' h = tt
  exit-Balanced looking o i e e' h = tt
  exit-Balanced (holding m) o i e e' h = tt

  move-Balanced : (mv : Move) → Balanced t p → After (Balanced t) (move mv p)
  unfolding move
  move-Balanced close h = h
  move-Balanced check h = check-Balanced p.dispatcher refl h
  move-Balanced (claim m) h = claim-Balanced p.dispatcher m refl h
  move-Balanced again h = again-Balanced p.dispatcher refl h
  move-Balanced leave h = leave-Balanced p.dispatcher refl h
  move-Balanced (hand i) h = hand-Balanced p.dispatcher (get_elem? p.workers i) i refl refl h
  move-Balanced requeue h = requeue-Balanced p.dispatcher refl h
  move-Balanced (finish i) h = finish-Balanced (get_elem? p.workers i) i refl h
  move-Balanced (exit i) h = exit-Balanced p.dispatcher (get_elem? p.workers i) i refl refl h

After-some :
    (P : Pool → Type 0) (o : Option Pool) (p : Pool) → o ≡ some p → After P o → After P (some p)
After-some P o p e h = subst (After P) e h

-- What every move keeps, a run of moves keeps.
pub moves-keep :
    (P : Pool → Type 0)
    → ((mv : Move) (p : Pool) → P p → After P (move mv p))
    → (ms : List Move) (p q : Pool) → moves ms p ≡ some q
    → P p
    → P q
unfolding moves
moves-keep P keep [] p q e h = After-some P (some p) q e h
moves-keep P keep (m ∷ ms) p q e h = elim (Option-cases (move m p)) [
  | inl n ↦ absurd (ground arith)
  | inr (p', n) ↦
      moves-keep P keep ms p' q (ground arith) (After-some P (move m p) p' n (keep m p h))
]

total-idle : (t : TaskMessage → ℕ) (n : ℕ) → total (at_work t) (idle_workers n) ≡ 0
unfolding total
total-idle t zero = refl
total-idle t (suc n) = omega (arith, total-idle t n)

pub run-Balanced :
    (t : TaskMessage → ℕ) (n : ℕ) (ms : List Move) (p : Pool)
    → moves ms (started n) ≡ some p
    → Balanced t p
unfolding total
run-Balanced t n ms p e =
    moves-keep (Balanced t) (λ mv q h. move-Balanced t q mv h) ms (started n) p e
      (omega (arith, total-idle t n))
