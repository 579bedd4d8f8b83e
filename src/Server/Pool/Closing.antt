-- ===== src/Server/Pool/Closing.antt =====
-- What every move keeps while a server closes, and what it brings nearer.
use go_task_engine.Prelude.{
  ℕ, zero, suc, ◌+◌, ◌≤◌, ◌<◌, ◌≡◌, ◌≢◌, refl, Bool, true, false, Option, none, some, List,
  get_elem?, length, total, total-set, arith,
}
use go_task_engine.Model.{TaskMessage}
use go_task_engine.Server.Pool.{
  Dispatcher, top, looking, done, holding, Worker, idle, gone, busy, Pool, Move, close, check,
  claim, again, leave, hand, requeue, finish, exit, check_in, claim_in, again_in, leave_in, hand_in,
  requeue_in, finish_in, exit_in, move, moves, idle_workers, started,
}
use go_task_engine.Server.Pool.Balance.{After, is_gone, moves-keep}

abbrev pub is_done : Dispatcher → Bool
is_done done = true
is_done top = false
is_done looking = false
is_done (holding m) = false

-- The channel of jobs is closed before a worker goes, stopCh before the dispatcher does, and at most
-- one task is given back, as the last thing the dispatcher does.
pub record Closing (p : Pool) : Type 0 where
  pub gone_after : is_done p.dispatcher ≡ false → total is_gone p.workers ≡ 0
  pub back_last : is_done p.dispatcher ≡ false → length p.requeued ≡ 0
  pub back_once : length p.requeued ≤ 1
  pub stopped : is_done p.dispatcher ≡ true → p.stopping ≡ true

-- How much a stopped pool has left to do.
abbrev pub rank : Dispatcher → ℕ
rank looking = 5
rank (holding m) = 4
rank top = 1
rank done = 0

abbrev pub work : Worker → ℕ
work (busy m) = 2
work idle = 1
work gone = 0

abbrev pub measure : Pool → ℕ
measure p = rank p.dispatcher + total work p.workers

-- What a move of a goroutine other than requestStop does.
abbrev pub Proceeds : Pool → Pool → Type 0
Proceeds p q = Closing q × (p.stopping ≡ true → (q.stopping ≡ true) × (measure q < measure p))

module _ (p : Pool) (h : Closing p) where
  check-Proceeds : (d : Dispatcher) → p.dispatcher ≡ d → After (Proceeds p) (check_in d p)
  unfolding check_in
  check-Proceeds top e = ground (arith, h.gone_after, h.back_last, h.stopped)
  check-Proceeds looking e = tt
  check-Proceeds done e = tt
  check-Proceeds (holding m) e = tt

  claim-Proceeds :
      (d : Dispatcher) (n : TaskMessage) → p.dispatcher ≡ d → After (Proceeds p) (claim_in d n p)
  unfolding claim_in
  claim-Proceeds top n e = tt
  claim-Proceeds looking n e = ground (arith, h.gone_after, h.back_last, h.stopped)
  claim-Proceeds done n e = tt
  claim-Proceeds (holding m) n e = tt

  again-Proceeds : (d : Dispatcher) → p.dispatcher ≡ d → After (Proceeds p) (again_in d p)
  unfolding again_in
  again-Proceeds top e = tt
  again-Proceeds looking e = ground (arith, h.gone_after, h.back_last, h.stopped)
  again-Proceeds done e = tt
  again-Proceeds (holding m) e = tt

  leave-Proceeds : (d : Dispatcher) → p.dispatcher ≡ d → After (Proceeds p) (leave_in d p)
  unfolding leave_in
  leave-Proceeds top e = tt
  leave-Proceeds looking e = ground (arith, h.gone_after, h.back_last, h.stopped)
  leave-Proceeds done e = tt
  leave-Proceeds (holding m) e = tt

  requeue-Proceeds : (d : Dispatcher) → p.dispatcher ≡ d → After (Proceeds p) (requeue_in d p)
  unfolding requeue_in
  requeue-Proceeds top e = tt
  requeue-Proceeds looking e = tt
  requeue-Proceeds done e = tt
  requeue-Proceeds (holding m) e = ground (arith, h.gone_after, h.back_last, h.stopped)

  hand-Proceeds :
      (d : Dispatcher) (o : Option Worker) (i : ℕ)
      → p.dispatcher ≡ d
      → get_elem? p.workers i ≡ o
      → After (Proceeds p) (hand_in d o i p)
  unfolding hand_in
  hand-Proceeds (holding m) (some idle) i e e' =
      let k = total-set work p.workers i idle (busy m) e' in
      let l = total-set is_gone p.workers i idle (busy m) e' in
      ground (arith, h.gone_after, h.back_last, h.stopped, k, l)
  hand-Proceeds (holding m) (some gone) i e e' = tt
  hand-Proceeds (holding m) (some (busy n)) i e e' = tt
  hand-Proceeds (holding m) none i e e' = tt
  hand-Proceeds top o i e e' = tt
  hand-Proceeds looking o i e e' = tt
  hand-Proceeds done o i e e' = tt

  finish-Proceeds :
      (o : Option Worker) (i : ℕ) → get_elem? p.workers i ≡ o → After (Proceeds p) (finish_in o i p)
  unfolding finish_in
  finish-Proceeds (some (busy m)) i e =
      let k = total-set work p.workers i (busy m) idle e in
      let l = total-set is_gone p.workers i (busy m) idle e in
      ground (arith, h.gone_after, h.back_last, h.stopped, k, l)
  finish-Proceeds (some idle) i e = tt
  finish-Proceeds (some gone) i e = tt
  finish-Proceeds none i e = tt

  exit-Proceeds :
      (d : Dispatcher) (o : Option Worker) (i : ℕ)
      → p.dispatcher ≡ d
      → get_elem? p.workers i ≡ o
      → After (Proceeds p) (exit_in d o i p)
  unfolding exit_in
  exit-Proceeds done (some idle) i e e' =
      let k = total-set work p.workers i idle gone e' in
      ground (arith, h.gone_after, h.back_last, h.stopped, k)
  exit-Proceeds done (some gone) i e e' = tt
  exit-Proceeds done (some (busy m)) i e e' = tt
  exit-Proceeds done none i e e' = tt
  exit-Proceeds top o i e e' = tt
  exit-Proceeds looking o i e e' = tt
  exit-Proceeds (holding m) o i e e' = tt

  pub move-Proceeds : (mv : Move) → mv ≢ close → After (Proceeds p) (move mv p)
  unfolding move
  move-Proceeds close c = absurd (c refl)
  move-Proceeds check c = check-Proceeds p.dispatcher refl
  move-Proceeds (claim m) c = claim-Proceeds p.dispatcher m refl
  move-Proceeds again c = again-Proceeds p.dispatcher refl
  move-Proceeds leave c = leave-Proceeds p.dispatcher refl
  move-Proceeds (hand i) c = hand-Proceeds p.dispatcher (get_elem? p.workers i) i refl refl
  move-Proceeds requeue c = requeue-Proceeds p.dispatcher refl
  move-Proceeds (finish i) c = finish-Proceeds (get_elem? p.workers i) i refl
  move-Proceeds (exit i) c = exit-Proceeds p.dispatcher (get_elem? p.workers i) i refl refl

  close-Closing : After Closing (move close p)
  unfolding move
  close-Closing = record {
    gone_after = h.gone_after;
    back_last = h.back_last;
    back_once = h.back_once;
    stopped = λ e. refl;
  }

Proceeds-Closing : (p : Pool) (o : Option Pool) → After (Proceeds p) o → After Closing o
Proceeds-Closing p none a = tt
Proceeds-Closing p (some q) a = a.0

pub move-Closing : (mv : Move) (p : Pool) → Closing p → After Closing (move mv p)
move-Closing close p h = close-Closing p h
move-Closing check p h = Proceeds-Closing p (move check p) (move-Proceeds p h check (cc))
move-Closing (claim m) p h =
    Proceeds-Closing p (move (claim m) p) (move-Proceeds p h (claim m) (cc))
move-Closing again p h = Proceeds-Closing p (move again p) (move-Proceeds p h again (cc))
move-Closing leave p h = Proceeds-Closing p (move leave p) (move-Proceeds p h leave (cc))
move-Closing (hand i) p h = Proceeds-Closing p (move (hand i) p) (move-Proceeds p h (hand i) (cc))
move-Closing requeue p h = Proceeds-Closing p (move requeue p) (move-Proceeds p h requeue (cc))
move-Closing (finish i) p h =
    Proceeds-Closing p (move (finish i) p) (move-Proceeds p h (finish i) (cc))
move-Closing (exit i) p h = Proceeds-Closing p (move (exit i) p) (move-Proceeds p h (exit i) (cc))

gone-idle : (n : ℕ) → total is_gone (idle_workers n) ≡ 0
unfolding total
gone-idle zero = refl
gone-idle (suc n) = omega (arith, gone-idle n)

pub started-Closing : (n : ℕ) → Closing (started n)
started-Closing n = record {
  gone_after = λ e. gone-idle n;
  back_last = λ e. refl;
  back_once = omega arith;
  stopped = λ e. ground arith;
}

pub run-Closing : (n : ℕ) (ms : List Move) (p : Pool) → moves ms (started n) ≡ some p → Closing p
run-Closing n ms p e = moves-keep Closing move-Closing ms (started n) p e (started-Closing n)
