-- ===== src/Server/Pool/Shutdown.antt =====
-- The dispatcher and the workers after a stop.
use go_task_engine.Prelude.{
  ℕ, suc, ◌+◌, ◌≤◌, ◌≡◌, ◌≢◌, refl, subst, true, none, some, List, [], ◌∷◌, get_elem?, length,
  total, Option-cases, inl, inr, arith, All,
}
use go_task_engine.Model.{TaskMessage}
use go_task_engine.Server.Pool.{
  Dispatcher, top, looking, done, holding, Worker, idle, gone, busy, Pool, Move, close, check,
  leave, requeue, finish, exit, check_in, leave_in, requeue_in, finish_in, exit_in, move, moves,
  started,
}
use go_task_engine.Server.Pool.Balance.{After, at_work, is_gone, run-Balanced}
use go_task_engine.Server.Pool.Closing.{Closing, Proceeds, measure, move-Proceeds, run-Closing}

-- Once the server is to stop, its dispatcher and workers make no more moves than the measure of
-- the pool says, whichever come in which order: they cannot go on for ever. The pool is one whose
-- channel of jobs is closed before a worker goes and whose stop channel is closed before its
-- dispatcher goes, as every pool is that came from a start.
pub stop-terminates :
    (ms : List Move) (p q : Pool)
    → Closing p
    → p.stopping ≡ true
    → All (λ mv. mv ≢ close) ms
    → moves ms p ≡ some q
    → length ms + measure q ≤ measure p
unfolding moves
stop-terminates [] p q h s c e = ground arith
stop-terminates (m ∷ ms) p q h s c e = elim (Option-cases (move m p)) [
  | inl n ↦ absurd (ground arith)
  | inr (p', n) ↦
      let a : Proceeds p p' = subst (After (Proceeds p)) n (move-Proceeds p h m c.0) in
      omega (arith, a.1 s, stop-terminates ms p' q a.0 (a.1 s).0 c.1 (ground arith))
]

-- No goroutine of the pool can make a move.
abbrev pub Stuck : Pool → Type 0
Stuck p = (mv : Move) → mv ≢ close → move mv p ≡ none

all_gone :
    (ws : List Worker)
    → ((i : ℕ) → get_elem? ws i ≢ some idle)
    → ((i : ℕ) (m : TaskMessage) → get_elem? ws i ≢ some (busy m))
    → total is_gone ws ≡ length ws
unfolding total
all_gone [] h k = refl
all_gone (idle ∷ ws) h k = absurd (h 0 refl)
all_gone (busy m ∷ ws) h k = absurd (k 0 m refl)
all_gone (gone ∷ ws) h k = omega (arith, all_gone ws (λ i. h (suc i)) (λ i m. k (suc i) m))

Stuck-done : (d : Dispatcher) (p : Pool) → p.dispatcher ≡ d → p.stopping ≡ true → Stuck p → d ≡ done
unfolding move check_in leave_in requeue_in
Stuck-done top p e s k = absurd (ground (arith, k check (cc)))
Stuck-done looking p e s k = absurd (ground (arith, k leave (cc)))
Stuck-done (holding m) p e s k = absurd (ground (arith, k requeue (cc)))
Stuck-done done p e s k = refl

Stuck-gone : (p : Pool) → p.dispatcher ≡ done → Stuck p → total is_gone p.workers ≡ length p.workers
unfolding move exit_in finish_in
Stuck-gone p e k =
    all_gone p.workers (λ i w. absurd (ground (arith, k (exit i) (cc))))
      (λ i m w. absurd (ground (arith, k (finish i) (cc))))

gone-le : (ws : List Worker) → total is_gone ws ≤ length ws
unfolding total
gone-le [] = omega arith
gone-le (idle ∷ ws) = omega (arith, gone-le ws)
gone-le (gone ∷ ws) = omega (arith, gone-le ws)
gone-le (busy m ∷ ws) = omega (arith, gone-le ws)

nothing_at_work :
    (t : TaskMessage → ℕ) (ws : List Worker)
    → total is_gone ws ≡ length ws
    → total (at_work t) ws ≡ 0
unfolding total
nothing_at_work t [] e = refl
nothing_at_work t (gone ∷ ws) e = omega (arith, nothing_at_work t ws (omega arith))
nothing_at_work t (idle ∷ ws) e = absurd (omega (arith, gone-le ws))
nothing_at_work t (busy m ∷ ws) e = absurd (omega (arith, gone-le ws))

-- A stopped server whose goroutines can make no more moves is at its end, however it came there from
-- a start: the dispatcher and every worker are gone, at most one task was given back, and by every
-- measure the tasks that were processed or given back add up to those that were claimed, so none was
-- lost and none was processed twice.
pub Stuck-complete :
    (t : TaskMessage → ℕ) (n : ℕ) (ms : List Move) (p : Pool)
    → moves ms (started n) ≡ some p
    → p.stopping ≡ true
    → Stuck p
    → (p.dispatcher ≡ done)
      × (total is_gone p.workers ≡ length p.workers)
      × (length p.requeued ≤ 1)
      × (total t p.claimed ≡ total t p.finished + total t p.requeued)
Stuck-complete t n ms p e s k =
    let ended = Stuck-done p.dispatcher p refl s k in
    let all = Stuck-gone p ended k in
    let balance = run-Balanced t n ms p e in
    (
      ended,
      all,
      (run-Closing n ms p e).back_once,
      ground (arith, ended, balance, nothing_at_work t p.workers all),
    )
