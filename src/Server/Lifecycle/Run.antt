-- ===== src/Server/Lifecycle/Run.antt =====
-- Run and RunSignals of server/server.go.
use go_task_engine.Prelude.{◌≡◌, ◌≢◌, refl, Bool, true, Option, none, some, List, [], ◌∷◌, arith}
use go_task_engine.Errors.{Error}
use go_task_engine.Double.{Double}
use go_task_engine.Server.Config.{Config}
use go_task_engine.Server.Lifecycle.{
  ServerState, new, running, stopped, Server, start_new, start_in, start, close_once,
  request_stop_in, request_stop, stop, shutdown_in, shutdown, Action, call_start, call_stop,
  call_request_stop, call_shutdown, act, act_all, IsSound, start_in-IsSound, act_all-IsSound,
}

module _ {W : Type 0} (d : Double W) where
  unfoldable pub run_started :
      List (Action W) → Bool → Bool → Option Error × Server → Option Error × Server
  run_started between worked maintained (some e, s) = (some e, s)
  run_started between worked maintained (none, s) = shutdown worked maintained (act_all d between s)

  -- Run: Start, a wait for the end of its context or for a stop, in which others make their calls, and
  -- Shutdown.
  unfoldable pub run :
      Config W → Bool → List (Action W) → Bool → Bool → Server → Option Error × Server
  unfolding run_started
  run c wired between worked maintained s =
      run_started between worked maintained (start d c wired s)

  -- RunSignals, whose wait also ends with a signal.
  unfoldable pub run_signals :
      Config W → Bool → List (Action W) → Bool → Bool → Server → Option Error × Server
  unfolding run_started
  run_signals c wired between worked maintained s =
      run_started between worked maintained (start d c wired s)

  HasBegun : Server → Type 0
  HasBegun s = s.state ≢ new

  start_in-HasBegun :
      (st : ServerState) (c : Config W) (wired : Bool) (s : Server)
      → s.state ≡ st
      → HasBegun s
      → HasBegun (start_in d st c wired s).1
  unfolding start_in HasBegun
  start_in-HasBegun new c wired s e b = absurd (b e)
  start_in-HasBegun running c wired s e b = b
  start_in-HasBegun stopped c wired s e b = b

  act-HasBegun : (a : Action W) (s : Server) → HasBegun s → HasBegun (act d a s)
  unfolding act start HasBegun stop request_stop shutdown request_stop_in shutdown_in close_once
  act-HasBegun (call_start c wired) s b = start_in-HasBegun s.state c wired s refl b
  act-HasBegun call_stop s b = ground arith
  act-HasBegun call_request_stop s b = ground arith
  act-HasBegun (call_shutdown worked maintained) s b = ground arith

  all-HasBegun : (l : List (Action W)) (s : Server) → HasBegun s → HasBegun (act_all d l s)
  unfolding act_all
  all-HasBegun [] s b = b
  all-HasBegun (a ∷ l) s b = all-HasBegun l (act d a s) (act-HasBegun a s b)

  -- The goroutines were started once, the stop channel was closed once, and everything is cancelled.
  abbrev pub IsOver : Server → Type 0
  IsOver s = (s.state ≡ stopped) × (s.starts ≡ 1) × (s.closes ≡ 1) × (s.cancelled ≡ true)

  shutdown-IsOver :
      (worked maintained : Bool) (s : Server)
      → IsSound s
      → HasBegun s
      → IsOver (shutdown worked maintained s).1
  unfolding HasBegun shutdown shutdown_in request_stop request_stop_in close_once
  shutdown-IsOver worked maintained s h b = ground arith

  started-HasBegun :
      (st : ServerState) (c : Config W) (wired : Bool) (s : Server)
      → (start_in d st c wired s).0 ≡ none
      → HasBegun (start_in d st c wired s).1
  unfolding start_in start_new HasBegun
  started-HasBegun new c wired s e = ground (arith, e)
  started-HasBegun running c wired s e = ground (arith, e)
  started-HasBegun stopped c wired s e = ground (arith, e)

  run_started-IsOver :
      (between : List (Action W)) (worked maintained : Bool) (p : Option Error × Server)
      → p.0 ≡ none
      → IsSound p.1
      → HasBegun p.1
      → IsOver (run_started between worked maintained p).1
  unfolding run_started
  run_started-IsOver between worked maintained (some e, s) q h b = absurd (ground arith)
  run_started-IsOver between worked maintained (none, s) q h b =
      shutdown-IsOver worked maintained (act_all d between s) (act_all-IsSound d between s h)
        (all-HasBegun between s b)

  -- Whatever calls come while Run waits and whether or not its waits for the goroutines end in time, a
  -- Run that could start a server from a state that calls can lead to leaves it stopped: started once,
  -- its stop channel closed once, and its contexts cancelled.
  pub run-IsOver :
      (c : Config W) (wired : Bool) (between : List (Action W)) (worked maintained : Bool)
      (s : Server)
      → IsSound s
      → (start d c wired s).0 ≡ none
      → IsOver (run c wired between worked maintained s).1
  unfolding run start
  run-IsOver c wired between worked maintained s h e =
      run_started-IsOver between worked maintained (start_in d s.state c wired s) e
        (start_in-IsSound d s.state c wired s refl h) (started-HasBegun s.state c wired s e)

  pub run_signals-IsOver :
      (c : Config W) (wired : Bool) (between : List (Action W)) (worked maintained : Bool)
      (s : Server)
      → IsSound s
      → (start d c wired s).0 ≡ none
      → IsOver (run_signals c wired between worked maintained s).1
  unfolding run_signals start
  run_signals-IsOver c wired between worked maintained s h e =
      run_started-IsOver between worked maintained (start_in d s.state c wired s) e
        (start_in-IsSound d s.state c wired s refl h) (started-HasBegun s.state c wired s e)
