-- ===== src/Server/Lifecycle.antt =====
-- Start, Stop and Shutdown of a server, with the mutex that makes each of their critical sections
-- one step. What the goroutines do in between is in Server/Pool.
pub mod Run
use go_task_engine.Prelude.{
  ℕ, ◌+◌, ◌≡◌, refl, Bool, true, false, not, Option, none, some, List, [], ◌∷◌, if◌then◌else◌,
  arith,
}
use go_task_engine.Prelude.Int.{pos, ◌<ℤ◌}
use go_task_engine.Errors.{Error, sentinel, plain, server_running, server_closed}
use go_task_engine.Double.{Double, nought, one}
use go_task_engine.Server.Config.{Config, apply_defaults, validate_config}

pub data ServerState : Type 0 where
  new running stopped : ServerState

-- The fields of Server that the methods share. Closing a channel that is closed panics.
pub record Server : Type 0 where
  pub state : ServerState
  -- how often Start made its goroutines
  pub starts : ℕ
  -- how often stopCh was closed
  pub closes : ℕ
  -- stopOne has run
  pub stop_done : Bool
  pub handlers_cancelled : Bool
  pub cancelled : Bool

abbrev pub fresh : Server
fresh = record {
  state = new;
  starts = 0;
  closes = 0;
  stop_done = false;
  handlers_cancelled = false;
  cancelled = false;
}

module _ {W : Type 0} (d : Double W) where
  -- Start after its tests of the state, with the configuration that New left. The store and the
  -- handler may be nil.
  unfoldable pub start_new : Config W → Bool → Option Error → Server → Option Error × Server
  start_new c wired (some e) s = (some e, s)
  start_new c wired none s =
      if not wired
      then (some (plain "server store and handler are required"), s)
      else (none, record s { state = running; starts = s.starts + 1 })

  unfoldable pub start_in : ServerState → Config W → Bool → Server → Option Error × Server
  unfolding start_new
  start_in running c wired s = (some (sentinel server_running), s)
  start_in stopped c wired s = (some (sentinel server_closed), s)
  start_in new c wired s = start_new c wired (validate_config d c) s

  unfoldable pub start : Config W → Bool → Server → Option Error × Server
  unfolding start_in
  start c wired s = start_in s.state c wired s

-- `s.stopOne.Do(…)`: only the first call runs the function.
unfoldable pub close_once : Server → Server
close_once s =
    if s.stop_done
    then s
    else record s { stop_done = true; closes = s.closes + 1; handlers_cancelled = true }

-- requestStop
unfoldable pub request_stop_in : ServerState → Server → Bool × Server
unfolding close_once
request_stop_in running s = (true, close_once (record s { state = stopped }))
request_stop_in new s = (false, s)
request_stop_in stopped s = (false, s)

unfoldable pub request_stop : Server → Bool × Server
unfolding request_stop_in
request_stop s = request_stop_in s.state s

-- Stop
unfoldable pub stop : Server → Server
stop s = let (asked, s') = request_stop s in if asked then record s' { cancelled = true } else s'

-- The part of Shutdown that changes the server: whether the workers and then the maintenance loops
-- were done before the deadline is up to them.
unfoldable pub shutdown_in : ServerState → Bool → Bool → Server → Option Error × Server
shutdown_in new worked maintained s = (none, s)
shutdown_in st worked maintained s =
    let s' = record (request_stop s).1 { cancelled = true } in
    if not worked
    then (some (plain "shutdown timeout"), s')
    else if not maintained
    then (some (plain "shutdown timeout"), s')
    else (none, s')

unfoldable pub shutdown : Bool → Bool → Server → Option Error × Server
unfolding shutdown_in
shutdown worked maintained s = shutdown_in s.state worked maintained s

-- What callers do to a server.
pub data Action (W : Type 0) : Type 0 where
  call_start : Config W → Bool → Action W
  call_stop : Action W
  -- the first half of Stop or Shutdown, when other calls come before the second
  call_request_stop : Action W
  call_shutdown : Bool → Bool → Action W

module _ {W : Type 0} (d : Double W) where
  unfoldable pub act : Action W → Server → Server
  act (call_start c wired) s = (start d c wired s).1
  act call_stop s = stop s
  act call_request_stop s = (request_stop s).1
  act (call_shutdown worked maintained) s = (shutdown worked maintained s).1

  unfoldable pub act_all : List (Action W) → Server → Server
  unfolding act
  act_all [] s = s
  act_all (a ∷ rest) s = act_all rest (act a s)

-- What holds of a server in each state.
abbrev pub SoundIn : ServerState → Server → Type 0
SoundIn new s =
    (s.starts ≡ 0)
    × (s.closes ≡ 0)
    × (s.stop_done ≡ false)
    × (s.handlers_cancelled ≡ false)
    × (s.cancelled ≡ false)
SoundIn running s =
    (s.starts ≡ 1)
    × (s.closes ≡ 0)
    × (s.stop_done ≡ false)
    × (s.handlers_cancelled ≡ false)
    × (s.cancelled ≡ false)
SoundIn stopped s =
    (s.starts ≡ 1) × (s.closes ≡ 1) × (s.stop_done ≡ true) × (s.handlers_cancelled ≡ true)

abbrev pub IsSound : Server → Type 0
IsSound s = SoundIn s.state s

module _ {W : Type 0} (d : Double W) where
  start_new-IsSound :
      (c : Config W) (wired : Bool) (e : Option Error) (s : Server)
      → s.state ≡ new
      → SoundIn new s
      → IsSound (start_new d c wired e s).1
  unfolding start_new
  start_new-IsSound c wired (some e) s q h = rw q h
  start_new-IsSound c wired none s q h = ground arith

  pub start_in-IsSound :
      (st : ServerState) (c : Config W) (wired : Bool) (s : Server)
      → s.state ≡ st
      → SoundIn st s
      → IsSound (start_in d st c wired s).1
  unfolding start_in
  start_in-IsSound new c wired s q h = start_new-IsSound c wired (validate_config d c) s q h
  start_in-IsSound running c wired s q h = rw q h
  start_in-IsSound stopped c wired s q h = rw q h

  act-IsSound : (a : Action W) (s : Server) → IsSound s → IsSound (act d a s)
  unfolding act start stop request_stop shutdown
  act-IsSound (call_start c wired) s h = start_in-IsSound s.state c wired s refl h
  act-IsSound call_stop s h = ground arith
  act-IsSound call_request_stop s h = ground arith
  act-IsSound (call_shutdown worked maintained) s h = ground arith

  pub act_all-IsSound : (l : List (Action W)) (s : Server) → IsSound s → IsSound (act_all d l s)
  unfolding act_all
  act_all-IsSound [] s h = h
  act_all-IsSound (a ∷ l) s h = act_all-IsSound l (act d a s) (act-IsSound a s h)

  -- Whatever calls are made on a new server, also when calls come between the two halves of a stop:
  -- the goroutines are started at most once, a running server is not stopped or cancelled, and a
  -- stopped one has closed its stop channel exactly once (a second close panics) and cancelled its
  -- handlers.
  pub act_all-fresh : (l : List (Action W)) → IsSound (act_all d l fresh)
  act_all-fresh l = act_all-IsSound l fresh (refl, refl, refl, refl, refl)

  start_new-none :
      (c : Config W) (wired : Bool) (e : Option Error) (s : Server)
      → (start_new d c wired e s).0 ≡ none
      → (wired ≡ true) × (e ≡ none)
  unfolding start_new
  start_new-none c wired (some e) s h = ground arith
  start_new-none c wired none s h = ground arith

  start_in-none :
      (st : ServerState) (c : Config W) (wired : Bool) (s : Server)
      → (start_in d st c wired s).0 ≡ none
      → (st ≡ new) × (wired ≡ true) × (validate_config d c ≡ none)
  unfolding start_in
  start_in-none new c wired s h =
      let k = start_new-none c wired (validate_config d c) s h in (refl, k.0, k.1)
  start_in-none running c wired s h = ground arith
  start_in-none stopped c wired s h = ground arith

  -- Positive intervals, a heartbeat shorter than the lease, and a jitter between 0 and 1.
  abbrev pub IsSafe : Config W → Type 0
  IsSafe c =
      (pos 0 <ℤ c.heartbeat_interval)
      × (c.heartbeat_interval <ℤ c.lease_duration)
      × (pos 0 <ℤ c.concurrency)
      × (pos 0 <ℤ c.poll_interval)
      × (pos 0 <ℤ c.recovery_interval)
      × (pos 0 <ℤ c.shutdown_timeout)
      × (d.lt c.retry_jitter (nought d) ≡ false)
      × (d.lt (one d) c.retry_jitter ≡ false)

  config-bounds :
      (c : Config W) → validate_config d (apply_defaults d c) ≡ none → IsSafe (apply_defaults d c)
  unfolding apply_defaults validate_config
  config-bounds c h = ground arith

  -- A server that starts was new and has its store and handler, and with the defaults of New in place
  -- its heartbeat is positive and shorter than the lease, the number of workers and the other
  -- intervals are positive, and the retry jitter is neither below 0 nor above 1.
  pub start-bounds :
      (c : Config W) (wired : Bool) (s : Server)
      → (start d (apply_defaults d c) wired s).0 ≡ none
      → (s.state ≡ new) × (wired ≡ true) × IsSafe (apply_defaults d c)
  unfolding start
  start-bounds c wired s h =
      let k = start_in-none s.state (apply_defaults d c) wired s h in
      (k.0, k.1, config-bounds c k.2)
