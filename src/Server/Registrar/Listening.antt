-- ===== src/Server/Registrar/Listening.antt =====
-- CRegServer, Src/TransmitServer/RegServer/RegServer.cpp: how it is made, started, stopped and
-- destroyed, with its listening sockets and its inner sockets as pointers and flags.
pub mod Ready
pub mod Sequences
pub mod Unbound
pub mod Bound
use shuchuang.Shared.{
  ℕ, ◌^◌, Bool, true, false, Option, none, some, List, [], ◌∷◌, not, ◌||◌, ◌&&◌, ltb, if◌then◌else◌,
}
use shuchuang.Shared.Int.{ℤ, pos, negsuc}
use shuchuang.Shared.Course.{
  Course, returns, throws, blocks, crashes, Pointer, wild, null, freed, live, Call, give, end_by,
  value_or_throw, update, ◌>>=◌, ◌>>◌,
}
use shuchuang.Shared.Outcome.{Outcome, ok, failed, thrown}
use shuchuang.Shared.Poco.{Json}
use shuchuang.Common.Config.{Config, get_object}

-- A listening socket is known by the port that it is bound to. `inner_listed` says that both inner
-- sockets are in the lists that the loops watch; `closed` are the ports whose socket `stop` closed.
pub record Listening : Type 0 where
  pub started : Bool
  pub ssl_port : ℕ
  pub reg_port : ℕ
  pub ssl_sock : Pointer ℕ
  pub reg_sock : Pointer ℕ
  pub thread_pool : Pointer (Unit {0})
  pub task_manager : Pointer (Unit {0})
  pub inner_listed : Bool
  pub closed : List ℕ

-- `CRegServer()` sets `m_task_manager` twice and `m_thread_pool` never.
abbrev pub constructed : Listening
constructed = record {
  started = false;
  ssl_port = 0;
  reg_port = 0;
  ssl_sock = null;
  reg_sock = null;
  thread_pool = wild;
  task_manager = null;
  inner_listed = false;
  closed = [];
}

-- What becomes of a listening socket: its context cannot be made, its port cannot be bound, or it
-- listens.
pub data Bind : Type 0 where
  no_context refused bound : Bind

-- What the calls of the library do: whether each inner socket connects, whether the timer that accepts
-- them stops, how the ports are bound, and whether all five timers start and stop.
pub record Surrounding : Type 0 where
  pub ssl_connects : Bool
  pub reg_connects : Bool
  pub inner_stops : Bool
  pub ssl_bind : Bind
  pub reg_bind : Bind
  pub timers_start : Bool
  pub timers_stop : Bool

-- `delete`, which does nothing to a null pointer.
unfoldable pub deleted : {A : Type 0} → Pointer A → Option (Pointer A)
deleted wild = none
deleted null = some null
deleted freed = none
deleted (live a) = some freed

-- `getValue<UInt16>`, which throws out of range.
unfoldable pub as_port : Option ℤ → Option ℕ
as_port (some (pos n)) = if ltb n (2 ^ 16) then some n else none
as_port (some (negsuc n)) = none
as_port none = none

unfoldable pub create_inner_socket : Surrounding → Call Listening Bool
create_inner_socket w =
    if not w.inner_stops
    then end_by blocks
    else if w.ssl_connects && w.reg_connects
    then (do update (λ s. record s { inner_listed = true }); give true)
    else give false

-- The branch of `listenSsl` and `listenReg` where the socket throws: the pointer still is the old one.
unfoldable pub listen_refused :
    Pointer ℕ → (Pointer ℕ → Listening → Listening) → Call Listening Bool
unfolding deleted
listen_refused old assign = elim (deleted old) [
  | none ↦ end_by crashes
  | some p ↦ (do update (assign p); give false)
]

unfoldable pub listen :
    Bind → ℕ → Pointer ℕ → (Pointer ℕ → Listening → Listening) → Call Listening Bool
unfolding listen_refused
listen no_context port old assign = give false
listen refused port old assign = listen_refused old assign
listen bound port old assign = do update (assign (live port)); give true

unfoldable pub listen_ssl : Surrounding → Call Listening Bool
unfolding listen
listen_ssl w s = listen w.ssl_bind s.ssl_port s.ssl_sock (λ p s. record s { ssl_sock = p }) s

unfoldable pub listen_reg : Surrounding → Call Listening Bool
unfolding listen
listen_reg w s = listen w.reg_bind s.reg_port s.reg_sock (λ p s. record s { reg_sock = p }) s

-- From the thread pool on: `m_started` is true before the timers start.
unfoldable pub start_threads : Surrounding → Call Listening Bool
start_threads w = do
  update (λ s. record s { thread_pool = live tt; task_manager = live tt; started = true })
  if w.timers_start then give true else end_by throws

unfoldable pub open_sockets : Surrounding → Call Listening Bool
unfolding create_inner_socket listen_ssl listen_reg start_threads
open_sockets w = do
  inner ← create_inner_socket w
  ssl ← listen_ssl w
  reg ← listen_reg w
  start_threads w

unfoldable pub config_read : {A : Type 0} → Outcome A → Course A
config_read (ok a) = returns a
config_read (failed d) = throws
config_read thrown = throws

module _ {O : Type 0} ⦃j : Json O⦄ where
  unfoldable pub start_with : Surrounding → Option O → Call Listening Bool
  unfolding open_sockets as_port
  start_with w none = give false
  start_with w (some o) =
      if not (j.has o "ssl_port") || not (j.has o "reg_port") then give false else (do
        ssl_port ← value_or_throw (as_port (j.get_int o "ssl_port"))
        update (λ s. record s { ssl_port = ssl_port })
        reg_port ← value_or_throw (as_port (j.get_int o "reg_port"))
        update (λ s. record s { reg_port = reg_port })
        open_sockets w)

  unfoldable pub start_stopped : Config O → Surrounding → Call Listening Bool
  unfolding start_with config_read
  start_stopped config w = do
    entry ← end_by (config_read (get_object "RegServer" config).0)
    start_with w entry

  -- `start`. What becomes of the sockets is not asked.
  unfoldable pub start : Config O → Surrounding → Call Listening Bool
  unfolding start_stopped
  start config w s = if s.started then (returns false, s) else start_stopped config w s

-- `close` and `delete` of a socket: the pointer stays as it is, to what was deleted.
unfoldable pub close_socket :
    Pointer ℕ → (Pointer ℕ → Listening → Listening) → Call Listening (Unit {0})
close_socket (live port) assign = update (λ s. assign freed (record s { closed = port ∷ s.closed }))
close_socket p assign = end_by crashes

unfoldable pub stop_all : Pointer (Unit {0}) → Call Listening Bool
stop_all (live t) = give true
stop_all p = end_by crashes

unfoldable pub close_ssl : Call Listening (Unit {0})
unfolding close_socket
close_ssl s = close_socket s.ssl_sock (λ p s. record s { ssl_sock = p }) s

unfoldable pub close_reg : Call Listening (Unit {0})
unfolding close_socket
close_reg s = close_socket s.reg_sock (λ p s. record s { reg_sock = p }) s

unfoldable pub stop_pool : Call Listening Bool
unfolding stop_all
stop_pool s = stop_all s.thread_pool s

unfoldable pub stop_started : Surrounding → Call Listening Bool
unfolding close_ssl close_reg stop_pool
stop_started w = do
  update (λ s. record s { started = false })
  if w.timers_stop then give tt else end_by blocks
  close_ssl
  close_reg
  stop_pool

unfoldable pub stop : Surrounding → Call Listening Bool
unfolding stop_started
stop w s = if s.started then stop_started w s else (returns false, s)

-- `~CRegServer()`.
unfoldable pub destroy : Call Listening (Unit {0})
unfolding deleted
destroy s = elim (deleted s.thread_pool) [
  | none ↦ (crashes, s)
  | some p ↦ elim (deleted s.task_manager) [
    | none ↦ (crashes, record s { thread_pool = p })
    | some q ↦ (returns tt, record s { thread_pool = p; task_manager = q })
  ]
]

-- One poll of five seconds: the socket that comes, and whether the server is started after it.
pub record Poll : Type 0 where
  pub socket : Option ℕ
  pub started : Bool

-- What a round of the loop of `sslAccept` or `regAccept` comes to; `waits` where no poll is left.
pub data Round : Type 0 where
  sleeps waits leaves no_socket : Round
  accepts : ℕ → Round

unfoldable pub await_connection : List Poll → Round
await_connection [] = waits
await_connection (p ∷ ps) =
    let rest = await_connection ps in
    if not p.started then leaves else elim p.socket [ none ↦ rest | some i ↦ accepts i ]

unfoldable pub accept_round : Pointer ℕ → List Poll → Round
unfolding await_connection
accept_round null ps = sleeps
accept_round (live port) ps = await_connection ps
accept_round p ps = no_socket
