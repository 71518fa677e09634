-- ===== src/Server/Registrar/Listening/Unbound.antt =====
-- CRegServer, Src/TransmitServer/RegServer/RegServer.cpp: a start whose port for the tokens cannot be
-- bound, and a server that was not started.
use shuchuang.Shared.{
  ℕ, ◌≡◌, ◌≢◌, refl, ◌⊎◌, inl, inr, ◌&&◌, if◌then◌else◌, if-rule, Bool, true, false, List, some,
  arith,
}
use shuchuang.Shared.Course.{Course, returns, crashes, Pointer, null, give, proceed, ◌>>=◌}
use shuchuang.Shared.Outcome.{ok}
use shuchuang.Shared.Poco.{Json}
use shuchuang.Common.Config.{Config, get_object}
use shuchuang.Server.Registrar.Listening.{
  Listening, constructed, Bind, bound, refused, no_context, Surrounding, create_inner_socket,
  listen, listen_ssl, listen_refused, listen_reg, start_threads, open_sockets, as_port, config_read,
  start_with, start_stopped, start, close_socket, close_ssl, stop_started, stop, Poll, accept_round,
  sleeps,
}

bind_cases : (b : Bind) → b ≢ bound → (b ≡ refused) ⊎ (b ≡ no_context)
bind_cases refused n = inl refl
bind_cases no_context n = inr refl
bind_cases bound n = absurd (n refl)

abbrev DeafTo : Course Bool × Listening → Type 0
DeafTo (c, s) = (c ≡ returns true) × ((s.ssl_sock ≡ null) × (s.started ≡ true))

inner_done :
    (w : Surrounding) (s : Listening)
    → w.inner_stops ≡ true
    → create_inner_socket w s ≡ (
        if w.ssl_connects && w.reg_connects
        then (returns true, record s { inner_listed = true })
        else (returns false, s))
unfolding create_inner_socket ◌>>=◌
inner_done w s i = rw i (ground arith)

listen_ssl_unbound :
    (w : Surrounding) (s : Listening)
    → w.ssl_bind ≢ bound
    → s.ssl_sock ≡ null
    → listen_ssl w s ≡ (returns false, s)
unfolding listen_ssl listen listen_refused give ◌>>=◌
listen_ssl_unbound w s n e = elim (bind_cases w.ssl_bind n) [
  | inl b ↦ rw (b, e) refl
  | inr b ↦ rw (b, e) refl
]

threads_unbound :
    (w : Surrounding) (s : Listening)
    → w.reg_bind ≡ bound
    → w.timers_start ≡ true
    → s.ssl_sock ≡ null
    → DeafTo ((listen_reg w >>= λ reg. start_threads w) s)
unfolding listen_reg listen start_threads ◌>>=◌
threads_unbound w s b t e = rw (b, t) (refl, (e, refl))

listens_unbound :
    (w : Surrounding) (s : Listening)
    → w.ssl_bind ≢ bound
    → w.reg_bind ≡ bound
    → w.timers_start ≡ true
    → s.ssl_sock ≡ null
    → DeafTo ((listen_ssl w >>= λ ssl. listen_reg w >>= λ reg. start_threads w) s)
unfolding ◌>>=◌
listens_unbound w s n b t e = rw (listen_ssl_unbound w s n e) (threads_unbound w s b t e)

open_unbound :
    (w : Surrounding) (s : Listening)
    → w.inner_stops ≡ true
    → w.ssl_bind ≢ bound
    → w.reg_bind ≡ bound
    → w.timers_start ≡ true
    → s.ssl_sock ≡ null
    → DeafTo (open_sockets w s)
unfolding open_sockets ◌>>=◌
open_unbound w s i n b t e = rw (inner_done w s i) (
    if-rule {A = Course Bool × Listening}
      (λ c. DeafTo (
        proceed c.0 (λ inner. listen_ssl w >>= λ ssl. listen_reg w >>= λ reg. start_threads w) c.1))
      (w.ssl_connects && w.reg_connects)
      (λ c. listens_unbound w (record s { inner_listed = true }) n b t e)
      (λ c. listens_unbound w s n b t e))

null_sleeps : {p : Pointer ℕ} → p ≡ null → (polls : List Poll) → accept_round p polls ≡ sleeps
unfolding accept_round
null_sleeps e polls = rw e refl

stop_null :
    (w : Surrounding) (s : Listening)
    → s.started ≡ true
    → s.ssl_sock ≡ null
    → w.timers_stop ≡ true
    → (stop w s).0 ≡ crashes
unfolding stop stop_started close_ssl close_socket ◌>>=◌
stop_null w s on n t = rw (on, n, t) refl

module _ {O : Type 0} ⦃j : Json O⦄ where
  -- A server just made, whose configuration is complete: its ports are in range, its inner sockets get
  -- done and its timers start, but the port for the tokens cannot be bound. It says that it is started,
  -- accepts no connection of a device that wants a token, whatever comes, and its stop goes to a null
  -- pointer.
  pub start_unbound :
      (config : Config O) (w : Surrounding) (o : O) (p q : ℕ)
      → (get_object "RegServer" config).0 ≡ ok (some o)
      → j.has o "ssl_port" ≡ true
      → j.has o "reg_port" ≡ true
      → as_port (j.get_int o "ssl_port") ≡ some p
      → as_port (j.get_int o "reg_port") ≡ some q
      → w.inner_stops ≡ true
      → w.ssl_bind ≢ bound
      → w.reg_bind ≡ bound
      → w.timers_start ≡ true
      → w.timers_stop ≡ true
      → let (c, s) = start config w constructed in
        (c ≡ returns true)
        × ((polls : List Poll) → accept_round s.ssl_sock polls ≡ sleeps)
        × ((stop w s).0 ≡ crashes)
  unfolding start start_stopped config_read start_with as_port ◌>>=◌
  start_unbound config w o p q e hs hr ps pr i sb rb ts tp =
      let s1 = record constructed { ssl_port = p; reg_port = q } in
      let (c, (n, on)) = open_unbound w s1 i sb rb ts refl in
      rw (e, hs, hr, ps, pr) (c, (λ polls. null_sleeps n polls), stop_null w _ on n tp)
