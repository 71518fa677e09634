-- ===== src/Server/Registrar/Listening/Ready.antt =====
-- CRegServer, Src/TransmitServer/RegServer/RegServer.cpp: which pointers `start` and `stop` rely on.
use shuchuang.Shared.{ℕ, ◌≡◌, refl, Bool, true, false, ◌∷◌, Option, none, some, if-rule}
use shuchuang.Shared.Course.{
  Course, Pointer, wild, null, freed, live, give, end_by, Ended, Meets, Meets-give, Meets-throws,
  Meets-blocks, Meets-if, Meets-value_or_throw, Meets-update, Meets-bind, update, ◌>>=◌,
}
use shuchuang.Shared.Outcome.{Outcome, ok, failed, thrown}
use shuchuang.Shared.Poco.{Json}
use shuchuang.Common.Config.{Config}
use shuchuang.Server.Registrar.Listening.{
  Listening, bound, Surrounding, create_inner_socket, listen_ssl, listen_reg, start_threads,
  open_sockets, config_read, start_with, start_stopped, start, close_socket, close_ssl, close_reg,
  stop_all, stop_pool, stop_started, stop,
}

unfoldable pub IsLive : {A : Type 0} → Pointer A → Type 0
IsLive (live a) = Unit
IsLive wild = ⊥
IsLive null = ⊥
IsLive freed = ⊥

pub record AreLive (s : Listening) : Type 0 where
  ssl : IsLive s.ssl_sock
  reg : IsLive s.reg_sock
  pool : IsLive s.thread_pool

-- A server that is started has its sockets and its threads.
pub record IsReady (s : Listening) : Type 0 where
  pub ready : s.started ≡ true → AreLive s

abbrev pub IsStopped : Listening → Type 0
IsStopped s = s.started ≡ false

pub stopped-IsReady : (s : Listening) → IsStopped s → IsReady s
stopped-IsReady s e = record { ready = λ t. cc }

abbrev SslListens : Listening → Type 0
SslListens s = IsStopped s × IsLive s.ssl_sock

abbrev BothListen : Listening → Type 0
BothListen s = SslListens s × IsLive s.reg_sock

abbrev pub IsBound : Surrounding → Type 0
IsBound w = (w.ssl_bind ≡ bound) × (w.reg_bind ≡ bound)

create_inner_socket-Meets :
    (w : Surrounding) → Meets IsReady IsStopped (create_inner_socket w) (λ b s. IsStopped s)
unfolding create_inner_socket Ended ◌>>=◌
create_inner_socket-Meets w = search (Meets-if, Meets-bind, Meets-blocks, Meets-give)

listen_ssl-Meets :
    (w : Surrounding)
    → w.ssl_bind ≡ bound
    → Meets IsReady IsStopped (listen_ssl w) (λ b s. SslListens s)
unfolding listen_ssl ◌>>=◌ Ended IsLive
listen_ssl-Meets w b = record { at = λ s h. rw b (h, tt) }

listen_reg-Meets :
    (w : Surrounding)
    → w.reg_bind ≡ bound
    → Meets IsReady SslListens (listen_reg w) (λ b s. BothListen s)
unfolding listen_reg ◌>>=◌ Ended IsLive
listen_reg-Meets w b = record { at = λ s h. rw b (h, tt) }

threads-IsReady :
    (s : Listening)
    → BothListen s
    → IsReady (record s { thread_pool = live tt; task_manager = live tt; started = true })
unfolding IsLive
threads-IsReady s ((e, ssl), reg) = record {
  ready = λ t. record { ssl = ssl; reg = reg; pool = tt };
}

start_threads-Meets :
    (w : Surrounding) → Meets IsReady BothListen (start_threads w) (λ b s. IsReady s)
unfolding start_threads ◌>>=◌ Ended
start_threads-Meets w =
    Meets-bind (update _) _ (Meets-update _ threads-IsReady)
      (λ t. Meets-if w.timers_start _ _ (Meets-give true (λ s h. h)) (Meets-throws (λ s h. h)))

open_sockets-Meets :
    (w : Surrounding) → IsBound w → Meets IsReady IsStopped (open_sockets w) (λ b s. IsReady s)
unfolding open_sockets
open_sockets-Meets w (ssl, reg) =
    Meets-bind (create_inner_socket w) _ (create_inner_socket-Meets w) (λ a.
      Meets-bind (listen_ssl w) _ (listen_ssl-Meets w ssl)
        (λ b. Meets-bind (listen_reg w) _ (listen_reg-Meets w reg) (λ c. start_threads-Meets w)))

module _ {O : Type 0} ⦃j : Json O⦄ where
  start_with-Meets :
      (w : Surrounding) (entry : Option O)
      → IsBound w
      → Meets IsReady IsStopped (start_with w entry) (λ b s. IsReady s)
  unfolding start_with
  start_with-Meets w none b = Meets-give false stopped-IsReady
  start_with-Meets w (some o) b = Meets-if _ _ _ (Meets-give false stopped-IsReady) (
      Meets-bind _ _ (Meets-value_or_throw _ stopped-IsReady (λ a s h. h)) (λ p.
        Meets-bind (update _) _ (Meets-update _ (λ s h. h)) (λ t.
          Meets-bind _ _ (Meets-value_or_throw _ stopped-IsReady (λ a s h. h)) (λ q.
            Meets-bind (update _) _ (Meets-update _ (λ s h. h)) (λ t. open_sockets-Meets w b)))))

  config_read-Meets :
      (r : Outcome (Option O))
      → Meets IsReady IsStopped (end_by (config_read r)) (λ entry s. IsStopped s)
  unfolding config_read end_by give
  config_read-Meets (ok o) = Meets-give o (λ s h. h)
  config_read-Meets (failed d) = Meets-throws stopped-IsReady
  config_read-Meets thrown = Meets-throws stopped-IsReady

  start_stopped-Meets :
      (config : Config O) (w : Surrounding)
      → IsBound w
      → Meets IsReady IsStopped (start_stopped config w) (λ b s. IsReady s)
  unfolding start_stopped
  start_stopped-Meets config w b =
      Meets-bind _ _ (config_read-Meets _) (λ entry. start_with-Meets w entry b)

  pub start-Meets :
      (config : Config O) (w : Surrounding)
      → IsBound w
      → Meets IsReady IsReady (start config w) (λ b s. IsReady s)
  unfolding start Ended
  start-Meets config w b = record {
    at = λ s h.
        if-rule {A = Course Bool × Listening} (λ c. Ended (λ b s. IsReady s) IsReady c.0 c.1)
          s.started (λ e. h) (λ e. (start_stopped-Meets config w b).at s e);
  }

-- What is still there while `stop` runs.
abbrev HasBoth : Listening → Type 0
HasBoth s = IsStopped s × AreLive s

abbrev HasReg : Listening → Type 0
HasReg s = IsStopped s × (IsLive s.reg_sock × IsLive s.thread_pool)

abbrev HasPool : Listening → Type 0
HasPool s = IsStopped s × IsLive s.thread_pool

close_socket-Ended :
    (Q : Listening → Type 0) (p : Pointer ℕ) (assign : Pointer ℕ → Listening → Listening)
    (s : Listening)
    → IsLive p
    → ((port : ℕ) → Q (assign freed (record s { closed = port ∷ s.closed })))
    → Ended (λ t. Q) IsReady (close_socket p assign s).0 (close_socket p assign s).1
unfolding close_socket update Ended IsLive
close_socket-Ended Q (live port) assign s l h = h port
close_socket-Ended Q wild assign s l h = absurd l
close_socket-Ended Q null assign s l h = absurd l
close_socket-Ended Q freed assign s l h = absurd l

close_ssl-Meets : Meets IsReady HasBoth close_ssl (λ t. HasReg)
unfolding close_ssl
close_ssl-Meets = record {
  at = λ s (e, a). close_socket-Ended HasReg s.ssl_sock _ s a.ssl (λ port. (e, (a.reg, a.pool)));
}

close_reg-Meets : Meets IsReady HasReg close_reg (λ t. HasPool)
unfolding close_reg
close_reg-Meets = record {
  at = λ s (e, (reg, pool)). close_socket-Ended HasPool s.reg_sock _ s reg (λ port. (e, pool));
}

stop_all-Ended :
    (p : Pointer (Unit {0})) (s : Listening)
    → IsStopped s
    → IsLive p
    → Ended (λ b. IsReady) IsReady (stop_all p s).0 (stop_all p s).1
unfolding stop_all give Ended IsLive
stop_all-Ended (live t) s e l = stopped-IsReady s e
stop_all-Ended wild s e l = absurd l
stop_all-Ended null s e l = absurd l
stop_all-Ended freed s e l = absurd l

stop_pool-Meets : Meets IsReady HasPool stop_pool (λ b. IsReady)
unfolding stop_pool
stop_pool-Meets = record { at = λ s (e, pool). stop_all-Ended s.thread_pool s e pool }

stop_started-Meets : (w : Surrounding) → Meets IsReady AreLive (stop_started w) (λ b. IsReady)
unfolding stop_started
stop_started-Meets w =
    Meets-bind (update _) _
      (Meets-update _ (λ s a. (refl, record { ssl = a.ssl; reg = a.reg; pool = a.pool })))
      (λ t.
        Meets-bind {R = λ t. HasBoth} _ _
          (Meets-if w.timers_stop _ _ (Meets-give tt (λ s h. h)) Meets-blocks)
          (λ t.
            Meets-bind close_ssl _ close_ssl-Meets
              (λ t. Meets-bind close_reg _ close_reg-Meets (λ t. stop_pool-Meets))))

pub stop-Meets : (w : Surrounding) → Meets IsReady IsReady (stop w) (λ b. IsReady)
unfolding stop Ended
stop-Meets w = record {
  at = λ s h.
      if-rule {A = Course Bool × Listening} (λ c. Ended (λ b. IsReady) IsReady c.0 c.1) s.started
        (λ e. (stop_started-Meets w).at s (h.ready e)) (λ e. h);
}
