-- ===== src/Server/Registrar/Runs.antt =====
-- Everything that happens at CRegServer, as steps, and where its sockets are in each state.
use shuchuang.Shared.{ℕ, ◌+◌, ◌≡◌, arith, nat_key, option-rule}
use shuchuang.Shared.Dict.{find, erase}
use shuchuang.Shared.Poco.{Json}
use shuchuang.Server.Messages.{MsgHandler, ssl, reg, SocketState}
use shuchuang.Server.Devices.{DeviceManager, get_device}
use shuchuang.Server.Registrar.{
  RegServer, RequestInfo, Sending, ssl_accept, reg_accept, ssl_handler, reg_handler,
  handle_task_finish, handle_offline, http_request_timer, send_request,
}
use shuchuang.Server.Registrar.Sockets.{
  count, count_keys, occupied, IsPlaced, reg_handler-IsPlaced, ssl_handler-IsPlaced,
  put_back-IsPlaced, ssl_accept-IsPlaced, ended-IsPlaced, finish_reg-IsPlaced,
  handle_offline-IsPlaced, free_after, count-drop_socket,
}

module _ {O : Type 0} ⦃j : Json O⦄ where
  -- What can happen: a connection gets a number that no open socket of its kind has; a task that ends
  -- is one that runs, whatever its message was.
  pub data Step (s : RegServer O) : RegServer O → Type 0 where
    accepts_ssl :
        (i : ℕ) → occupied (find i s.ssl_map) + count i s.ssl_tasks ≡ 0 → Step s (ssl_accept i s)
    accepts_reg :
        (i : ℕ)
        → occupied (find i s.reg_map) + count_keys i s.reg_tasks ≡ 0
        → Step s (reg_accept i s)
    reads_ssl : (i : ℕ) → Step s (ssl_handler i s)
    reads_reg : (i : ℕ) → Step s (reg_handler i s)
    ends_ssl :
        (h : MsgHandler O)
        → h.kind ≡ ssl
        → count h.sock s.ssl_tasks ≡ 1
        → Step s (handle_task_finish h s)
    ends_reg :
        (h : MsgHandler O)
        → h.kind ≡ reg
        → count_keys h.sock s.reg_tasks ≡ 1
        → Step s (handle_task_finish h s)
    loses : (i : ℕ) → Step s (handle_offline i s)
    sends :
        (devices : DeviceManager) (now : ℕ) (r : RequestInfo O)
        → Step s (send_request devices now r s).1
    checks : (now : ℕ) → Step s (http_request_timer now s)

  abbrev Kept : Sending O × RegServer O → Type 0
  Kept x = IsPlaced x.1

  send_request-IsPlaced :
      (devices : DeviceManager) (now : ℕ) (r : RequestInfo O) (s : RegServer O)
      → IsPlaced s
      → IsPlaced (send_request devices now r s).1
  unfolding send_request
  send_request-IsPlaced devices now r s p =
      option-rule Kept (get_device r.uuid devices) (λ e. p)
        (λ d e.
          option-rule Kept (find d.id s.reg_map) (λ e. p)
            (λ c e. record { ssl_placed = p.ssl_placed; reg_placed = p.reg_placed }))

  -- Each step keeps the sockets where they belong.
  pub Step-IsPlaced : {s t : RegServer O} → Step s t → IsPlaced s → IsPlaced t
  unfolding handle_task_finish http_request_timer count reg_accept
  Step-IsPlaced {s} (accepts_ssl i free) p = ssl_accept-IsPlaced i s free p
  Step-IsPlaced {s} (accepts_reg i free) p =
      let q = put_back-IsPlaced i SocketState.disconnected s free p in
      record { ssl_placed = q.ssl_placed; reg_placed = q.reg_placed }
  Step-IsPlaced {s} (reads_ssl i) p = ssl_handler-IsPlaced i s p
  Step-IsPlaced {s} (reads_reg i) p = reg_handler-IsPlaced i s p
  Step-IsPlaced {s} (ends_ssl h k one) p = rw k (record {
    reg_placed = p.reg_placed;
    ssl_placed = λ i. ground (arith, p.ssl_placed i, count-drop_socket i h.sock s.ssl_tasks);
  })
  Step-IsPlaced {s} (ends_reg h k one) p = rw k (
      finish_reg-IsPlaced h (record s { reg_tasks = erase h.sock s.reg_tasks })
        (free_after h.sock s one p) (ended-IsPlaced h.sock s p))
  Step-IsPlaced {s} (loses i) p = handle_offline-IsPlaced i s p
  Step-IsPlaced {s} (sends devices now r) p = send_request-IsPlaced devices now r s p
  Step-IsPlaced (checks now) p = record { ssl_placed = p.ssl_placed; reg_placed = p.reg_placed }

  pub data Reach (s : RegServer O) : RegServer O → Type 0 where
    here : Reach s s
    next : {t u : RegServer O} → Reach s t → Step t u → Reach s u

  -- In every state that the server reaches from one where the sockets are placed, a socket that the
  -- server listens to is in the list once and in the map, and a socket that a task reads is in
  -- neither, and has one task.
  pub Reach-IsPlaced : {s t : RegServer O} → IsPlaced s → Reach s t → IsPlaced t
  Reach-IsPlaced p here = p
  Reach-IsPlaced p (next r st) = Step-IsPlaced st (Reach-IsPlaced p r)
