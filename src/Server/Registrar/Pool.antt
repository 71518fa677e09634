-- ===== src/Server/Registrar/Pool.antt =====
-- CRegServer, Src/TransmitServer/RegServer/RegServer.cpp, when more sockets can be read at once than its
-- pool has threads.
use shuchuang.Shared.{
  ℕ, ◌+◌, ◌≤◌, ◌≡◌, refl, ◌∙◌, Bool, true, false, none, some, arith, length, ltb, ◌==◌, nat_key,
  if◌then◌else◌, option-rule, ◌⊎◌, inl, inr,
}
use shuchuang.Shared.Dict.{find, erase, find-erase}
use shuchuang.Shared.Poco.{Json}
use shuchuang.Server.Messages.{MsgHandler, ssl, reg, SocketState}
use shuchuang.Server.Devices.{DeviceManager, get_device}
use shuchuang.Server.Registrar.{
  RegServer, RequestInfo, Sending, ssl_accept, ssl_handler, reg_handler, handle_task_finish,
  finish_reg, http_request_timer, send_request, send_to, drop_socket,
}
use shuchuang.Server.Registrar.Runs.{Step}
use shuchuang.Server.Registrar.Sockets.{count, count_keys, count-drop_socket, IsPlaced}

-- The server, and whether a thread has ended while it held `m_reg_queue_mutex`.
pub record Guarded (O : Type 0) : Type 0 where
  pub server : RegServer O
  pub held : Bool

module _ {O : Type 0} where
  -- `regHandler` for a socket that can be read: the socket leaves the list and the map before the task
  -- is started, and where all threads of the pool are busy the start throws with the mutex locked.
  unfoldable pub reg_handler_in : ℕ → ℕ → Guarded O → Guarded O
  reg_handler_in capacity i g =
      if ltb (length g.server.ssl_tasks + length g.server.reg_tasks) capacity
      then record g { server = reg_handler i g.server }
      else elim (find i g.server.reg_map) [
        | none ↦ record g { server = reg_handler i g.server }
        | some _ ↦ record {
          server = record g.server {
            reg_list = drop_socket i g.server.reg_list;
            reg_map = erase i g.server.reg_map;
          };
          held = true;
        }
      ]

both : {b : Bool} → b ≡ false → b ≡ true → ⊥
both e f = cc

module _ {O : Type 0} ⦃j : Json O⦄ where
  -- What happens without `m_reg_queue_mutex`: the other connections, the requests of the phones, the
  -- round of the timer, and the end of a task whose socket is closed.
  pub data Unlocked (s : RegServer O) : RegServer O → Type 0 where
    accepts_ssl : (i : ℕ) → Unlocked s (ssl_accept i s)
    reads_ssl : (i : ℕ) → Unlocked s (ssl_handler i s)
    ends_ssl : (h : MsgHandler O) → h.kind ≡ ssl → Unlocked s (handle_task_finish h s)
    closes :
        (h : MsgHandler O)
        → h.kind ≡ reg
        → (h.req_id == 0) ≡ true
        → h.receive ≡ false
        → Unlocked s (handle_task_finish h s)
    sends :
        (devices : DeviceManager) (now : ℕ) (r : RequestInfo O)
        → Unlocked s (send_request devices now r s).1
    checks : (now : ℕ) → Unlocked s (http_request_timer now s)

  -- A step waits for the mutex, or does not need it.
  pub data Turn (capacity : ℕ) (g : Guarded O) : Guarded O → Type 0 where
    reads : (i : ℕ) → g.held ≡ false → Turn capacity g (reg_handler_in capacity i g)
    waits :
        {s : RegServer O}
        → g.held ≡ false
        → Step g.server s
        → Turn capacity g (record g { server = s })
    passes : {s : RegServer O} → Unlocked g.server s → Turn capacity g (record g { server = s })

  pub data Turns (capacity : ℕ) (g : Guarded O) : Guarded O → Type 0 where
    here : Turns capacity g g
    next : {a b : Guarded O} → Turns capacity g a → Turn capacity a b → Turns capacity g b

  abbrev SameSockets : RegServer O → RegServer O → Type 0
  SameSockets s t = (t.reg_map ≡ s.reg_map) × (t.reg_list ≡ s.reg_list)

  Unlocked-SameSockets : {s t : RegServer O} → Unlocked s t → SameSockets s t
  unfolding ssl_accept ssl_handler handle_task_finish finish_reg http_request_timer send_request
      send_to
  Unlocked-SameSockets {s} (accepts_ssl i) = (refl, refl)
  Unlocked-SameSockets {s} (reads_ssl i) =
      option-rule (SameSockets s) (find i s.ssl_map) (λ _. (refl, refl)) (λ _ _. (refl, refl))
  Unlocked-SameSockets {s} (ends_ssl h k) = rw k (refl, refl)
  Unlocked-SameSockets {s} (closes h k z r) = rw k (rw z (rw r (refl, refl)))
  Unlocked-SameSockets {s} (sends devices now r) =
      option-rule (λ (x : Sending O × RegServer O). SameSockets s x.1) (get_device r.uuid devices)
        (λ _. (refl, refl))
        (λ d _.
          option-rule (λ (x : Sending O × RegServer O). SameSockets s x.1) (find d.id s.reg_map)
            (λ _. (refl, refl)) (λ _ _. (refl, refl)))
  Unlocked-SameSockets {s} (checks now) = (refl, refl)

  Turn-SameSockets :
      {capacity : ℕ} {g m : Guarded O}
      → Turn capacity g m
      → g.held ≡ true
      → (m.held ≡ true) × SameSockets g.server m.server
  Turn-SameSockets (reads i free) h = absurd (both free h)
  Turn-SameSockets (waits free step) h = absurd (both free h)
  Turn-SameSockets (passes step) h = (h, Unlocked-SameSockets step)

  Turns-SameSockets :
      {capacity : ℕ} {g m : Guarded O}
      → Turns capacity g m
      → g.held ≡ true
      → (m.held ≡ true) × SameSockets g.server m.server
  Turns-SameSockets here h = (h, (refl, refl))
  Turns-SameSockets (next r t) h =
      let (held, (map, list)) = Turns-SameSockets r h in
      let (held', (map', list')) = Turn-SameSockets t held in (held', (map' ∙ map, list' ∙ list))

  -- The socket that could not be given to a task, and those that tasks have, have no place.
  placeless :
      (i k : ℕ) (s : RegServer O)
      → IsPlaced s
      → (k ≡ i) ⊎ (1 ≤ count_keys k s.reg_tasks)
      → (find k (erase i s.reg_map) ≡ none) × (count k (drop_socket i s.reg_list) ≡ 0)
  placeless i k s p (inl e) = (
    rw e (ground (arith, find-erase i i s.reg_map)),
    rw e (ground (arith, p.reg_placed i, count-drop_socket i i s.reg_list)),
  )
  placeless i k s p (inr h) = (
    ground (arith, p.reg_placed k, find-erase i k s.reg_map),
    ground (arith, p.reg_placed k, count-drop_socket k i s.reg_list),
  )

  reg_handler_full :
      (capacity i : ℕ) (g m : Guarded O) (c : SocketState)
      → find i g.server.reg_map ≡ some c
      → capacity ≤ length g.server.ssl_tasks + length g.server.reg_tasks
      → Turns capacity (reg_handler_in capacity i g) m
      → (m.held ≡ true)
        × (m.server.reg_map ≡ erase i g.server.reg_map)
        × (m.server.reg_list ≡ drop_socket i g.server.reg_list)
  unfolding reg_handler_in
  reg_handler_full capacity i g m c e busy turns =
      let full : ltb (length g.server.ssl_tasks + length g.server.reg_tasks) capacity ≡ false =
        ground arith in
      let stuck : reg_handler_in capacity i g ≡ record {
        server = record g.server {
          reg_list = drop_socket i g.server.reg_list;
          reg_map = erase i g.server.reg_map;
        };
        held = true;
      } =
        rw (full, e) refl in
      let (held, (map, list)) = Turns-SameSockets (rw stuck at turns) refl in (held, map, list)

  -- A socket `i` that can be read while all threads of the pool are busy, at a server whose sockets each
  -- have one place: whatever happens then, `m_reg_queue_mutex` is never unlocked; the list and the map are
  -- those without `i` and do not change any more, so that no connection of a device comes in; and neither
  -- `i` nor a socket that a task has at that time is in one of them again.
  pub reg_handler_busy :
      (capacity i k : ℕ) (g m : Guarded O) (c : SocketState)
      → IsPlaced g.server
      → find i g.server.reg_map ≡ some c
      → capacity ≤ length g.server.ssl_tasks + length g.server.reg_tasks
      → (k ≡ i) ⊎ (1 ≤ count_keys k g.server.reg_tasks)
      → Turns capacity (reg_handler_in capacity i g) m
      → (m.held ≡ true)
        × (m.server.reg_map ≡ erase i g.server.reg_map)
        × (m.server.reg_list ≡ drop_socket i g.server.reg_list)
        × (find k m.server.reg_map ≡ none)
        × (count k m.server.reg_list ≡ 0)
  reg_handler_busy capacity i k g m c p e busy has turns =
      let (held, map, list) = reg_handler_full capacity i g m c e busy turns in
      let (gone, out) = placeless i k g.server p has in (held, map, list, rw map gone, rw list out)
