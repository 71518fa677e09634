-- ===== src/Server/Registrar/Released.antt =====
-- Whatever happens at CRegServer, a phone that waits is released.
use shuchuang.Shared.{ℕ, ◌+◌, ◌<◌, ◌≡◌, none, arith, nat_key, nat_beq_iff, option-rule, inl, inr}
use shuchuang.Shared.Dict.{find, insert, find-insert}
use shuchuang.Shared.Poco.{Json}
use shuchuang.Server.Devices.{DeviceManager, get_device}
use shuchuang.Server.Registrar.{
  RegServer, RequestInfo, Sending, ssl_accept, reg_accept, ssl_handler, reg_handler, remove_socket,
  handle_offline, http_request_timer, send_request,
}
use shuchuang.Server.Registrar.Requests.{
  releases, Pending, http_request_timer-Pending, http_request_timer-releases,
  handle_task_finish-Pending,
}
use shuchuang.Server.Registrar.Runs.{
  Step, accepts_ssl, accepts_reg, reads_ssl, reads_reg, ends_ssl, ends_reg, loses, sends, checks,
  Reach, here, next,
}

module _ {O : Type 0} ⦃j : Json O⦄ where
  abbrev AfterSending : ℕ → RequestInfo O → ℕ → Sending O × RegServer O → Type 0
  AfterSending k r n x = Pending k r n x.1

  abbrev WaitsPending : ℕ → RequestInfo O → ℕ → Sending O × RegServer O → Type 0
  WaitsPending k r n x = x.0 ≡ Sending.waits → Pending k r n x.1

  -- An entry that is there stays where one is inserted.
  insert-Pending :
      (k : ℕ) (r : RequestInfo O) (n : ℕ) (now : ℕ) (q : RequestInfo O) (s : RegServer O)
      → Pending k r n s
      → Pending k r n (record s { request_map = insert now q s.request_map })
  insert-Pending k r n now q s (inr done) = inr done
  insert-Pending k r n now q s (inl waits) =
      inl (ground (arith, find-insert now k q s.request_map, nat_beq_iff now k), waits.1)

  -- A request that is sent later, under another number or the same, leaves one that waits.
  send_request-Pending :
      (k : ℕ) (r : RequestInfo O) (n : ℕ) (devices : DeviceManager) (now : ℕ) (q : RequestInfo O)
      (s : RegServer O)
      → Pending k r n s
      → Pending k r n (send_request devices now q s).1
  unfolding send_request
  send_request-Pending k r n devices now q s p =
      option-rule (AfterSending k r n) (get_device q.uuid devices) (λ e. p)
        (λ d e.
          option-rule (AfterSending k r n) (find d.id s.reg_map) (λ e. p)
            (λ c e. insert-Pending k r n now q s p))

  Step-Pending :
      (k : ℕ) (r : RequestInfo O) (n : ℕ) {s t : RegServer O}
      → Step s t
      → Pending k r n s
      → Pending k r n t
  unfolding ssl_accept reg_accept ssl_handler reg_handler handle_offline remove_socket
  Step-Pending k r n (accepts_ssl i free) p = p
  Step-Pending k r n (accepts_reg i free) p = p
  Step-Pending k r n {s} (reads_ssl i) p =
      option-rule (Pending k r n) (find i s.ssl_map) (λ e. p) (λ c e. p)
  Step-Pending k r n {s} (reads_reg i) p =
      option-rule (Pending k r n) (find i s.reg_map) (λ e. p) (λ c e. p)
  Step-Pending k r n {s} (ends_ssl h e one) p = handle_task_finish-Pending k r n h s p
  Step-Pending k r n {s} (ends_reg h e one) p = handle_task_finish-Pending k r n h s p
  Step-Pending k r n {s} (loses i) p =
      option-rule (Pending k r n) (find i s.reg_map) (λ e. p) (λ c e. p)
  Step-Pending k r n {s} (sends devices now q) p = send_request-Pending k r n devices now q s p
  Step-Pending k r n {s} (checks now) p = http_request_timer-Pending k now r n s p

  Reach-Pending :
      (k : ℕ) (r : RequestInfo O) (n : ℕ) {s t : RegServer O}
      → Reach s t
      → Pending k r n s
      → Pending k r n t
  Reach-Pending k r n here p = p
  Reach-Pending k r n (next w st) p = Step-Pending k r n st (Reach-Pending k r n w p)

  waits-Pending :
      (devices : DeviceManager) (now : ℕ) (r : RequestInfo O) (s : RegServer O)
      → find now s.request_map ≡ none
      → (send_request devices now r s).0 ≡ Sending.waits
      → Pending now r (releases r.src_id s.released) (send_request devices now r s).1
  unfolding send_request
  waits-Pending devices now r s fresh =
      option-rule (WaitsPending now r (releases r.src_id s.released)) (get_device r.uuid devices)
        (λ e w. cc)
        (λ d e.
          option-rule (WaitsPending now r (releases r.src_id s.released)) (find d.id s.reg_map)
            (λ e w. cc)
            (λ c e w. inl (
              ground (arith, find-insert now now r s.request_map, nat_beq_iff now now),
              omega arith,
            )))

  -- A request that waits, under a number that no other request has, is released, once more than its
  -- thread was before: whatever happens, by the first round of the timer after its time is over at
  -- the latest.
  pub send_request-releases :
      (devices : DeviceManager) (now later : ℕ) (r : RequestInfo O) (s : RegServer O)
      {t : RegServer O}
      → find now s.request_map ≡ none
      → (send_request devices now r s).0 ≡ Sending.waits
      → Reach (send_request devices now r s).1 t
      → now + r.timeout < later
      → releases r.src_id s.released < releases r.src_id (http_request_timer later t).released
  send_request-releases devices now later r s {t} fresh w run over =
      http_request_timer-releases now later r (releases r.src_id s.released) t (ground arith) (
        Reach-Pending now r (releases r.src_id s.released) run
          (waits-Pending devices now r s fresh w))
