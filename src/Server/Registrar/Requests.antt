-- ===== src/Server/Registrar/Requests.antt =====
-- The requests of phones that wait at CRegServer: each is released in the end, with the answer of its
-- device if there is one.
use shuchuang.Shared.{
  ℕ, ◌+◌, ◌≤◌, ◌<◌, ◌≡◌, true, false, Option, some, List, [], ◌∷◌, ◌++◌, arith, ◌==◌, nat_key,
  nat_beq_iff, if◌then◌else◌, option-rule, if-rule, Bool-cases, ◌⊎◌, inl, inr,
}
use shuchuang.Shared.Dict.{Dict, find, erase, find-erase}
use shuchuang.Server.Messages.{MsgHandler, ssl, reg}
use shuchuang.Server.Registrar.{
  RegServer, RequestInfo, handle_task_finish, finish_reg, put_back, deliver, http_request_timer,
  drop_socket, waiting, given_up, timed_out,
}

-- How often a thread was released.
unfoldable pub releases {ℓ} : {A : Type ℓ} → ℕ → List (ℕ × A) → ℕ
releases t [] = 0
releases t ((k, o) ∷ l) = (if k == t then 1 else 0) + releases t l

releases-append {ℓ} :
    {A : Type ℓ} (t : ℕ) (l m : List (ℕ × A)) → releases t (l ++ m) ≡ releases t l + releases t m
unfolding releases
releases-append t [] m = omega arith
releases-append t (e ∷ l) m = omega (arith, releases-append t l m)

module _ {O : Type 0} where
  find-waiting :
      (now k : ℕ) (r : RequestInfo O) (m : Dict ℕ (RequestInfo O))
      → find k m ≡ some r
      → timed_out now k r ≡ false
      → find k (waiting now m) ≡ some r
  unfolding find waiting
  find-waiting now k r [] h t = cc
  find-waiting now k r ((l, q) ∷ m) h t = ground (arith, find-waiting now k r m, nat_beq_iff l k)

  timed_out-given_up :
      (now k : ℕ) (r : RequestInfo O) (m : Dict ℕ (RequestInfo O))
      → find k m ≡ some r
      → timed_out now k r ≡ true
      → 0 < releases r.src_id (given_up now m)
  unfolding find given_up releases
  timed_out-given_up now k r [] h t = cc
  timed_out-given_up now k r ((l, q) ∷ m) h t =
      ground (arith, timed_out-given_up now k r m, nat_beq_iff l k, nat_beq_iff r.src_id r.src_id)

  -- A request waits under a number and its thread was released n times, or more often than that.
  abbrev pub Pending : ℕ → RequestInfo O → ℕ → RegServer O → Type 0
  Pending k r n s =
      ((find k s.request_map ≡ some r) × (n ≤ releases r.src_id s.released))
      ⊎ (n < releases r.src_id s.released)

  deliver-Pending :
      (k id : ℕ) (r : RequestInfo O) (n : ℕ) (o : Option O) (s : RegServer O)
      → Pending k r n s
      → Pending k r n (deliver id o s)
  unfolding deliver releases
  deliver-Pending k id r n o s (inr done) =
      option-rule (Pending k r n) (find id s.request_map) (λ e. inr done)
        (λ q e. inr (omega (arith, releases-append r.src_id s.released ((q.src_id, o) ∷ []))))
  deliver-Pending k id r n o s (inl waits) = elim (Bool-cases (id == k)) [
    | inl same ↦
        option-rule (Pending k r n) (find id s.request_map) (λ e. inl waits)
          (λ q e. inr (
            ground (
              arith,
              releases-append r.src_id s.released ((q.src_id, o) ∷ []),
              nat_beq_iff id k,
              nat_beq_iff q.src_id r.src_id,
            )))
    | inr differ ↦
        option-rule (Pending k r n) (find id s.request_map) (λ e. inl waits)
          (λ q e. inl (
            rw (find-erase id k s.request_map, differ) waits.0,
            omega (arith, releases-append r.src_id s.released ((q.src_id, o) ∷ [])),
          ))
  ]

  pub http_request_timer-Pending :
      (k now : ℕ) (r : RequestInfo O) (n : ℕ) (s : RegServer O)
      → Pending k r n s
      → Pending k r n (http_request_timer now s)
  unfolding http_request_timer
  http_request_timer-Pending k now r n s (inr done) =
      inr (omega (arith, releases-append r.src_id s.released (given_up now s.request_map)))
  http_request_timer-Pending k now r n s (inl waits) = elim (Bool-cases (timed_out now k r)) [
    | inl over ↦ inr (
        omega (
          arith,
          releases-append r.src_id s.released (given_up now s.request_map),
          timed_out-given_up now k r s.request_map waits.0 over,
        ))
    | inr more ↦ inl (
      find-waiting now k r s.request_map waits.0 more,
      omega (arith, releases-append r.src_id s.released (given_up now s.request_map)),
    )
  ]

  -- A round of the timer after the time of a request is over releases it.
  pub http_request_timer-releases :
      (k now : ℕ) (r : RequestInfo O) (n : ℕ) (s : RegServer O)
      → timed_out now k r ≡ true
      → Pending k r n s
      → n < releases r.src_id (http_request_timer now s).released
  unfolding http_request_timer
  http_request_timer-releases k now r n s over (inr done) =
      omega (arith, releases-append r.src_id s.released (given_up now s.request_map))
  http_request_timer-releases k now r n s over (inl waits) = omega (
    arith,
    releases-append r.src_id s.released (given_up now s.request_map),
    timed_out-given_up now k r s.request_map waits.0 over,
  )

  finish_reg-Pending :
      (k : ℕ) (r : RequestInfo O) (n : ℕ) (h : MsgHandler O) (s : RegServer O)
      → Pending k r n s
      → Pending k r n (finish_reg h s)
  unfolding finish_reg put_back
  finish_reg-Pending k r n h s p =
      if-rule (Pending k r n) (h.req_id == 0)
        (λ _. if-rule (Pending k r n) h.receive (λ _. p) (λ _. p))
        (λ _.
          if-rule (Pending k r n) (h.req_id == 1) (λ _. p)
            (λ _. deliver-Pending k h.req_id r n h.http_response (put_back h.sock h.state s) p))

  pub handle_task_finish-Pending :
      (k : ℕ) (r : RequestInfo O) (n : ℕ) (h : MsgHandler O) (s : RegServer O)
      → Pending k r n s
      → Pending k r n (handle_task_finish h s)
  unfolding handle_task_finish
  handle_task_finish-Pending k r n h s p =
      elim h.kind
        as (λ x. Pending k r n (elim x [
          | ssl ↦ record s {
            ssl_tasks = drop_socket h.sock s.ssl_tasks;
            closed = s.closed ++ h.sock ∷ [];
          }
          | reg ↦ finish_reg h (record s { reg_tasks = erase h.sock s.reg_tasks })
        ])) [
          | ssl ↦ p
          | reg ↦ finish_reg-Pending k r n h (record s { reg_tasks = erase h.sock s.reg_tasks }) p
        ]
