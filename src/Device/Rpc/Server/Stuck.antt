-- ===== src/Device/Rpc/Server/Stuck.antt =====
-- CRPCServer, Src/Device/RPC/RPCServer.cpp, when more requests come at once than its pool has threads.
use shuchuang.Shared.{
  ℕ, ◌+◌, ◌≤◌, ◌≡◌, refl, Bool, true, false, Option, none, some, List, [], ◌∷◌, ◌++◌, arith, length,
  ltb, ◌∙◌, sym,
}
use shuchuang.Device.Rpc.Server.{
  Request, take_out, start, stop, add_request, run, handle_finish, give_task, post_answer,
}
use shuchuang.Device.Rpc.Server.Order.{
  Log, Step, starts, stops, adds, dequeues, finishes, Reach, here, next, count, count_ended,
  count-take_out, count_ended-append, ended_now,
}

module _ {O : Type 0} where
  -- The clients that run and those that have ended, as many as pass a test.
  abbrev clients : (Request → Bool) → Log O → ℕ
  clients p l = count p l.server.running + count_ended p l.ended

  -- The thread has ended and is not started again.
  pub record IsDead (l : Log O) : Type 0 where
    pub started : l.server.started ≡ true
    pub ended : l.server.alive ≡ false

  finishes-clients :
      (p : Request → Bool) (k : ℕ) (response : Option O) (l : Log O)
      (x : Option (Request × List Request))
      → take_out k l.server.running ≡ x
      → count p (post_answer x response l.server).running
          + count_ended p (l.ended ++ ended_now x response)
        ≡ clients p l
  unfolding post_answer count_ended
  finishes-clients p k response l none e = omega (arith, count_ended-append p l.ended [])
  finishes-clients p k response l (some (r, left)) e = omega (
    arith,
    count-take_out p k l.server.running r left e,
    count_ended-append p l.ended ((r, response) ∷ []),
  )

  finished-IsDead :
      (response : Option O) (l : Log O) (x : Option (Request × List Request))
      (more : List (Request × Option O))
      → IsDead l
      → IsDead (record l { server = post_answer x response l.server; ended = more })
  unfolding post_answer
  finished-IsDead response l none more d = record { started = d.started; ended = d.ended }
  finished-IsDead response l (some (r, left)) more d = record {
    started = d.started;
    ended = d.ended;
  }

  Step-IsDead :
      {capacity : ℕ} {l m : Log O} (p : Request → Bool)
      → Step capacity l m
      → IsDead l
      → IsDead m × (clients p m ≡ clients p l)
  unfolding start stop add_request handle_finish
  Step-IsDead {l} p starts d = rw d.started (record { started = refl; ended = d.ended }, refl)
  Step-IsDead {l} p (stops h) d = rw h (record { started = refl; ended = d.ended }, refl)
  Step-IsDead {l} p (adds r) d = (record { started = d.started; ended = d.ended }, refl)
  Step-IsDead {l} p (dequeues h) d = absurd (let e : true ≡ false = sym h ∙ d.ended in cc)
  Step-IsDead {l} p (finishes k response) d =
      (finished-IsDead response l _ _ d, finishes-clients p k response l _ refl)

  Reach-IsDead :
      {capacity : ℕ} {l m : Log O} (p : Request → Bool)
      → Reach capacity l m
      → IsDead l
      → IsDead m × (clients p m ≡ clients p l)
  Reach-IsDead p here d = (d, refl)
  Reach-IsDead p (next r s) d =
      let (dm, em) = Reach-IsDead p r d in let (dn, en) = Step-IsDead p s dm in (dn, en ∙ em)

  -- A request that the thread takes while all threads of the pool are busy ends the thread for good:
  -- whatever happens then, no request is given to a client any more, neither this one nor a later
  -- one, while the clients that run still end.
  pub run_busy :
      (capacity : ℕ) (l m : Log O) (r : Request) (rest : List Request)
      → l.server.started ≡ true
      → l.server.queue ≡ r ∷ rest
      → capacity ≤ length l.server.running
      → Reach capacity (record l { server = run capacity l.server }) m
      → (p : Request → Bool)
      → (m.server.alive ≡ false)
        × (count p m.server.running + count_ended p m.ended
            ≡ count p l.server.running + count_ended p l.ended)
  unfolding run give_task
  run_busy capacity l m r rest s q busy reach p =
      let no_thread : ltb (length l.server.running) capacity ≡ false = ground arith in
      let (d, e) =
        Reach-IsDead p reach (rw (q, no_thread) (record { started = s; ended = refl })) in
      (d.ended, e ∙ rw (q, no_thread) refl)
