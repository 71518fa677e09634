-- ===== src/Device/Rpc/Server/Order.antt =====
-- The order in which CRPCServer, Src/Device/RPC/RPCServer.cpp, serves its requests.
use mathlib.Core.List.{append_assoc, append-nil}
use shuchuang.Shared.{
  ℕ, zero, suc, ◌+◌, ◌≡◌, refl, sym, ap, ◌∙◌, Bool, true, Option, none, some, List, [], ◌∷◌, ◌++◌,
  arith, if◌then◌else◌, length, ltb, if-rule, Bool-cases, Option-cases, inl, inr,
}
use shuchuang.Device.Rpc.Server.{
  Request, RpcServer, take_out, start, stop, add_request, run, handle_finish, answer, give_task,
  post_answer,
}

-- The server with what has happened: the requests that came, those that left the queue, those whose
-- client has ended, with its response, and those that were lost.
pub record Log (O : Type 0) : Type 0 where
  pub server : RpcServer O
  pub added : List Request
  pub gone : List Request
  pub ended : List (Request × Option O)
  pub lost : List Request

abbrev pub head_of : List Request → List Request
head_of [] = []
head_of (r ∷ rs) = r ∷ []

module _ {O : Type 0} where
  abbrev pub lost_now : ℕ → RpcServer O → List Request
  lost_now capacity s = if ltb (length s.running) capacity then [] else head_of s.queue

  abbrev pub ended_now : Option (Request × List Request) → Option O → List (Request × Option O)
  ended_now none response = []
  ended_now (some (r, left)) response = (r, response) ∷ []

  -- What can happen, in any order. `capacity` is the number of threads of the pool.
  pub data Step (capacity : ℕ) (l : Log O) : Log O → Type 0 where
    starts : Step capacity l (record l { server = start l.server })
    stops :
        l.server.started ≡ true
        → Step capacity l (record l {
          server = stop l.server;
          gone = l.gone ++ l.server.queue;
          lost = l.lost ++ l.server.queue;
        })
    adds :
        (r : Request)
        → Step capacity l (record l { server = add_request r l.server; added = l.added ++ r ∷ [] })
    dequeues :
        l.server.alive ≡ true
        → Step capacity l (record l {
          server = run capacity l.server;
          gone = l.gone ++ head_of l.server.queue;
          lost = l.lost ++ lost_now capacity l.server;
        })
    finishes :
        (k : ℕ) (response : Option O)
        → Step capacity l (record l {
          server = handle_finish k response l.server;
          ended = l.ended ++ ended_now (take_out k l.server.running) response;
        })

  pub data Reach (capacity : ℕ) (l : Log O) : Log O → Type 0 where
    here : Reach capacity l l
    next : {m n : Log O} → Reach capacity l m → Step capacity m n → Reach capacity l n

-- How many requests pass a test.
unfoldable pub count : (Request → Bool) → List Request → ℕ
count p [] = 0
count p (r ∷ rs) = (if p r then 1 else 0) + count p rs

unfoldable pub count_ended : {O : Type 0} → (Request → Bool) → List (Request × Option O) → ℕ
count_ended p [] = 0
count_ended p ((r, o) ∷ rs) = (if p r then 1 else 0) + count_ended p rs

count-append :
    (p : Request → Bool) (rs ss : List Request) → count p (rs ++ ss) ≡ count p rs + count p ss
unfolding count
count-append p [] ss = omega arith
count-append p (r ∷ rs) ss = omega (arith, count-append p rs ss)

pub count-take_out :
    (p : Request → Bool) (k : ℕ) (rs : List Request) (r : Request) (left : List Request)
    → take_out k rs ≡ some (r, left)
    → count p rs ≡ (if p r then 1 else 0) + count p left
unfolding count take_out
count-take_out p k [] r left h = ground arith
count-take_out p zero (c ∷ rs) r left h = ground arith
count-take_out p (suc k) (c ∷ rs) r left h = elim (Option-cases (take_out k rs)) [
  | inl e ↦ ground arith
  | inr ((d, rest), e) ↦ ground (arith, count-take_out p k rs d rest e)
]

module _ {O : Type 0} where
  pub count_ended-append :
      (p : Request → Bool) (xs ys : List (Request × Option O))
      → count_ended p (xs ++ ys) ≡ count_ended p xs + count_ended p ys
  unfolding count_ended
  count_ended-append p [] ys = omega arith
  count_ended-append p (x ∷ xs) ys = omega (arith, count_ended-append p xs ys)

  -- The answers to the clients that have ended, in their order: the response of each that has one,
  -- with the number of its request.
  unfoldable pub answers : List (Request × Option O) → List (ℕ × O)
  answers [] = []
  answers ((r, none) ∷ xs) = answers xs
  answers ((r, some o) ∷ xs) = (r.id, o) ∷ answers xs

  answers-append :
      (xs : List (Request × Option O)) (r : Request) (o : Option O)
      → answers (xs ++ (r, o) ∷ []) ≡ answers xs ++ answer r o
  unfolding answers
  answers-append [] r none = refl
  answers-append [] r (some o) = refl
  answers-append ((q, none) ∷ xs) r o = answers-append xs r o
  answers-append ((q, some a) ∷ xs) r o = ap (λ l. (q.id, a) ∷ l) (answers-append xs r o)

  pub record IsInOrder (l : Log O) : Type 0 where
    pub queued : l.added ≡ l.gone ++ l.server.queue
    pub counted :
        (p : Request → Bool)
        → count p l.gone ≡ count p l.server.running + count_ended p l.ended + count p l.lost
    pub answered : l.server.posted ≡ answers l.ended

  stops-IsInOrder :
      (l : Log O)
      → l.server.started ≡ true
      → IsInOrder l
      → IsInOrder (record l {
        server = stop l.server;
        gone = l.gone ++ l.server.queue;
        lost = l.lost ++ l.server.queue;
      })
  unfolding stop
  stops-IsInOrder l h i = rw h (record {
    queued = i.queued ∙ sym (append-nil _);
    counted = λ p. omega (
      arith,
      i.counted p,
      count-append p l.gone l.server.queue,
      count-append p l.lost l.server.queue,
    );
    answered = i.answered;
  })

  -- A round of `run` takes the first request out of the queue.
  round-IsInOrder :
      (capacity : ℕ) (l : Log O) (r : Request) (rest : List Request)
      → l.server.queue ≡ r ∷ rest
      → IsInOrder l
      → IsInOrder (record l {
        server = give_task capacity r rest l.server;
        gone = l.gone ++ r ∷ [];
        lost = l.lost ++ (if ltb (length l.server.running) capacity then [] else r ∷ []);
      })
  unfolding give_task
  round-IsInOrder capacity l r rest e i =
      elim (Bool-cases (ltb (length l.server.running) capacity)) [
        | inl free ↦ rw free (record {
          queued = i.queued ∙ rw e (sym (append_assoc l.gone (r ∷ []) rest));
          counted = λ p. rw append-nil (
              omega (
                arith,
                i.counted p,
                count-append p l.gone (r ∷ []),
                count-append p l.server.running (r ∷ []),
              ));
          answered = i.answered;
        })
        | inr busy ↦ rw busy (record {
          queued = i.queued ∙ rw e (sym (append_assoc l.gone (r ∷ []) rest));
          counted = λ p.
              omega (
                arith,
                i.counted p,
                count-append p l.gone (r ∷ []),
                count-append p l.lost (r ∷ []),
              );
          answered = i.answered;
        })
      ]

  dequeues-IsInOrder :
      (capacity : ℕ) (l : Log O) (queue : List Request)
      → l.server.queue ≡ queue
      → IsInOrder l
      → IsInOrder (record l {
        server = run capacity l.server;
        gone = l.gone ++ head_of l.server.queue;
        lost = l.lost ++ lost_now capacity l.server;
      })
  unfolding run
  dequeues-IsInOrder capacity l [] e i = rw e (record {
    queued = i.queued ∙ rw e (ap (λ g. g ++ []) (sym (append-nil l.gone)));
    counted = λ p.
        if-rule
          (λ x.
            count p (l.gone ++ [])
            ≡ count p l.server.running + count_ended p l.ended + count p (l.lost ++ x))
          (ltb (length l.server.running) capacity)
          (λ _. rw (append-nil l.gone, append-nil l.lost) (i.counted p))
          (λ _. rw (append-nil l.gone, append-nil l.lost) (i.counted p));
    answered = i.answered;
  })
  dequeues-IsInOrder capacity l (r ∷ rest) e i = rw e (round-IsInOrder capacity l r rest e i)

  finishes-IsInOrder :
      (k : ℕ) (response : Option O) (l : Log O) (x : Option (Request × List Request))
      → take_out k l.server.running ≡ x
      → IsInOrder l
      → IsInOrder (record l {
        server = post_answer x response l.server;
        ended = l.ended ++ ended_now x response;
      })
  unfolding post_answer count_ended answers
  finishes-IsInOrder k response l none e i =
      rw append-nil (record { queued = i.queued; counted = i.counted; answered = i.answered })
  finishes-IsInOrder k response l (some (r, left)) e i = record {
    queued = i.queued;
    counted = λ p. omega (
      arith,
      i.counted p,
      count-take_out p k l.server.running r left e,
      count_ended-append p l.ended ((r, response) ∷ []),
    );
    answered = rw (i.answered) (sym (answers-append l.ended r response));
  }

  Step-IsInOrder : {capacity : ℕ} {l m : Log O} → Step capacity l m → IsInOrder l → IsInOrder m
  unfolding start add_request handle_finish
  Step-IsInOrder {l} starts i =
      if-rule (λ s. IsInOrder (record l { server = s })) l.server.started (λ _. i)
        (λ _. record { queued = i.queued; counted = i.counted; answered = i.answered })
  Step-IsInOrder {l} (stops h) i = stops-IsInOrder l h i
  Step-IsInOrder {l} (adds r) i = record {
    queued = ap (λ a. a ++ r ∷ []) i.queued ∙ append_assoc l.gone l.server.queue (r ∷ []);
    counted = i.counted;
    answered = i.answered;
  }
  Step-IsInOrder {capacity} {l} (dequeues h) i = dequeues-IsInOrder capacity l l.server.queue refl i
  Step-IsInOrder {l} (finishes k response) i = finishes-IsInOrder k response l _ refl i

  -- In every state of the server the requests that came are those that have left the queue and those
  -- that wait, in the order in which they came; each that has left is given to one client, which runs
  -- or has ended, or is lost; and the answers that were posted are those of the clients that have
  -- ended, each with the number of its request.
  pub Reach-IsInOrder :
      {capacity : ℕ} {l m : Log O} → IsInOrder l → Reach capacity l m → IsInOrder m
  Reach-IsInOrder i here = i
  Reach-IsInOrder i (next r s) = Step-IsInOrder s (Reach-IsInOrder i r)
