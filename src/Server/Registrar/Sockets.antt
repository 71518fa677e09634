-- ===== src/Server/Registrar/Sockets.antt =====
-- Where the sockets of CRegServer are: in the list and the map, or with one task.
use shuchuang.Shared.{
  ℕ, ◌+◌, ◌-◌, ◌≤◌, ◌≡◌, Option, none, some, List, [], ◌∷◌, ◌++◌, arith, ◌==◌, nat_key, nat_beq_iff,
  if◌then◌else◌, option-rule, if-rule,
}
use shuchuang.Shared.Dict.{Dict, find, erase, find-insert, find-erase}
use shuchuang.Server.Messages.{MsgHandler, SocketState}
use shuchuang.Server.Registrar.{
  RegServer, ssl_accept, ssl_handler, reg_handler, finish_reg, put_back, deliver, remove_socket,
  handle_offline, drop_socket,
}

-- How often a number stands in a list, and as a key.
unfoldable pub count : ℕ → List ℕ → ℕ
count i [] = 0
count i (k ∷ ks) = (if k == i then 1 else 0) + count i ks

unfoldable pub count_keys {ℓ} : {V : Type ℓ} → ℕ → Dict ℕ V → ℕ
count_keys i [] = 0
count_keys i ((k, v) ∷ m) = (if k == i then 1 else 0) + count_keys i m

abbrev pub occupied {ℓ} : {V : Type ℓ} → Option V → ℕ
occupied none = 0
occupied (some v) = 1

pub count-append : (i : ℕ) (ks ls : List ℕ) → count i (ks ++ ls) ≡ count i ks + count i ls
unfolding count
count-append i [] ls = omega arith
count-append i (k ∷ ks) ls = omega (arith, count-append i ks ls)

pub count-drop_socket :
    (i k : ℕ) (ks : List ℕ)
    → count i (drop_socket k ks) ≡ (if k == i then count i ks - 1 else count i ks)
unfolding count drop_socket
count-drop_socket i k [] = ground arith
count-drop_socket i k (l ∷ ks) = ground (arith, count-drop_socket i k ks)

count_keys-erase {ℓ} :
    {V : Type ℓ} (i k : ℕ) (m : Dict ℕ V)
    → count_keys i (erase k m) ≡ (if k == i then 0 else count_keys i m)
unfolding count_keys erase
count_keys-erase i k [] = ground arith
count_keys-erase i k ((l, v) ∷ m) = ground (arith, count_keys-erase i k m)

-- A socket stands in the list once if the map has it, and else not; one that a task has is in no map,
-- and no other task has it.
abbrev pub PlacedIn : ℕ → List ℕ → ℕ → ℕ → Type 0
PlacedIn i list held tasks = (count i list ≡ held) × (held + tasks ≤ 1)

pub record IsPlaced {O : Type 0} (s : RegServer O) : Type 0 where
  pub ssl_placed :
      (i : ℕ) → PlacedIn i s.ssl_list (occupied (find i s.ssl_map)) (count i s.ssl_tasks)
  pub reg_placed :
      (i : ℕ) → PlacedIn i s.reg_list (occupied (find i s.reg_map)) (count_keys i s.reg_tasks)

module _ {O : Type 0} where
  pub reg_handler-IsPlaced : (i : ℕ) (s : RegServer O) → IsPlaced s → IsPlaced (reg_handler i s)
  unfolding reg_handler count_keys
  reg_handler-IsPlaced i s p =
      option-rule IsPlaced (find i s.reg_map)
        (λ e. record {
          ssl_placed = p.ssl_placed;
          reg_placed = λ k. ground (arith, p.reg_placed k, count-drop_socket k i s.reg_list);
        })
        (λ c e. record {
          ssl_placed = p.ssl_placed;
          reg_placed = λ k.
              ground
                (arith, p.reg_placed k, count-drop_socket k i s.reg_list, find-erase i k s.reg_map);
        })

  pub ssl_handler-IsPlaced : (i : ℕ) (s : RegServer O) → IsPlaced s → IsPlaced (ssl_handler i s)
  unfolding ssl_handler count
  ssl_handler-IsPlaced i s p =
      option-rule IsPlaced (find i s.ssl_map)
        (λ e. record {
          reg_placed = p.reg_placed;
          ssl_placed = λ k. ground (arith, p.ssl_placed k, count-drop_socket k i s.ssl_list);
        })
        (λ c e. record {
          reg_placed = p.reg_placed;
          ssl_placed = λ k.
              ground
                (arith, p.ssl_placed k, count-drop_socket k i s.ssl_list, find-erase i k s.ssl_map);
        })

  pub put_back-IsPlaced :
      (i : ℕ) (c : SocketState) (s : RegServer O)
      → occupied (find i s.reg_map) + count_keys i s.reg_tasks ≡ 0
      → IsPlaced s
      → IsPlaced (put_back i c s)
  unfolding put_back count
  put_back-IsPlaced i c s free p = record {
    ssl_placed = p.ssl_placed;
    reg_placed = λ k. ground (
      arith,
      p.reg_placed k,
      count-append k s.reg_list (i ∷ []),
      find-insert i k c s.reg_map,
      nat_beq_iff i k,
    );
  }

  pub ssl_accept-IsPlaced :
      (i : ℕ) (s : RegServer O)
      → occupied (find i s.ssl_map) + count i s.ssl_tasks ≡ 0
      → IsPlaced s
      → IsPlaced (ssl_accept i s)
  unfolding ssl_accept count
  ssl_accept-IsPlaced i s free p = record {
    reg_placed = p.reg_placed;
    ssl_placed = λ k. ground (
      arith,
      p.ssl_placed k,
      count-append k s.ssl_list (i ∷ []),
      find-insert i k SocketState.disconnected s.ssl_map,
      nat_beq_iff i k,
    );
  }

  deliver-IsPlaced :
      (id : ℕ) (o : Option O) (s : RegServer O) → IsPlaced s → IsPlaced (deliver id o s)
  unfolding deliver
  deliver-IsPlaced id o s p =
      option-rule IsPlaced (find id s.request_map) (λ e. p)
        (λ r e. record { ssl_placed = p.ssl_placed; reg_placed = p.reg_placed })

  -- The task of a socket is over, and the socket is nowhere for a while.
  pub ended-IsPlaced :
      (i : ℕ) (s : RegServer O)
      → IsPlaced s
      → IsPlaced (record s { reg_tasks = erase i s.reg_tasks })
  ended-IsPlaced i s p = record {
    ssl_placed = p.ssl_placed;
    reg_placed = λ k. ground (arith, p.reg_placed k, count_keys-erase k i s.reg_tasks);
  }

  pub finish_reg-IsPlaced :
      (h : MsgHandler O) (s : RegServer O)
      → occupied (find h.sock s.reg_map) + count_keys h.sock s.reg_tasks ≡ 0
      → IsPlaced s
      → IsPlaced (finish_reg h s)
  unfolding finish_reg
  finish_reg-IsPlaced h s free p =
      let back = put_back-IsPlaced h.sock h.state s free p in
      if-rule IsPlaced (h.req_id == 0)
        (λ _.
          if-rule IsPlaced h.receive (λ _. back)
            (λ _. record { ssl_placed = p.ssl_placed; reg_placed = p.reg_placed }))
        (λ _.
          if-rule IsPlaced (h.req_id == 1) (λ _. back)
            (λ _. deliver-IsPlaced h.req_id h.http_response (put_back h.sock h.state s) back))

  pub free_after :
      (i : ℕ) (s : RegServer O)
      → count_keys i s.reg_tasks ≡ 1
      → IsPlaced s
      → occupied (find i s.reg_map) + count_keys i (erase i s.reg_tasks) ≡ 0
  free_after i s one p =
      ground (arith, p.reg_placed i, count_keys-erase i i s.reg_tasks, nat_beq_iff i i)

  pub handle_offline-IsPlaced :
      (i : ℕ) (s : RegServer O) → IsPlaced s → IsPlaced (handle_offline i s)
  unfolding handle_offline remove_socket
  handle_offline-IsPlaced i s p =
      option-rule IsPlaced (find i s.reg_map) (λ e. p)
        (λ c e. record {
          ssl_placed = p.ssl_placed;
          reg_placed = λ k.
              ground
                (arith, p.reg_placed k, count-drop_socket k i s.reg_list, find-erase i k s.reg_map);
        })
