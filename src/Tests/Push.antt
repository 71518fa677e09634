-- ===== src/Tests/Push.antt =====
-- Runs of the theorems on the loops of the transmit server that an exception ends, and on the one that
-- waits for the sockets.
use shuchuang.Shared.{◌≤◌, ◌≡◌, refl, true, false, none, [], ◌∷◌, arith, inr, string_key, nat_key}
use shuchuang.Shared.Dict.{find, erase}
use shuchuang.Shared.Outcome.{thrown}
use shuchuang.Server.Devices.{bmob_ios, went_offline, pushes}
use shuchuang.Server.Devices.Interrupted.{go_round}
use shuchuang.Server.PushCenter.{PushCenter, response, init}
use shuchuang.Server.PushCenter.Missing.{returns, init-go_round}
use shuchuang.Server.Messages.{SocketState}
use shuchuang.Server.Registrar.{drop_socket}
use shuchuang.Server.Registrar.Sockets.{count, count_keys, IsPlaced}
use shuchuang.Server.Registrar.Pool.{Guarded, reg_handler_in, here, reg_handler_busy}
use shuchuang.Server.Registrar.Wakes.{
  Loop, copying, selecting, push_back, write_inner_socket, copy_list, Reach, next, pushes as adds,
  writes, copies, comes_back, reads, ends, read_inner_socket, Reach-watches,
}
use shuchuang.Server.Registrar.Wakes
use shuchuang.Tests.Objects.{Fields, fields_json}
use shuchuang.Tests.Engine.{honest}
use shuchuang.Tests.Server.{connected, with_connected}

abbrev no_service : PushCenter Fields
no_service = record { bmob_info = none; tried = [] }

init-go_round_example :
    go_round
      (returns (λ r. response) (λ n. "text") (init (λ o. none) none no_service).1)
      900000000
      ("a" ∷ "b" ∷ [])
      with_connected
    ≡ (
      thrown,
      record with_connected {
        device_map = [];
        device_id_map = [];
        pushed = bmob_ios "phone" (went_offline "a") ∷ [];
      },
    )
unfolding find erase pushes
init-go_round_example =
    init-go_round (λ r. response) (λ n. "text") (λ o. none) no_service 900000000 "a" ("b" ∷ [])
      with_connected connected (bmob_ios "phone" (went_offline "a")) [] refl refl refl refl refl

-- A server that listens to the sockets 4 and 5, whose one thread reads the socket 6.
abbrev full : Guarded Fields
full = record {
  server = record {
    started = true;
    ssl_map = [];
    ssl_list = [];
    reg_map = (4, SocketState.connected) ∷ (5, SocketState.connected) ∷ [];
    reg_list = 4 ∷ 5 ∷ [];
    request_map = [];
    ssl_tasks = [];
    reg_tasks = (6, SocketState.connected) ∷ [];
    closed = [];
    written = [];
    released = [];
  };
  held = false;
}

full-IsPlaced : IsPlaced full.server
unfolding count count_keys find
full-IsPlaced = record { ssl_placed = λ i. ground arith; reg_placed = λ i. ground arith }

reg_handler_busy_example :
    ((reg_handler_in 1 4 full).held ≡ true)
    × ((reg_handler_in 1 4 full).server.reg_map ≡ (5, SocketState.connected) ∷ [])
    × ((reg_handler_in 1 4 full).server.reg_list ≡ 5 ∷ [])
    × (find 6 (reg_handler_in 1 4 full).server.reg_map ≡ none)
    × (count 6 (reg_handler_in 1 4 full).server.reg_list ≡ 0)
unfolding find erase drop_socket count count_keys
reg_handler_busy_example =
    reg_handler_busy 1 4 6 full (reg_handler_in 1 4 full) SocketState.connected full-IsPlaced refl
      (omega arith) (inr (omega arith)) here

abbrev at_start : Loop
at_start = record {
  phase = copying;
  listed = [];
  copied = [];
  bytes = 0;
  writers = 0;
  connected = true;
  held = false;
}

abbrev waiting : Loop
waiting = record {
  phase = selecting;
  listed = 4 ∷ [];
  copied = 4 ∷ [];
  bytes = 0;
  writers = 0;
  connected = true;
  held = false;
}

waiting-Reach : Reach at_start waiting
unfolding push_back write_inner_socket read_inner_socket copy_list drop_socket count
waiting-Reach =
    next
      (next
        (next
          (next (next (next (next Wakes.here (adds 4)) (writes (omega arith) refl)) (copies refl))
            (comes_back true [] refl (λ _. omega arith)))
          (reads [] refl))
        (ends refl))
      (copies refl)

Reach-watches_example : count 4 waiting.listed ≤ count 4 waiting.copied
Reach-watches_example = Reach-watches at_start waiting refl refl waiting-Reach refl refl 4
