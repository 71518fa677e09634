-- ===== src/Tests/Requests.antt =====
-- Runs of the theorems on CRPCServer.
use shuchuang.Shared.{◌+◌, ◌≡◌, refl, Bool, true, false, some, [], ◌∷◌, ◌==◌, string_key, arith}
use shuchuang.Device.Rpc.Server.{
  Request, RpcServer, add_request, run, give_task, handle_finish, post_answer, take_out,
}
use shuchuang.Device.Rpc.Server.Order.{
  Log, adds, dequeues, finishes, Reach, here, next, count, count_ended, answers, IsInOrder,
  Reach-IsInOrder,
}
use shuchuang.Device.Rpc.Server.Stuck.{run_busy}
use shuchuang.Tests.Objects.{Fields, nil}

abbrev opens : Request
opens = record { id = 1; text = "device.open" }

abbrev closes : Request
closes = record { id = 2; text = "device.close" }

abbrev waiting : RpcServer Fields
waiting = record {
  started = true;
  alive = true;
  joining = false;
  queue = [];
  running = [];
  posted = [];
}

abbrev quiet : Log Fields
quiet = record { server = waiting; added = []; gone = []; ended = []; lost = [] }

quiet-IsInOrder : IsInOrder quiet
unfolding count count_ended answers
quiet-IsInOrder = record { queued = refl; counted = λ p. refl; answered = refl }

-- One request is served, and another one waits.
abbrev served : Log Fields
served = record {
  server = record waiting { queue = closes ∷ []; posted = (1, nil) ∷ [] };
  added = opens ∷ closes ∷ [];
  gone = opens ∷ [];
  ended = (opens, some nil) ∷ [];
  lost = [];
}

served-Reach : Reach 1 quiet served
unfolding add_request run give_task handle_finish post_answer take_out
served-Reach =
    next (next (next (next here (adds opens)) (adds closes)) (dequeues refl))
      (finishes 0 (some nil))

Reach-IsInOrder_example : IsInOrder served
Reach-IsInOrder_example = Reach-IsInOrder quiet-IsInOrder served-Reach

-- A pool of one thread, which is busy.
abbrev busy : Log Fields
busy = record quiet { server = record waiting { queue = closes ∷ []; running = opens ∷ [] } }

abbrev is_close : Request → Bool
is_close r = r.text == "device.close"

run_busy_example :
    ((run 1 busy.server).alive ≡ false)
    × (count is_close (run 1 busy.server).running + count_ended is_close busy.ended
        ≡ count is_close busy.server.running + count_ended is_close busy.ended)
unfolding run give_task
run_busy_example =
    run_busy 1 busy (record busy { server = run 1 busy.server }) closes [] refl refl (omega arith)
      here is_close
