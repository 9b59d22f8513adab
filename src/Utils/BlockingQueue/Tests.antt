-- ===== src/Utils/BlockingQueue/Tests.antt =====
-- Runs of src/utils/mpmc_blocking_queue.h, and the theorems at concrete queues.
use mcp_server_cpp.Prelude.{ℕ, List, [], ◌∷◌, ◌++◌, none, some, true, false, ◌≡◌, refl, arith}
use mcp_server_cpp.Utils.CircularQ
use mcp_server_cpp.Utils.CircularQ.Refine.{contents}
use mcp_server_cpp.Utils.BlockingQueue.{
  try_locked, BlockingQueue, running, drain, Call, enqueues, tries, dequeues, stops_gracefully,
  blocked, done, accepted, got, step, run, after, enqueue, try_enqueue, dequeue, take_front,
  stop_gracefully, all_added, all_removed,
}
use mcp_server_cpp.Utils.BlockingQueue.Spec
use mcp_server_cpp.Utils.BlockingQueue.Refine.{IsValid, view, run_refines}
use mcp_server_cpp.Utils.BlockingQueue.Delivery.{run_fifo, drain_delivers}

abbrev two_held : BlockingQueue ℕ
two_held = record {
  queue = record { max_items = 3; head = 2; tail = 1; overrun_counter = 0; items = 7 ∷ 0 ∷ 5 ∷ [] };
  discard_counter = 0;
  state = running;
}

abbrev draining : BlockingQueue ℕ
draining = record two_held { state = drain }

two_held-IsValid : IsValid two_held
two_held-IsValid = record {
  slots = refl;
  small = omega arith;
  head_in = omega arith;
  tail_in = omega arith;
}

abbrev script : List (Call ℕ)
script =
    enqueues 8
    ∷ tries 8
    ∷ dequeues
    ∷ enqueues 9
    ∷ stops_gracefully
    ∷ tries 4
    ∷ dequeues
    ∷ dequeues
    ∷ dequeues
    ∷ []

script_runs :
    run two_held script
    ≡ blocked
      ∷ accepted false
      ∷ got (some 5)
      ∷ accepted true
      ∷ done
      ∷ accepted false
      ∷ got (some 7)
      ∷ got (some 9)
      ∷ got none
      ∷ []
unfolding run step enqueue try_enqueue try_locked dequeue take_front stop_gracefully CircularQ.full
    CircularQ.empty CircularQ.push_back CircularQ.front CircularQ.pop_front
script_runs = refl

run_refines_example : run two_held script ≡ Spec.run (view 0 two_held) script
run_refines_example = run_refines 0 two_held script two_held-IsValid

run_fifo_example :
    all_removed (run two_held script) ++ contents 0 (after two_held script).queue
    ≡ contents 0 two_held.queue ++ all_added script (run two_held script)
run_fifo_example = run_fifo 0 two_held script two_held-IsValid (omega arith)

drain_delivers_example :
    run draining (dequeues ∷ dequeues ∷ dequeues ∷ []) ≡ got (some 5) ∷ got (some 7) ∷ got none ∷ []
unfolding CircularQ.size
drain_delivers_example = drain_delivers 0 draining 1 two_held-IsValid refl
