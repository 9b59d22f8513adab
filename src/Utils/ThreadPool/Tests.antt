-- ===== src/Utils/ThreadPool/Tests.antt =====
-- src/utils/thread_pool.cc: a pool of two workers.
use mcp_server_cpp.Prelude.{ℕ, ◌+◌, ◌*◌, ◌≤◌, ◌≡◌, refl, List, [], ◌∷◌, ◌++◌, length, arith}
use mcp_server_cpp.Utils.CircularQ
use mcp_server_cpp.Utils.CircularQ.Refine.{contents}
use mcp_server_cpp.Utils.BlockingQueue
use mcp_server_cpp.Utils.BlockingQueue.{
  try_locked, BlockingQueue, running, drain, enqueue, try_enqueue, dequeue, take_front, all_added,
  all_removed,
}
use mcp_server_cpp.Utils.BlockingQueue.Refine.{IsValid}
use mcp_server_cpp.Utils.ThreadPool.{
  ThreadPool, waits, runs, Action, submits, tries_submit, stops_gracefully_pool, works, submit,
  try_submit, stop_gracefully, received, advance, work, step, run,
}
use mcp_server_cpp.Utils.ThreadPool.Trace.{trace, run-starts}
use mcp_server_cpp.Utils.ThreadPool.Stop.{Stopped-ends}

-- A worker runs the task 3, and the tasks 5 and 7 wait.
abbrev pool : ThreadPool ℕ
pool = record {
  queue = record {
    queue = record {
      max_items = 3;
      head = 2;
      tail = 1;
      overrun_counter = 0;
      items = 7 ∷ 0 ∷ 5 ∷ [];
    };
    discard_counter = 0;
    state = running;
  };
  workers = runs 3 ∷ waits ∷ [];
  active_count = 1;
  completed_count = 0;
}

abbrev halted : ThreadPool ℕ
halted = record pool { queue = record pool.queue { state = drain } }

pool-IsValid : IsValid pool.queue
pool-IsValid = record {
  slots = refl;
  small = omega arith;
  head_in = omega arith;
  tail_in = omega arith;
}

abbrev actions : List (Action ℕ)
actions =
    works 1
    ∷ submits 8
    ∷ tries_submit 9
    ∷ works 0
    ∷ works 0
    ∷ stops_gracefully_pool
    ∷ submits 4
    ∷ works 1
    ∷ works 1
    ∷ []

started_test : (run actions pool).1 ≡ 5 ∷ 7 ∷ 8 ∷ []
unfolding run step work advance received submit try_submit stop_gracefully BlockingQueue.step
    enqueue try_enqueue try_locked dequeue take_front BlockingQueue.stop_gracefully CircularQ.full
    CircularQ.empty CircularQ.push_back CircularQ.front CircularQ.pop_front
started_test = refl

run-starts_example :
    (run actions pool).1 ++ contents 0 (run actions pool).0.queue.queue
    ≡ contents 0 pool.queue.queue
      ++ all_added (trace actions pool) (BlockingQueue.run pool.queue (trace actions pool))
unfolding trace run step work advance received submit try_submit stop_gracefully BlockingQueue.step
    enqueue try_enqueue try_locked dequeue take_front BlockingQueue.stop_gracefully CircularQ.full
    CircularQ.empty CircularQ.push_back CircularQ.front CircularQ.pop_front
run-starts_example =
    run-starts 0 actions pool pool-IsValid (tt, (tt, (tt, (tt, (tt, (tt, (tt, tt)))))))

abbrev schedule : List ℕ
schedule = 1 ∷ 0 ∷ 0 ∷ 1 ∷ 1 ∷ 0 ∷ 0 ∷ []

Stopped-ends_example :
    length schedule ≤ 2 * length (contents 0 halted.queue.queue) + 2 * length halted.workers
unfolding run step work advance received BlockingQueue.step dequeue take_front CircularQ.full
    CircularQ.empty CircularQ.front CircularQ.pop_front
Stopped-ends_example =
    Stopped-ends 0 schedule halted (pool-IsValid, λ e. ground arith)
      (tt, (tt, (tt, (tt, (tt, (tt, (tt, tt)))))))
