-- ===== src/Utils/ThreadPool.antt =====
-- src/utils/thread_pool.h, src/utils/thread_pool.cc: workers on a blocking queue.
-- A worker takes one step at a time: it waits for a task, or runs one, or has returned. A task is
-- anything, and its run one step, so it does not throw. A `try_submit` that came past the first check
-- of the queue before a stop adds nothing, and is left out. The counters are atomic numbers, and do not
-- reach 2 ^ 64. Joining a worker is waiting until it has returned.
pub mod Trace
pub mod Stop
mod Tests
use mcp_server_cpp.Prelude.{
  ℕ, ◌+◌, ◌-◌, Option, none, some, List, [], ◌∷◌, ◌++◌, Bool, if◌then◌else◌, ◌==◌, ◌||◌, get_elem?,
  set, replicate, length,
}
use mcp_server_cpp.Utils.BlockingQueue
use mcp_server_cpp.Utils.BlockingQueue.{
  BlockingQueue, Call, enqueues, enqueues_for, overwrites, tries, dequeues, stops_gracefully,
  stops_immediately, resets_overrun, resets_discard, Reply, got,
}
use mcp_server_cpp.Utils.BlockingQueue.Observe

pub data Worker {ℓ} (A : Type ℓ) : Type ℓ where
  waits returned : Worker A
  runs : A → Worker A

pub record ThreadPool {ℓ} (A : Type ℓ) : Type ℓ where
  pub queue : BlockingQueue A
  pub workers : List (Worker A)
  pub active_count : ℕ
  pub completed_count : ℕ

-- What a thread does with the pool.
pub data Action {ℓ} (A : Type ℓ) : Type ℓ where
  submits submits_overwrite tries_submit submits_for : A → Action A
  stops_gracefully_pool stops_immediately_pool resets_stats : Action A
  works : ℕ → Action A

pub record Stats : Type 0 where
  pub pending_tasks : ℕ
  pub completed_tasks : ℕ
  pub active_threads : ℕ
  pub total_threads : ℕ
  pub discarded_tasks : ℕ
  pub overrun_tasks : ℕ

module _ {ℓ} {A : Type ℓ} where
  -- The constructor, which throws for a size of zero.
  unfoldable pub of_sizes : A → (num_threads queue_size : ℕ) → Option (ThreadPool A)
  of_sizes d num_threads queue_size =
      if (num_threads == 0) || (queue_size == 0)
      then none
      else some (record {
        queue = BlockingQueue.of_max_items d queue_size;
        workers = replicate num_threads waits;
        active_count = 0;
        completed_count = 0;
      })

  -- One call of the queue, for its effect.
  abbrev pub calling : Call A → ThreadPool A → ThreadPool A
  calling c p = record p { queue = (BlockingQueue.step p.queue c).0 }

  unfoldable pub submit : A → ThreadPool A → ThreadPool A
  submit t = calling (enqueues t)

  unfoldable pub submit_overwrite : A → ThreadPool A → ThreadPool A
  submit_overwrite t = calling (overwrites t)

  unfoldable pub try_submit : A → ThreadPool A → ThreadPool A
  try_submit t = calling (tries t)

  unfoldable pub submit_for : A → ThreadPool A → ThreadPool A
  submit_for t = calling (enqueues_for t)

  unfoldable pub stop_gracefully : ThreadPool A → ThreadPool A
  stop_gracefully = calling stops_gracefully

  unfoldable pub stop_immediately : ThreadPool A → ThreadPool A
  stop_immediately = calling stops_immediately

  unfoldable pub reset_stats : ThreadPool A → ThreadPool A
  reset_stats p = calling resets_discard (calling resets_overrun (record p { completed_count = 0 }))

  unfoldable pub get_stats : ThreadPool A → Stats
  get_stats p = record {
    pending_tasks = Observe.size p.queue;
    completed_tasks = p.completed_count;
    active_threads = p.active_count;
    total_threads = length p.workers;
    discarded_tasks = Observe.discard_counter p.queue;
    overrun_tasks = Observe.overrun_counter p.queue;
  }

  -- What `dequeue` answered the worker, with the task that it starts.
  unfoldable pub received : ℕ → Reply A → ThreadPool A → ThreadPool A × List A
  received i (got (some t)) p =
      (record p { workers = set p.workers i (runs t); active_count = p.active_count + 1 }, t ∷ [])
  received i (got none) p = (record p { workers = set p.workers i returned }, [])
  received i _ p = (p, [])

  -- One step of `worker_loop_`.
  unfoldable pub advance : ℕ → Worker A → ThreadPool A → ThreadPool A × List A
  advance i waits p =
      let (q, r) = BlockingQueue.step p.queue dequeues in received i r (record p { queue = q })
  advance i (runs t) p = (
    record p {
      workers = set p.workers i waits;
      active_count = p.active_count - 1;
      completed_count = p.completed_count + 1;
    },
    [],
  )
  advance i returned p = (p, [])

  -- The worker of this number takes a step.
  abbrev pub moved : ℕ → Option (Worker A) → ThreadPool A → ThreadPool A × List A
  moved i none p = (p, [])
  moved i (some w) p = advance i w p

  unfoldable pub work : ℕ → ThreadPool A → ThreadPool A × List A
  work i p = moved i (get_elem? p.workers i) p

  -- With the task that is started.
  unfoldable pub step : Action A → ThreadPool A → ThreadPool A × List A
  step (submits t) p = (submit t p, [])
  step (submits_overwrite t) p = (submit_overwrite t p, [])
  step (tries_submit t) p = (try_submit t p, [])
  step (submits_for t) p = (submit_for t p, [])
  step stops_gracefully_pool p = (stop_gracefully p, [])
  step stops_immediately_pool p = (stop_immediately p, [])
  step resets_stats p = (reset_stats p, [])
  step (works i) p = work i p

  unfoldable pub run : List (Action A) → ThreadPool A → ThreadPool A × List A
  run [] p = (p, [])
  run (a ∷ as') p =
      let (p', started) = step a p in let (p'', more) = run as' p' in (p'', started ++ more)
