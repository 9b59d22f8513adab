-- ===== src/Utils/BlockingQueue.antt =====
-- src/utils/mpmc_blocking_queue.h: a ring behind a mutex, with a stop state.
-- Each method is one critical section, taken at the moment at which its wait ends. `waits` is a
-- thread that stays in `wait`, since the predicate of the condition variable does not hold; a
-- timed wait ends also where the predicate does not hold. `faults` is undefined behaviour of the
-- ring. The check of the stop state that some methods make before the critical section counts where
-- `tries_late` says so. The two overloads of a method differ only in copying or moving the item. What the
-- condition variables notify is not part of the state.
pub mod Spec
pub mod Refine
pub mod Delivery
pub mod Observe
mod Tests
use mcp_server_cpp.Prelude.{
  ℕ, Option, none, some, List, [], ◌∷◌, ◌++◌, Bool, true, false, not, ◌&&◌, ◌||◌, if◌then◌else◌,
  add_size,
}
use mcp_server_cpp.Utils.CircularQ
use mcp_server_cpp.Utils.CircularQ.{CircularQ}

-- `State`; `running` is its `None`.
pub data State : Type 0 where
  running drain immediate : State

pub data Outcome {ℓ} (B : Type ℓ) : Type ℓ where
  waits faults : Outcome B
  returns : B → Outcome B

pub record BlockingQueue {ℓ} (A : Type ℓ) : Type ℓ where
  pub queue : CircularQ A
  pub discard_counter : ℕ
  pub state : State

abbrev pub is_running : State → Bool
is_running running = true
is_running _ = false

abbrev pub is_immediate : State → Bool
is_immediate immediate = true
is_immediate _ = false

module _ {ℓ} {A : Type ℓ} where
  unfoldable pub of_max_items : A → ℕ → BlockingQueue A
  of_max_items d n = record {
    queue = CircularQ.of_max_items d n;
    discard_counter = 0;
    state = running;
  }

  abbrev pub is_stopped : BlockingQueue A → Bool
  is_stopped q = not (is_running q.state)

  abbrev pub pushed : BlockingQueue A → A → BlockingQueue A
  pushed q item = record q { queue = CircularQ.push_back q.queue item }

  unfoldable pub enqueue : BlockingQueue A → A → Outcome (BlockingQueue A × Bool)
  enqueue q item =
      if is_stopped q
      then returns (q, false)
      else if not (CircularQ.full q.queue) || is_stopped q
      then if is_stopped q then returns (q, false) else returns (pushed q item, true)
      else waits

  -- The wait ends by its predicate or by the time out.
  unfoldable pub enqueue_for : BlockingQueue A → A → BlockingQueue A × Bool
  enqueue_for q item =
      if is_stopped q
      then (q, false)
      else if not (not (CircularQ.full q.queue) || is_stopped q)
      then (q, false)
      else if is_stopped q
      then (q, false)
      else (pushed q item, true)

  unfoldable pub enqueue_overwrite : BlockingQueue A → A → BlockingQueue A × Bool
  enqueue_overwrite q item =
      if is_stopped q
      then (q, false)
      else if is_stopped q
      then (q, false)
      else (pushed q item, true)

  -- The critical section of `try_enqueue`.
  unfoldable pub try_locked : BlockingQueue A → A → BlockingQueue A × Bool
  try_locked q item =
      if CircularQ.full q.queue || is_stopped q
      then (
        if CircularQ.full q.queue
            then record q { discard_counter = add_size q.discard_counter 1 }
            else q,
        false,
      )
      else (pushed q item, true)

  -- `try_enqueue` where no other thread takes the mutex between its first check and its critical
  -- section.
  unfoldable pub try_enqueue : BlockingQueue A → A → BlockingQueue A × Bool
  try_enqueue q item = if is_stopped q then (q, false) else try_locked q item

  taken : BlockingQueue A → Option A → Option (CircularQ A) → Outcome (BlockingQueue A × Option A)
  taken q (some item) (some rest) = returns (record q { queue = rest }, some item)
  taken q (some item) none = faults
  taken q none rest = faults

  -- `result = std::move(queue_.front()); queue_.pop_front();`
  unfoldable pub take_front : BlockingQueue A → Outcome (BlockingQueue A × Option A)
  unfolding taken
  take_front q = taken q (CircularQ.front q.queue) (CircularQ.pop_front q.queue)

  unfoldable pub dequeue : BlockingQueue A → Outcome (BlockingQueue A × Option A)
  dequeue q =
      if not (CircularQ.empty q.queue) || is_stopped q
      then if not (is_immediate q.state) && not (CircularQ.empty q.queue)
        then take_front q
        else returns (q, none)
      else waits

  unfoldable pub dequeue_for : BlockingQueue A → Outcome (BlockingQueue A × Option A)
  dequeue_for q =
      if not (is_immediate q.state) && not (CircularQ.empty q.queue)
      then take_front q
      else returns (q, none)

  unfoldable pub try_dequeue : BlockingQueue A → Outcome (BlockingQueue A × Option A)
  try_dequeue q =
      if CircularQ.empty q.queue || is_stopped q then returns (q, none) else take_front q

  unfoldable pub stop_gracefully : BlockingQueue A → BlockingQueue A
  stop_gracefully q = if is_stopped q then q else record q { state = drain }

  unfoldable pub stop_immediately : BlockingQueue A → BlockingQueue A
  stop_immediately q = if is_stopped q then q else record q { state = immediate }

  unfoldable pub reset_overrun_counter : BlockingQueue A → BlockingQueue A
  reset_overrun_counter q = record q { queue = CircularQ.reset_overrun_counter q.queue }

  unfoldable pub reset_discard_counter : BlockingQueue A → BlockingQueue A
  reset_discard_counter q = record q { discard_counter = 0 }

-- The calls that change the queue, and what each of them answers. The methods that add an item look
-- at the stop state once before they take the mutex; `tries_late` is a `try_enqueue` that came past
-- that check before another thread stopped the queue. For the other methods the critical section
-- looks again, and answers the same whether the check came before the stop or after.
pub data Call {ℓ} (A : Type ℓ) : Type ℓ where
  enqueues enqueues_for overwrites tries tries_late : A → Call A
  dequeues dequeues_for tries_dequeue : Call A
  stops_gracefully stops_immediately resets_overrun resets_discard : Call A

pub data Reply {ℓ} (A : Type ℓ) : Type ℓ where
  blocked fault done : Reply A
  accepted : Bool → Reply A
  got : Option A → Reply A

module _ {ℓ} {A : Type ℓ} where
  abbrev pub offered : BlockingQueue A × Bool → BlockingQueue A × Reply A
  offered (q, ok) = (q, accepted ok)

  -- A call that waits leaves the queue to the other threads.
  abbrev pub settled {κ} :
      {B : Type κ}
      → BlockingQueue A
      → (B → Reply A)
      → Outcome (BlockingQueue A × B)
      → BlockingQueue A × Reply A
  settled q f waits = (q, blocked)
  settled q f faults = (q, fault)
  settled q f (returns (q', b)) = (q', f b)

  -- One critical section of one thread.
  unfoldable pub step : BlockingQueue A → Call A → BlockingQueue A × Reply A
  step q (enqueues x) = settled q accepted (enqueue q x)
  step q (enqueues_for x) = offered (enqueue_for q x)
  step q (overwrites x) = offered (enqueue_overwrite q x)
  step q (tries x) = offered (try_enqueue q x)
  step q (tries_late x) = offered (try_locked q x)
  step q dequeues = settled q got (dequeue q)
  step q dequeues_for = settled q got (dequeue_for q)
  step q tries_dequeue = settled q got (try_dequeue q)
  step q stops_gracefully = (stop_gracefully q, done)
  step q stops_immediately = (stop_immediately q, done)
  step q resets_overrun = (reset_overrun_counter q, done)
  step q resets_discard = (reset_discard_counter q, done)

  -- The critical sections of all threads, in the order in which they hold the mutex.
  unfoldable pub run : BlockingQueue A → List (Call A) → List (Reply A)
  run q [] = []
  run q (c ∷ cs) = let (q', r) = step q c in r ∷ run q' cs

  -- The queue that those critical sections leave.
  unfoldable pub after : BlockingQueue A → List (Call A) → BlockingQueue A
  after q [] = q
  after q (c ∷ cs) = after (step q c).0 cs

  -- The items that the calls added, by their answers.
  abbrev pub added : Call A → Reply A → List A
  added (enqueues x) (accepted true) = x ∷ []
  added (enqueues_for x) (accepted true) = x ∷ []
  added (overwrites x) (accepted true) = x ∷ []
  added (tries x) (accepted true) = x ∷ []
  added (tries_late x) (accepted true) = x ∷ []
  added _ _ = []

  unfoldable pub all_added : List (Call A) → List (Reply A) → List A
  all_added (c ∷ cs) (r ∷ rs) = added c r ++ all_added cs rs
  all_added _ _ = []

  -- The items that the calls took out, by their answers.
  abbrev pub removed : Reply A → List A
  removed (got (some x)) = x ∷ []
  removed _ = []

  unfoldable pub all_removed : List (Reply A) → List A
  all_removed [] = []
  all_removed (r ∷ rs) = removed r ++ all_removed rs
