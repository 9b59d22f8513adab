-- ===== src/Utils/BoundedQueue/Tests.antt =====
-- src/utils/mpmc_bounded_queue.h: runs of a queue with two cells.
use mcp_server_cpp.Prelude.{ℕ, [], ◌∷◌, ◌≡◌, refl, arith, ℕ_discrete}
use mcp_server_cpp.Utils.BoundedQueue.{
  slot, dif, call_enqueue, load_enqueue, found_free, win_enqueue, write, publish, call_dequeue,
  load_dequeue, found_ready, win_dequeue, read, release,
}
use mcp_server_cpp.Utils.BoundedQueue.System.{System, Reach, start, later, pick, init}
use mcp_server_cpp.Utils.BoundedQueue.Invariant.{IsDelivery}
use mcp_server_cpp.Utils.BoundedQueue.Safety.{Reach-exclusive, Reach-IsDelivery}

-- A state that is reached in a number of steps.
abbrev Run : ℕ → Type 0
Run n = (s : System ℕ) × Reach 1 0 n s

-- Thread 0 claims the first position,
abbrev claimed : Run 4
unfolding init dif slot ℕ_discrete
claimed =
    let called = later start (pick 0 (call_enqueue {x = 7})) in
    let loaded = later called (pick 0 load_enqueue) in
    (_, later (later loaded (pick 0 (found_free refl))) (pick 0 (win_enqueue refl)))

-- writes and publishes its item.
abbrev filled : Run 6
unfolding init dif slot ℕ_discrete
filled = (_, later (later claimed.1 (pick 0 write)) (pick 0 publish))

-- Thread 1 takes the item and gives the cell back.
abbrev drained : Run 12
unfolding init dif slot ℕ_discrete
drained =
    let called = later filled.1 (pick 1 call_dequeue) in
    let ready = later (later called (pick 1 load_dequeue)) (pick 1 (found_ready refl)) in
    let won = later ready (pick 1 (win_dequeue refl)) in
    (_, later (later won (pick 1 read)) (pick 1 release))

-- Thread 0 fills both cells and comes back for a third.
abbrev crowded : Run 14
unfolding init dif slot ℕ_discrete
crowded =
    let called = later filled.1 (pick 0 (call_enqueue {x = 8})) in
    let free = later (later called (pick 0 load_enqueue)) (pick 0 (found_free refl)) in
    let second =
      later (later (later free (pick 0 (win_enqueue refl))) (pick 0 write)) (pick 0 publish) in
    (_, later (later second (pick 0 (call_enqueue {x = 9}))) (pick 0 load_enqueue))

drained_items : drained.0.history.out ≡ (0, 7) ∷ []
unfolding init dif slot ℕ_discrete
drained_items = refl

Reach-exclusive_example : ◌≡◌ {A = ℕ} 0 0
unfolding init dif slot ℕ_discrete
Reach-exclusive_example =
    Reach-exclusive 0 0 0 0 (omega arith) (omega arith) claimed.1 refl refl refl

Reach-IsDelivery_example : IsDelivery 1 drained.0.queue drained.0.history drained.0.history.out
Reach-IsDelivery_example = Reach-IsDelivery (omega arith) (omega arith) drained.1
