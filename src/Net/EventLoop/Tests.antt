-- ===== src/Net/EventLoop/Tests.antt =====
-- src/net/EventLoop.cc: a loop that polls while another thread queues a functor.
use mcp_server_cpp.Prelude.{ℕ, ◌+◌, length, ◌≤◌, ◌≡◌, refl, [], ◌++◌, arith}
use mcp_server_cpp.Net.EventLoop.{
  EventLoop, queue_early, queues_early, init, looped, polled, loops, polls_first, queue_outside,
  wakeup, queue_inside, swap, ran_one, finish, Reach, starts, steps, queues, wakes, swaps, runs,
  calls, finishes,
}
use mcp_server_cpp.Net.EventLoop.Invariant.{taken, Reach-woken, Reach-ordered}

-- The functor 1, which is run, queues the functor 2.
abbrev second_round : EventLoop ℕ
second_round =
    finish (queue_inside 2 (ran_one 1 [] (swap (polled (wakeup (queue_outside 1 (looped init)))))))

second_round-Reach : Reach second_round
unfolding queue_outside wakeup queue_inside swap finish
second_round-Reach =
    steps
      (steps
        (steps
          (steps
            (steps (steps (steps (steps starts (loops refl)) (queues 1)) (wakes (omega arith)))
              (polls_first refl))
            (swaps refl))
          (runs 1 [] refl))
        (calls 2 [] refl))
      (finishes refl)

Reach-woken_example : 1 ≤ second_round.wakeups + second_round.waking
unfolding queue_outside wakeup queue_inside swap finish
Reach-woken_example = Reach-woken second_round-Reach refl (omega arith)

-- A functor that the thread of the loop queues before it calls `loop` waits in the first poll, and
-- nothing wakes the loop.
abbrev asleep : EventLoop ℕ
asleep = looped (queue_early 1 init)

asleep-Reach : Reach asleep
unfolding queue_early queue_inside
asleep-Reach = steps (steps starts (queues_early 1 refl)) (loops refl)

asleep_unwoken : (length asleep.pending_functors ≡ 1) × (asleep.wakeups + asleep.waking ≡ 0)
unfolding queue_early queue_inside
asleep_unwoken = (refl, refl)

Reach-ordered_example :
    second_round.ran ++ taken second_round.phase ++ second_round.pending_functors
    ≡ second_round.queued
Reach-ordered_example = Reach-ordered second_round-Reach
