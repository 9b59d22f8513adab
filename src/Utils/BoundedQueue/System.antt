-- ===== src/Utils/BoundedQueue/System.antt =====
-- src/utils/mpmc_bounded_queue.h: the threads and the queue together.
use mcp_server_cpp.Prelude.{ℕ, suc, [], update}
use mcp_server_cpp.Utils.BoundedQueue.{BoundedQueue, History, Pc, idle, Move}

pub record System (A : Type 0) : Type 0 where
  pub queue : BoundedQueue A
  pub history : History A
  pub pc : ℕ → Pc A

module _ {A : Type 0} (mask : ℕ) where
  -- Any thread may take the next step.
  pub data Step (s : System A) : System A → Type 0 where
    pick :
        (i : ℕ) {q : BoundedQueue A} {h : History A} {p : Pc A}
        → Move mask s.queue s.history (s.pc i) q h p
        → Step s (record { queue = q; history = h; pc = update s.pc i p })

  -- A queue as the constructor leaves it; `d` is the item of a fresh cell.
  unfoldable pub init : A → System A
  init d = record {
    queue = record { seq = λ i. i; item = λ i. d; enqueue_pos = 0; dequeue_pos = 0 };
    history = record { ticket = λ p. d; round = λ i. i; out = [] };
    pc = λ i. idle;
  }

  -- The states after a number of steps.
  pub data Reach (d : A) : ℕ → System A → Type 0 where
    start : Reach d 0 (init d)
    later : {n : ℕ} {s t : System A} → Reach d n s → Step s t → Reach d (suc n) t
