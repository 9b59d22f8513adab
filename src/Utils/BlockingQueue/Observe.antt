-- ===== src/Utils/BlockingQueue/Observe.antt =====
-- src/utils/mpmc_blocking_queue.h: the methods that only look at the queue.
use mcp_server_cpp.Prelude.{ℕ, Bool, ◌==◌, List, length, ◌≡◌, ap, ◌∙◌, arith}
use mcp_server_cpp.Utils.CircularQ
use mcp_server_cpp.Utils.CircularQ.Refine.{length-contents, full_iff, empty_iff}
use mcp_server_cpp.Utils.BlockingQueue.{BlockingQueue, Call, after}
use mcp_server_cpp.Utils.BlockingQueue.Spec
use mcp_server_cpp.Utils.BlockingQueue.Spec.{Spec}
use mcp_server_cpp.Utils.BlockingQueue.Refine.{IsValid, view, after-view}

module _ {ℓ} {A : Type ℓ} where
  unfoldable pub size : BlockingQueue A → ℕ
  size q = CircularQ.size q.queue

  unfoldable pub capacity : BlockingQueue A → ℕ
  capacity q = CircularQ.capacity q.queue

  unfoldable pub empty : BlockingQueue A → Bool
  empty q = CircularQ.empty q.queue

  unfoldable pub full : BlockingQueue A → Bool
  full q = CircularQ.full q.queue

  unfoldable pub overrun_counter : BlockingQueue A → ℕ
  overrun_counter q = q.queue.overrun_counter

  unfoldable pub discard_counter : BlockingQueue A → ℕ
  discard_counter q = q.discard_counter

-- What a thread sees.
pub record Observation : Type 0 where
  pub items : ℕ
  pub bound : ℕ
  pub overruns : ℕ
  pub discards : ℕ
  pub is_empty : Bool
  pub is_full : Bool

module _ {ℓ} {A : Type ℓ} where
  abbrev pub observe : BlockingQueue A → Observation
  observe q = record {
    items = size q;
    bound = capacity q;
    overruns = overrun_counter q;
    discards = discard_counter q;
    is_empty = empty q;
    is_full = full q;
  }

  abbrev pub expected : Spec A → Observation
  expected s = record {
    items = length s.items;
    bound = s.bound;
    overruns = s.overruns;
    discards = s.discards;
    is_empty = length s.items == 0;
    is_full = length s.items == s.bound;
  }

module _ {ℓ} {A : Type ℓ} (d : A) where
  observe-view : (q : BlockingQueue A) → IsValid q → observe q ≡ expected (view d q)
  unfolding size capacity empty full overrun_counter discard_counter
  observe-view q v = ground (arith, length-contents d q.queue, full_iff v, empty_iff v)

  -- After any calls in any order, the methods that only look answer what the contract holds: the
  -- number of items, the bound, the counters, and whether it is empty or full.
  pub observe-after :
      (q : BlockingQueue A) (cs : List (Call A))
      → IsValid q
      → observe (after q cs) ≡ expected (Spec.after (view d q) cs)
  observe-after q cs v =
      let (same, valid) = after-view d q cs v in observe-view (after q cs) valid ∙ ap expected same
