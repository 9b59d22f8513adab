-- ===== src/Utils/BoundedQueue/Moves.antt =====
-- src/utils/mpmc_bounded_queue.h: the steps of the threads against the invariant.
use mcp_server_cpp.Prelude.{ℕ, suc, ◌+◌, ◌<◌, ◌^◌, refl, arith, update}
use mcp_server_cpp.Utils.BoundedQueue.{BoundedQueue, History, Pc, Move}
use mcp_server_cpp.Utils.BoundedQueue.Invariant.{Inv}
use mcp_server_cpp.Utils.BoundedQueue.Cells.{Move-counts, Move-IsSlot}
use mcp_server_cpp.Utils.BoundedQueue.Threads.{Move-IsLocal}
use mcp_server_cpp.Utils.BoundedQueue.Owners.{Move-unique, Move-covered}
use mcp_server_cpp.Utils.BoundedQueue.Delivery.{Move-IsDelivery}

module _ {A : Type 0} {mask n : ℕ} {q : BoundedQueue A} {h : History A} {pc : ℕ → Pc A}
    (inv : Inv mask n q h pc) where
  open inv use {short, wide, within, order, bounded, slots, local, unique, covered, delivery}

  -- Every step of every thread keeps the invariant.
  pub Move-Inv :
      (i : ℕ) {q' : BoundedQueue A} {h' : History A} {p' : Pc A}
      → suc n + mask + 1 < 2 ^ 63
      → Move mask q h (pc i) q' h' p'
      → Inv mask (suc n) q' h' (update pc i p')
  Move-Inv i long mv =
      let (a, b, c) = Move-counts inv mv (local i) in
      record {
        short = long;
        wide = wide;
        within = omega (arith, a);
        order = b;
        bounded = c;
        slots = Move-IsSlot inv mv (local i);
        local = Move-IsLocal inv i mv refl;
        unique = Move-unique inv i mv refl;
        covered = Move-covered inv i mv refl (local i);
        delivery = Move-IsDelivery inv mv (local i);
      }
