-- ===== src/Utils/BoundedQueue/Delivery.antt =====
-- src/utils/mpmc_bounded_queue.h: one step of one thread, seen on what was delivered.
use mcp_server_cpp.Prelude.{ℕ, ◌≤◌, ◌<◌, ◌≡◌, refl, sym, ◌∙◌, List, [], ◌∷◌, arith}
use mcp_server_cpp.Utils.BoundedQueue.{
  BoundedQueue, History, Pc, slot, Move, call_enqueue, win_enqueue, write, publish, win_dequeue,
  release,
}
use mcp_server_cpp.Utils.BoundedQueue.Invariant.{IsLocal, IsFresh, IsDelivery, Inv}

module _ {A : Type 0} {mask n : ℕ} {q : BoundedQueue A} {h : History A} {pc : ℕ → Pc A}
    (inv : Inv mask n q h pc) where
  open inv use {short, wide, within, order, bounded, slots, local, unique, covered, delivery}

  -- Positions given back stay so, with their items.
  IsDelivery-mono :
      (q' : BoundedQueue A) (h' : History A) (out : List (ℕ × A))
      → q.dequeue_pos ≤ q'.dequeue_pos
      → ((k : ℕ) → k < q.dequeue_pos → h'.ticket k ≡ h.ticket k)
      → ((k : ℕ) → k < h.round (slot mask k) → k < h'.round (slot mask k))
      → IsDelivery mask q h out
      → IsDelivery mask q' h' out
  IsDelivery-mono q' h' [] le t r d = tt
  IsDelivery-mono q' h' ((k, x) ∷ out) le t r (a, b, c, f, d) =
      (omega (arith, le), r k b, c ∙ sym (t k a), f, IsDelivery-mono q' h' out le t r d)

  IsDelivery-IsFresh :
      (out : List (ℕ × A)) (k : ℕ)
      → IsDelivery mask q h out
      → h.round (slot mask k) ≡ k
      → IsFresh k out
  IsDelivery-IsFresh [] k d e = tt
  IsDelivery-IsFresh ((j, x) ∷ out) k (a, b, c, f, d) e =
      (λ g. ground arith, IsDelivery-IsFresh out k d e)

  pub Move-IsDelivery :
      {p p' : Pc A} {q' : BoundedQueue A} {h' : History A}
      → Move mask q h p q' h' p'
      → IsLocal mask q h p
      → IsDelivery mask q' h' h'.out
  Move-IsDelivery {q' = q'} {h'} (win_enqueue {pos = pos} e) l =
      IsDelivery-mono q' h' h.out (omega arith) (λ k lt. ground arith) (λ k lt. lt) delivery
  Move-IsDelivery {q' = q'} {h'} (win_dequeue {pos = pos} e) l =
      IsDelivery-mono q' h' h.out (ground arith) (λ k lt. refl) (λ k lt. lt) delivery
  Move-IsDelivery {q' = q'} {h'} (write {pos = pos}) l =
      IsDelivery-mono q' h' h.out (omega arith) (λ k lt. refl) (λ k lt. lt) delivery
  Move-IsDelivery {q' = q'} {h'} (publish {pos = pos}) l =
      IsDelivery-mono q' h' h.out (omega arith) (λ k lt. refl) (λ k lt. lt) delivery
  Move-IsDelivery {q' = q'} {h'} (release {pos = pos}) (ld, t, (r, f)) = (
    ld,
    ground arith,
    sym t,
    IsDelivery-IsFresh h.out pos delivery r,
    IsDelivery-mono q' h' h.out (omega arith) (λ k lt. refl) (λ k lt. ground arith) delivery,
  )
  Move-IsDelivery call_enqueue l = delivery
  Move-IsDelivery mv l = delivery
