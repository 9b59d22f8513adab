-- ===== src/Utils/BoundedQueue/Invariant.antt =====
-- src/utils/mpmc_bounded_queue.h: who may touch which cell, and what the sequence numbers mean.
use mcp_server_cpp.Prelude.{ℕ, ◌+◌, ◌≤◌, ◌<◌, ◌^◌, ◌≡◌, ◌≢◌, ◌⊎◌, Option, none, some, List, [], ◌∷◌}
use mcp_server_cpp.Utils.BoundedQueue.{
  BoundedQueue, History, Pc, enqueue_tests, enqueue_claims, enqueue_writes, enqueue_publishes,
  dequeue_tests, dequeue_claims, dequeue_reads, dequeue_releases, slot,
}

module _ {A : Type 0} where
  -- The position whose cell the thread may read or write.
  abbrev pub owned : Pc A → Option ℕ
  owned (enqueue_writes x pos) = some pos
  owned (enqueue_publishes x pos) = some pos
  owned (dequeue_reads pos) = some pos
  owned (dequeue_releases pos x) = some pos
  owned _ = none

  -- The position is not among those given back.
  abbrev pub IsFresh : ℕ → List (ℕ × A) → Type 0
  IsFresh pos [] = Unit {0}
  IsFresh pos ((p, x) ∷ out) = (pos ≢ p) × IsFresh pos out

module _ {A : Type 0} (mask : ℕ) where
  -- The slot serves this position, which is claimed and not given back.
  abbrev pub Serves : BoundedQueue A → History A → ℕ → ℕ → Type 0
  Serves q h pos seq = (h.round (slot mask pos) ≡ pos) × (q.seq (slot mask pos) ≡ seq)

  -- What the local variables of a thread say about the queue.
  abbrev pub IsLocal : BoundedQueue A → History A → Pc A → Type 0
  IsLocal q h (enqueue_tests x pos) = pos ≤ q.enqueue_pos
  IsLocal q h (enqueue_claims x pos) =
      (pos ≤ q.enqueue_pos) × (q.enqueue_pos ≡ pos → q.seq (slot mask pos) ≡ pos)
  IsLocal q h (enqueue_writes x pos) =
      (pos < q.enqueue_pos) × (h.ticket pos ≡ x) × Serves q h pos pos
  IsLocal q h (enqueue_publishes x pos) =
      (pos < q.enqueue_pos) × (h.ticket pos ≡ x) × (q.item (slot mask pos) ≡ x) × Serves q h pos pos
  IsLocal q h (dequeue_tests pos) = pos ≤ q.dequeue_pos
  IsLocal q h (dequeue_claims pos) =
      (pos ≤ q.dequeue_pos) × (q.dequeue_pos ≡ pos → q.seq (slot mask pos) ≡ pos + 1)
  IsLocal q h (dequeue_reads pos) = (pos < q.dequeue_pos) × Serves q h pos (pos + 1)
  IsLocal q h (dequeue_releases pos x) =
      (pos < q.dequeue_pos) × (h.ticket pos ≡ x) × Serves q h pos (pos + 1)
  IsLocal q h _ = Unit

  -- Every position that was given back was claimed by a consumer and returned with the item of its
  -- ticket, and none was given back twice.
  abbrev pub IsDelivery : BoundedQueue A → History A → List (ℕ × A) → Type 0
  IsDelivery q h [] = Unit {0}
  IsDelivery q h ((pos, x) ∷ out) =
      (pos < q.dequeue_pos)
      × (pos < h.round (slot mask pos))
      × (x ≡ h.ticket pos)
      × IsFresh pos out
      × IsDelivery q h out

  -- The facts about one slot.
  pub record IsSlot (q : BoundedQueue A) (h : History A) (i : ℕ) : Type 0 where
    pub home : slot mask (h.round i) ≡ i
    pub phase : (q.seq i ≡ h.round i) ⊎ (q.seq i ≡ h.round i + 1)
    pub filled :
        q.seq i ≡ h.round i + 1 → (h.round i < q.enqueue_pos) × (q.item i ≡ h.ticket (h.round i))
    pub low : q.enqueue_pos ≤ h.round i + mask + 1
    pub high : h.round i < q.dequeue_pos + mask + 1
    pub drained : h.round i < q.dequeue_pos → q.seq i ≡ h.round i + 1

  -- A slot that is claimed and empty, or taken and not given back, is owned by a thread.
  abbrev pub IsBusy : BoundedQueue A → History A → ℕ → Type 0
  IsBusy q h i = ((h.round i < q.enqueue_pos) × (q.seq i ≡ h.round i)) ⊎ (h.round i < q.dequeue_pos)

  pub record Inv (n : ℕ) (q : BoundedQueue A) (h : History A) (pc : ℕ → Pc A) : Type 0 where
    pub short : n + mask + 1 < 2 ^ 63
    pub wide : 1 ≤ mask
    pub within : q.enqueue_pos ≤ n
    pub order : q.dequeue_pos ≤ q.enqueue_pos
    pub bounded : q.enqueue_pos ≤ q.dequeue_pos + mask + 1
    pub slots : (i : ℕ) → i < mask + 1 → IsSlot q h i
    pub local : (j : ℕ) → IsLocal q h (pc j)
    pub unique : (i j pos : ℕ) → owned (pc i) ≡ some pos → owned (pc j) ≡ some pos → i ≡ j
    pub covered :
        (i : ℕ) → i < mask + 1 → IsBusy q h i → (j : ℕ) × (owned (pc j) ≡ some (h.round i))
    pub delivery : IsDelivery q h h.out
