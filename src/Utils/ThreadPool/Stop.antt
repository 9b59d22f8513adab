-- ===== src/Utils/ThreadPool/Stop.antt =====
-- src/utils/thread_pool.cc: after a stop every worker returns.
use mcp_server_cpp.Prelude.{
  ◌⊎◌, inl, inr, ℕ, zero, suc, ◌+◌, ◌*◌, ◌≤◌, ◌<◌, ◌≡◌, ◌≢◌, refl, sym, ap, ◌∙◌, Option, none, some,
  List, [], ◌∷◌, length, get_elem?, set, arith,
}
use mathlib.Core.Path.{subst}
use mcp_server_cpp.Utils.CircularQ.Refine.{contents}
use mcp_server_cpp.Utils.BlockingQueue
use mcp_server_cpp.Utils.BlockingQueue.{
  BlockingQueue, State, running, drain, immediate, dequeues, Reply, got, blocked,
}
use mcp_server_cpp.Utils.BlockingQueue.Spec
use mcp_server_cpp.Utils.BlockingQueue.Spec.{Spec}
use mcp_server_cpp.Utils.BlockingQueue.Refine.{IsValid, view, step-Refines}
use mcp_server_cpp.Utils.ThreadPool.{
  ThreadPool, Worker, waits, runs, returned, received, advance, moved, work,
}

module _ {ℓ} {A : Type ℓ} where
  -- How many steps of its own a worker has before it asks for a task again.
  abbrev pub weight : Worker A → ℕ
  weight waits = 1
  weight (runs t) = 2
  weight returned = 0

  unfoldable pub weights : List (Worker A) → ℕ
  weights [] = 0
  weights (w ∷ ws) = weight w + weights ws

  -- At most two steps for each task that waits, and those of the workers.
  abbrev pub measure : A → ThreadPool A → ℕ
  measure d p = 2 * length (contents d p.queue.queue) + weights p.workers

  some-weight : (x w : Worker A) → some x ≡ some w → weight x ≡ weight w
  some-weight x w e = ap (λ o. elim o [ none ↦ 0 | some v ↦ weight v ]) e

  weights-set :
      (ws : List (Worker A)) (i : ℕ) (w v : Worker A)
      → get_elem? ws i ≡ some w
      → weights (set ws i v) + weight w ≡ weights ws + weight v
  unfolding weights
  weights-set [] i w v e = ground arith
  weights-set (x ∷ ws) zero w v e = ground (arith, some-weight x w e)
  weights-set (x ∷ ws) (suc i) w v e = omega (arith, weights-set ws i w v e)

  -- What a worker gets from a queue that is stopped.
  abbrev Served : Spec A → Spec A × Reply A → Type ℓ
  Served s (s', r) =
      ((r ≡ got none) × (length s'.items ≡ length s.items) × (s'.state ≡ s.state))
      ⊎ ((t : A) × (r ≡ got (some t))
          × (suc (length s'.items) ≡ length s.items)
          × (s'.state ≡ s.state))

  spec-Served :
      (s : Spec A) (st : State) (items : List A)
      → s.state ≡ st
      → s.items ≡ items
      → st ≢ running
      → Served s (Spec.step s dequeues)
  unfolding Spec.step
  spec-Served s running items e f n = absurd (n refl)
  spec-Served s immediate items e f n = inl (ground arith, ground arith, ground arith)
  spec-Served s drain [] e f n = inl (ground arith, ground arith, ground arith)
  spec-Served s drain (x ∷ xs) e f n = inr (x, ground arith, ground arith, ground arith)

  dequeue-Served :
      (d : A) (q : BlockingQueue A)
      → IsValid q
      → q.state ≢ running
      → Served
          (view d q)
          (view d (BlockingQueue.step q dequeues).0, (BlockingQueue.step q dequeues).1)
  dequeue-Served d q v h =
      subst (λ (r : Spec A × Reply A). Served (view d q) r) (sym (step-Refines d q dequeues v).0)
        (spec-Served (view d q) q.state (contents d q.queue) refl refl h)

  -- A pool that is stopped, with a queue that is in order.
  abbrev pub Stopped : ThreadPool A → Type ℓ
  Stopped p = IsValid p.queue × (p.queue.state ≢ running)

  abbrev pub Active : Option (Worker A) → Type 0
  Active none = ⊥
  Active (some returned) = ⊥
  Active (some _) = Unit {0}

  abbrev Less : A → ThreadPool A → ThreadPool A → Type ℓ
  Less d p p' = (measure d p' < measure d p) × Stopped p'

  received-Less :
      (d : A) (p : ThreadPool A) (i : ℕ) (q : BlockingQueue A) (r : Reply A)
      → Stopped p
      → IsValid q
      → get_elem? p.workers i ≡ some waits
      → Served (view d p.queue) (view d q, r)
      → Less d p (received i r (record p { queue = q })).0
  unfolding received
  received-Less d p i q r s v e (inl (f, l, g)) =
      let w = weights-set p.workers i waits returned e in
      rw f (omega (arith, w, l), (v, λ h. s.1 (sym g ∙ h)))
  received-Less d p i q r s v e (inr (t, f, l, g)) =
      let w = weights-set p.workers i waits (runs t) e in
      rw f (omega (arith, w, l), (v, λ h. s.1 (sym g ∙ h)))

  advance-Less :
      (d : A) (p : ThreadPool A) (i : ℕ) (w : Worker A)
      → Stopped p
      → get_elem? p.workers i ≡ some w
      → Active (some w)
      → Less d p (advance i w p).0
  unfolding advance
  advance-Less d p i waits s e a =
      received-Less d p i (BlockingQueue.step p.queue dequeues).0
        (BlockingQueue.step p.queue dequeues).1 s (step-Refines d p.queue dequeues s.0).1 e
        (dequeue-Served d p.queue s.0 s.1)
  advance-Less d p i (runs t) s e a = (omega (arith, weights-set p.workers i (runs t) waits e), s)
  advance-Less d p i returned s e a = absurd a

  moved-Less :
      (d : A) (p : ThreadPool A) (i : ℕ) (o : Option (Worker A))
      → Stopped p
      → get_elem? p.workers i ≡ o
      → Active o
      → Less d p (moved i o p).0
  moved-Less d p i none s e a = absurd a
  moved-Less d p i (some w) s e a = advance-Less d p i w s e a

  -- Steps of the workers, each of one that is there and has not returned.
  abbrev pub Steps : List ℕ → ThreadPool A → Type 0
  Steps [] p = Unit {0}
  Steps (i ∷ l) p = Active (get_elem? p.workers i) × Steps l (work i p).0

  weights-le : (ws : List (Worker A)) → weights ws ≤ 2 * length ws
  unfolding weights
  weights-le [] = omega arith
  weights-le (waits ∷ ws) = omega (arith, weights-le ws)
  weights-le (runs t ∷ ws) = omega (arith, weights-le ws)
  weights-le (returned ∷ ws) = omega (arith, weights-le ws)

  Steps-le :
      (d : A) (l : List ℕ) (p : ThreadPool A) → Stopped p → Steps l p → length l ≤ measure d p
  unfolding work
  Steps-le d [] p s h = omega arith
  Steps-le d (i ∷ l) p s (a, h) =
      let (less, s') = moved-Less d p i (get_elem? p.workers i) s refl a in
      omega (arith, less, Steps-le d l (moved i (get_elem? p.workers i) p).0 s' h)

  -- Once the queue of a pool is stopped, gracefully or at once, the workers take at most two steps
  -- for each task that waits then, and two for each worker, before all of them have returned, in
  -- whatever order they take them: none of them waits for a task, and `join` ends.
  pub Stopped-ends :
      (d : A) (l : List ℕ) (p : ThreadPool A)
      → Stopped p
      → Steps l p
      → length l ≤ 2 * length (contents d p.queue.queue) + 2 * length p.workers
  Stopped-ends d l p s h = omega (arith, Steps-le d l p s h, weights-le p.workers)
