-- ===== src/Utils/BlockingQueue/Refine.antt =====
-- src/utils/mpmc_blocking_queue.h against its contract, one critical section after the other.
use mcp_server_cpp.Prelude.{
  some, List, [], ◌∷◌, true, false, length, ◌≡◌, refl, ap, ◌∙◌, arith, inl, inr, ◌⊎◌,
}
use mcp_server_cpp.Utils.CircularQ
use mcp_server_cpp.Utils.CircularQ.{
  CircularQ, push_back, front, pop_front, capacity, full, empty, size,
}
use mcp_server_cpp.Utils.CircularQ.Invariant.{
  push_back-IsValid, capacity-valid, capacity-push_back, capacity-pop_front, size-lt,
}
use mcp_server_cpp.Utils.CircularQ.Invariant
use mcp_server_cpp.Utils.CircularQ.Refine.{
  contents, length-contents, push_bounded, push_back_refines, pop_front_refines, full_iff,
  empty_iff,
}
use mcp_server_cpp.Utils.BlockingQueue.{
  BlockingQueue, Call, enqueues, enqueues_for, overwrites, tries, tries_late, dequeues,
  dequeues_for, tries_dequeue, stops_gracefully, stops_immediately, resets_overrun, resets_discard,
  Reply, pushed, take_front, returns, enqueue, enqueue_for, enqueue_overwrite, try_locked,
  try_enqueue, dequeue, dequeue_for, try_dequeue, stop_gracefully, stop_immediately,
  reset_overrun_counter, reset_discard_counter, step, run, after,
}
use mcp_server_cpp.Utils.BlockingQueue.Spec
use mcp_server_cpp.Utils.BlockingQueue.Spec.{Spec}

abbrev pub IsValid {ℓ} : {A : Type ℓ} → BlockingQueue A → Type ℓ
IsValid q = Invariant.IsValid q.queue

module _ {ℓ} {A : Type ℓ} (d : A) where
  abbrev pub view : BlockingQueue A → Spec A
  view q = record {
    items = contents d q.queue;
    bound = capacity q.queue;
    overruns = q.queue.overrun_counter;
    discards = q.discard_counter;
    state = q.state;
  }

  full-view : (q : BlockingQueue A) → IsValid q → full q.queue ≡ Spec.is_full (view q)
  full-view q v = ground (arith, full_iff v, length-contents d q.queue)

  pushed-view : (q : BlockingQueue A) (x : A) → IsValid q → view (pushed q x) ≡ Spec.push (view q) x
  unfolding Spec.push push_bounded
  pushed-view q x v = ground (arith, push_back_refines d x v, full-view q v, capacity-push_back x v)

  -- Taking from a valid queue: it is empty, or its oldest item comes out and the rest stays.
  Taken : BlockingQueue A → Type ℓ
  Taken q =
      ((contents d q.queue ≡ []) × (empty q.queue ≡ true))
      ⊎ ((x : A) × (q' : BlockingQueue A) × (contents d q.queue ≡ x ∷ (view q').items)
          × (empty q.queue ≡ false)
          × (take_front q ≡ returns (q', some x))
          × (view q' ≡ record (view q) { items = (view q').items })
          × IsValid q')

  take_front-Taken :
      (q : BlockingQueue A) (xs : List A) → contents d q.queue ≡ xs → IsValid q → Taken q
  unfolding Taken take_front
  take_front-Taken q [] e v =
      inl (e, (empty_iff v).1 (omega (arith, length-contents d q.queue, ap length e)))
  take_front-Taken q (x ∷ xs) e v =
      let (f, (r, p, valid, c, o)) = pop_front_refines d x xs v e in
      inr (
        x,
        record q { queue = r },
        rw (e, c),
        ground (arith, empty_iff v, length-contents d q.queue, ap length e),
        rw (f, p, take_front),
        ground (arith, o, capacity-pop_front q.queue r p),
        valid,
      )

  -- What a call leaves, seen through `view`, and that it keeps the ring valid.
  abbrev Refines : BlockingQueue A → Call A → Type ℓ
  Refines q c = ((view (step q c).0, (step q c).1) ≡ Spec.step (view q) c) × IsValid (step q c).0

  enqueue-Refines : (q : BlockingQueue A) (x : A) → IsValid q → Refines q (enqueues x)
  unfolding step Spec.step enqueue
  enqueue-Refines q x v = ground (arith, full-view q v, pushed-view q x v, push_back-IsValid x v)

  enqueue_for-Refines : (q : BlockingQueue A) (x : A) → IsValid q → Refines q (enqueues_for x)
  unfolding step Spec.step enqueue_for
  enqueue_for-Refines q x v =
      ground (arith, full-view q v, pushed-view q x v, push_back-IsValid x v)

  enqueue_overwrite-Refines : (q : BlockingQueue A) (x : A) → IsValid q → Refines q (overwrites x)
  unfolding step Spec.step enqueue_overwrite
  enqueue_overwrite-Refines q x v =
      ground (arith, full-view q v, pushed-view q x v, push_back-IsValid x v)

  try_enqueue-Refines : (q : BlockingQueue A) (x : A) → IsValid q → Refines q (tries x)
  unfolding step Spec.step try_enqueue try_locked
  try_enqueue-Refines q x v =
      ground (arith, full-view q v, pushed-view q x v, push_back-IsValid x v)

  try_locked-Refines : (q : BlockingQueue A) (x : A) → IsValid q → Refines q (tries_late x)
  unfolding step Spec.step try_locked
  try_locked-Refines q x v = ground (arith, full-view q v, pushed-view q x v, push_back-IsValid x v)

  dequeue-Refines : (q : BlockingQueue A) → IsValid q → Refines q dequeues
  unfolding step Spec.step dequeue Taken
  dequeue-Refines q v = ground (arith, take_front-Taken q (contents d q.queue) refl v)

  dequeue_for-Refines : (q : BlockingQueue A) → IsValid q → Refines q dequeues_for
  unfolding step Spec.step dequeue_for Taken
  dequeue_for-Refines q v = ground (arith, take_front-Taken q (contents d q.queue) refl v)

  try_dequeue-Refines : (q : BlockingQueue A) → IsValid q → Refines q tries_dequeue
  unfolding step Spec.step try_dequeue Taken
  try_dequeue-Refines q v = ground (arith, take_front-Taken q (contents d q.queue) refl v)

  -- Every critical section of a valid queue leaves a valid queue, answers what the contract
  -- answers, and leaves the items, the bound, the counters and the stop state of the contract.
  pub step-Refines : (q : BlockingQueue A) (c : Call A) → IsValid q → Refines q c
  unfolding step Spec.step
  step-Refines q (enqueues x) v = enqueue-Refines q x v
  step-Refines q (enqueues_for x) v = enqueue_for-Refines q x v
  step-Refines q (overwrites x) v = enqueue_overwrite-Refines q x v
  step-Refines q (tries x) v = try_enqueue-Refines q x v
  step-Refines q (tries_late x) v = try_locked-Refines q x v
  step-Refines q dequeues v = dequeue-Refines q v
  step-Refines q dequeues_for v = dequeue_for-Refines q v
  step-Refines q tries_dequeue v = try_dequeue-Refines q v
  step-Refines q stops_gracefully v = unfold stop_gracefully in ground arith
  step-Refines q stops_immediately v = unfold stop_immediately in ground arith
  step-Refines q resets_overrun v =
      unfold reset_overrun_counter CircularQ.reset_overrun_counter capacity size in
      (refl, record { slots = v.slots; small = v.small; head_in = v.head_in; tail_in = v.tail_in })
  step-Refines q resets_discard v = unfold reset_discard_counter in ground arith

  -- Whatever the order in which the threads take the mutex, the answers of a valid queue are those
  -- of the contract, started with the items, the bound, the counters and the stop state of the
  -- queue.
  pub run_refines :
      (q : BlockingQueue A) (cs : List (Call A)) → IsValid q → run q cs ≡ Spec.run (view q) cs
  unfolding run Spec.run
  run_refines q [] v = refl
  run_refines q (c ∷ cs) v =
      let (same, valid) = step-Refines q c v in
      ap (λ rs. (step q c).1 ∷ rs) (run_refines (step q c).0 cs valid)
      ∙ ap (λ (p : Spec A × Reply A). p.1 ∷ Spec.run p.0 cs) same

  pub after-view :
      (q : BlockingQueue A) (cs : List (Call A))
      → IsValid q
      → (view (after q cs) ≡ Spec.after (view q) cs) × IsValid (after q cs)
  unfolding after Spec.after
  after-view q [] v = (refl, v)
  after-view q (c ∷ cs) v =
      let (same, valid) = step-Refines q c v in
      let (rest, valid') = after-view (step q c).0 cs valid in
      (rest ∙ ap (λ (p : Spec A × Reply A). Spec.after p.0 cs) same, valid')
