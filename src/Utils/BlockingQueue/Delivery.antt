-- ===== src/Utils/BlockingQueue/Delivery.antt =====
-- src/utils/mpmc_blocking_queue.h: what comes out of the queue, and when nothing more goes in.
use mcp_server_cpp.Prelude.{
  ℕ, zero, suc, none, some, List, [], ◌∷◌, ◌++◌, length, ◌≡◌, ◌≢◌, refl, sym, ap, ap₂, ◌∙◌, arith,
  map, append-nil, append_assoc, replicate,
}
use mcp_server_cpp.Utils.CircularQ.Refine.{contents}
use mcp_server_cpp.Utils.BlockingQueue.{
  BlockingQueue, running, drain, Call, enqueues, overwrites, dequeues, tries_dequeue, Reply, got,
  step, run, after, added, all_added, removed, all_removed, try_dequeue, dequeue, enqueue,
  enqueue_for, enqueue_overwrite, try_locked, try_enqueue, dequeue_for, take_front, stop_gracefully,
  stop_immediately, reset_overrun_counter, reset_discard_counter,
}
use mcp_server_cpp.Utils.BlockingQueue.Spec
use mcp_server_cpp.Utils.BlockingQueue.Spec.{Spec}
use mcp_server_cpp.Utils.BlockingQueue.Refine.{IsValid, view, run_refines, step-Refines, after-view}

abbrev pub KeepsCall {ℓ} : {A : Type ℓ} → Call A → Type 0
KeepsCall (overwrites x) = ⊥
KeepsCall _ = Unit {0}

-- No call of the list is an `enqueue_overwrite`.
abbrev pub Keeps {ℓ} : {A : Type ℓ} → List (Call A) → Type 0
Keeps [] = Unit {0}
Keeps (c ∷ cs) = KeepsCall c × Keeps cs

module _ {ℓ} {A : Type ℓ} where
  step_fifo :
      (s : Spec A) (c : Call A)
      → KeepsCall c
      → removed (Spec.step s c).1 ++ (Spec.step s c).0.items ≡ s.items ++ added c (Spec.step s c).1
  unfolding Spec.step Spec.push
  step_fifo s (overwrites x) k = absurd k
  step_fifo s (enqueues x) k = ground (arith, append-nil s.items)
  step_fifo s _ k = ground (arith, append-nil s.items)

  spec_fifo :
      (s : Spec A) (cs : List (Call A))
      → Keeps cs
      → all_removed (Spec.run s cs) ++ (Spec.after s cs).items
        ≡ s.items ++ all_added cs (Spec.run s cs)
  unfolding Spec.run Spec.after all_added all_removed
  spec_fifo s [] k = sym (append-nil s.items)
  spec_fifo s (c ∷ cs) (kc, ks) =
      let (s', r) = Spec.step s c in
      append_assoc (removed r) (all_removed (Spec.run s' cs)) (Spec.after s' cs).items
      ∙ ap (λ l. removed r ++ l) (spec_fifo s' cs ks)
      ∙ sym (append_assoc (removed r) s'.items (all_added cs (Spec.run s' cs)))
      ∙ ap (λ l. l ++ all_added cs (Spec.run s' cs)) (step_fifo s c kc)
      ∙ append_assoc s.items (added c r) (all_added cs (Spec.run s' cs))

  -- First in, first out: where no call overwrites, the items taken out, and behind them those that
  -- stay, are the items that were there and behind them those added, in that order.
  pub run_fifo :
      (d : A) (q : BlockingQueue A) (cs : List (Call A))
      → IsValid q
      → Keeps cs
      → all_removed (run q cs) ++ contents d (after q cs).queue
        ≡ contents d q.queue ++ all_added cs (run q cs)
  run_fifo d q cs v k = rw (run_refines d q cs v) (
      ap (λ (s : Spec A). all_removed (Spec.run (view d q) cs) ++ s.items) (after-view d q cs v).0
      ∙ spec_fifo (view d q) cs k)

  step_stopped :
      (q : BlockingQueue A) (c : Call A)
      → q.state ≢ running
      → (added c (step q c).1 ≡ []) × ((step q c).0.state ≡ q.state)
  unfolding step enqueue enqueue_for enqueue_overwrite try_locked try_enqueue dequeue dequeue_for
      try_dequeue take_front stop_gracefully stop_immediately reset_overrun_counter
      reset_discard_counter
  step_stopped q (enqueues x) h = ground arith
  step_stopped q (overwrites x) h = ground arith
  step_stopped q _ h = ground arith

  -- Once a queue is stopped no call adds an item, and its stop state never changes again, in
  -- whatever order the threads call it.
  pub stopped_refuses :
      (q : BlockingQueue A) (cs : List (Call A))
      → q.state ≢ running
      → (all_added cs (run q cs) ≡ []) × ((after q cs).state ≡ q.state)
  unfolding run after all_added
  stopped_refuses q [] h = (refl, refl)
  stopped_refuses q (c ∷ cs) h =
      let (a, s) = step_stopped q c h in
      let (rest, t) = stopped_refuses (step q c).0 cs (λ e. h (sym s ∙ e)) in
      (ap₂ ◌++◌ a rest, t ∙ s)

  step_drains :
      (s : Spec A)
      → s.state ≡ drain
      → (s.items ≡ [] → Spec.step s dequeues ≡ (s, got none))
        × ((x : A) (xs : List A)
            → s.items ≡ x ∷ xs
            → Spec.step s dequeues ≡ (record s { items = xs }, got (some x)))
  unfolding Spec.step
  step_drains s h = (λ e. ground arith, λ x xs e. ground arith)

  spec_drains :
      (s : Spec A) (xs : List A) (k : ℕ)
      → s.state ≡ drain
      → s.items ≡ xs
      → Spec.run s (replicate (length xs) dequeues ++ replicate k dequeues)
        ≡ map (λ x. got (some x)) xs ++ replicate k (got none)
  unfolding Spec.run
  spec_drains s [] zero h e = refl
  spec_drains s [] (suc k) h e =
      ap (λ (p : Spec A × Reply A). p.1 ∷ Spec.run p.0 (replicate k dequeues))
        ((step_drains s h).0 e)
      ∙ ap (λ l. got none ∷ l) (spec_drains s [] k h e)
  spec_drains s (x ∷ xs) k h e =
      ap
        (λ (p : Spec A × Reply A).
          p.1 ∷ Spec.run p.0 (replicate (length xs) dequeues ++ replicate k dequeues))
        ((step_drains s h).1 x xs e)
      ∙ ap (λ l. got (some x) ∷ l) (spec_drains (record s { items = xs }) xs k h refl)

  -- After a graceful stop `dequeue` hands out the items that are left, oldest first, and from then
  -- on answers at once that there is none.
  pub drain_delivers :
      (d : A) (q : BlockingQueue A) (k : ℕ)
      → IsValid q
      → q.state ≡ drain
      → run q (replicate (length (contents d q.queue)) dequeues ++ replicate k dequeues)
        ≡ map (λ x. got (some x)) (contents d q.queue) ++ replicate k (got none)
  drain_delivers d q k v h =
      run_refines d q _ v ∙ spec_drains (view d q) (contents d q.queue) k h refl

  -- While a stopped queue drains, `try_dequeue` answers that
  -- there is no item also where `dequeue` hands one out.
  pub try_dequeue-drain :
      (d : A) (q : BlockingQueue A) (x : A) (xs : List A)
      → IsValid q
      → q.state ≡ drain
      → contents d q.queue ≡ x ∷ xs
      → ((step q tries_dequeue).1 ≡ got none) × ((step q dequeues).1 ≡ got (some x))
  unfolding Spec.step
  try_dequeue-drain d q x xs v h e =
      ground (arith, step-Refines d q tries_dequeue v, step-Refines d q dequeues v)
