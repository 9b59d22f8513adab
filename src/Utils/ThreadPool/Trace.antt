-- ===== src/Utils/ThreadPool/Trace.antt =====
-- src/utils/thread_pool.cc: which tasks the workers start.
use mcp_server_cpp.Prelude.{
  ℕ, ◌≡◌, refl, sym, ap, ap₂, ◌∙◌, append-nil, append_assoc, Bool, Option, none, some, List, [],
  ◌∷◌, ◌++◌, get_elem?,
}
use mcp_server_cpp.Utils.CircularQ.Refine.{contents}
use mcp_server_cpp.Utils.BlockingQueue
use mcp_server_cpp.Utils.BlockingQueue.{
  BlockingQueue, Call, enqueues, enqueues_for, overwrites, tries, dequeues, stops_gracefully,
  stops_immediately, resets_overrun, resets_discard, Reply, got, blocked, fault, done, accepted,
  Outcome, faults, returns, settled, after, all_removed, removed, all_added,
}
use mcp_server_cpp.Utils.BlockingQueue.Refine.{IsValid}
use mcp_server_cpp.Utils.BlockingQueue.Delivery.{Keeps, run_fifo}
use mcp_server_cpp.Utils.ThreadPool.{
  ThreadPool, Worker, waits, runs, returned, Action, submits, submits_overwrite, tries_submit,
  submits_for, stops_gracefully_pool, stops_immediately_pool, resets_stats, works, submit,
  submit_overwrite, try_submit, submit_for, stop_gracefully, stop_immediately, reset_stats,
  received, advance, moved, work, step, run,
}

module _ {ℓ} {A : Type ℓ} where
  -- The call of the queue that a worker makes.
  abbrev asks : Option (Worker A) → List (Call A)
  asks (some waits) = dequeues ∷ []
  asks _ = []

  -- The calls of the queue that an action makes.
  abbrev pub calls : Action A → ThreadPool A → List (Call A)
  calls (submits t) p = enqueues t ∷ []
  calls (submits_overwrite t) p = overwrites t ∷ []
  calls (tries_submit t) p = tries t ∷ []
  calls (submits_for t) p = enqueues_for t ∷ []
  calls stops_gracefully_pool p = stops_gracefully ∷ []
  calls stops_immediately_pool p = stops_immediately ∷ []
  calls resets_stats p = resets_overrun ∷ resets_discard ∷ []
  calls (works i) p = asks (get_elem? p.workers i)

  unfoldable pub trace : List (Action A) → ThreadPool A → List (Call A)
  trace [] p = []
  trace (a ∷ l) p = calls a p ++ trace l (step a p).0

  after-append :
      (q : BlockingQueue A) (cs ds : List (Call A)) → after q (cs ++ ds) ≡ after (after q cs) ds
  unfolding after
  after-append q [] ds = refl
  after-append q (c ∷ cs) ds = after-append (BlockingQueue.step q c).0 cs ds

  all_removed-append :
      (q : BlockingQueue A) (cs ds : List (Call A))
      → all_removed (BlockingQueue.run q (cs ++ ds))
        ≡ all_removed (BlockingQueue.run q cs) ++ all_removed (BlockingQueue.run (after q cs) ds)
  unfolding after all_removed BlockingQueue.run
  all_removed-append q [] ds = refl
  all_removed-append q (c ∷ cs) ds =
      let (q', r) = BlockingQueue.step q c in
      ap (λ l. removed r ++ l) (all_removed-append q' cs ds)
      ∙ sym (append_assoc (removed r) (all_removed (BlockingQueue.run q' cs)) _)

  -- An action changes the queue by its calls, and starts what they take out.
  abbrev Traced : ThreadPool A → List (Call A) → ThreadPool A × List A → Type ℓ
  Traced p cs (p', started) =
      (p'.queue ≡ after p.queue cs) × (started ≡ all_removed (BlockingQueue.run p.queue cs))

  received-queue :
      (i : ℕ) (r : Reply A) (p : ThreadPool A)
      → ((received i r p).0.queue ≡ p.queue) × ((received i r p).1 ≡ removed r)
  unfolding received
  received-queue i (got (some t)) p = (refl, refl)
  received-queue i (got none) p = (refl, refl)
  received-queue i blocked p = (refl, refl)
  received-queue i fault p = (refl, refl)
  received-queue i done p = (refl, refl)
  received-queue i (accepted ok) p = (refl, refl)

  -- An offer takes nothing out.
  settled-removed :
      (q : BlockingQueue A) (o : Outcome (BlockingQueue A × Bool))
      → removed (settled q accepted o).1 ≡ []
  settled-removed q BlockingQueue.waits = refl
  settled-removed q faults = refl
  settled-removed q (returns r) = refl

  moved-Traced :
      (i : ℕ) (o : Option (Worker A)) (p : ThreadPool A) → Traced p (asks o) (moved i o p)
  unfolding advance after all_removed BlockingQueue.run
  moved-Traced i none p = (refl, refl)
  moved-Traced i (some waits) p =
      let (q, r) = BlockingQueue.step p.queue dequeues in
      let (e, f) = received-queue i r (record p { queue = q }) in
      (e, f ∙ sym (append-nil (removed r)))
  moved-Traced i (some (runs t)) p = (refl, refl)
  moved-Traced i (some returned) p = (refl, refl)

  step-Traced : (a : Action A) (p : ThreadPool A) → Traced p (calls a p) (step a p)
  unfolding step after all_removed BlockingQueue.run submit submit_overwrite try_submit submit_for
      stop_gracefully stop_immediately reset_stats work BlockingQueue.step
  step-Traced (works i) p = moved-Traced i (get_elem? p.workers i) p
  step-Traced (submits t) p =
      (refl, sym (ap (λ l. l ++ []) (settled-removed p.queue (BlockingQueue.enqueue p.queue t))))
  step-Traced (submits_overwrite t) p = (refl, refl)
  step-Traced (tries_submit t) p = (refl, refl)
  step-Traced (submits_for t) p = (refl, refl)
  step-Traced stops_gracefully_pool p = (refl, refl)
  step-Traced stops_immediately_pool p = (refl, refl)
  step-Traced resets_stats p = (refl, refl)

  run-Traced : (l : List (Action A)) (p : ThreadPool A) → Traced p (trace l p) (run l p)
  unfolding run trace after all_removed BlockingQueue.run
  run-Traced [] p = (refl, refl)
  run-Traced (a ∷ l) p =
      let (e, f) = step-Traced a p in
      let p' = (step a p).0 in
      let (e', f') = run-Traced l p' in
      (
        e' ∙ ap (λ q. after q (trace l p')) e ∙ sym (after-append p.queue (calls a p) (trace l p')),
        ap₂ (λ x y. x ++ y) f (f' ∙ ap (λ q. all_removed (BlockingQueue.run q (trace l p'))) e)
            ∙ sym (all_removed-append p.queue (calls a p) (trace l p')),
      )

  -- Where no task overwrites another, the tasks that the workers have started, and behind them
  -- those that wait, are the tasks that waited at first and behind them those that were accepted
  -- since, in that order: each is started once, in the order of its submission.
  pub run-starts :
      (d : A) (l : List (Action A)) (p : ThreadPool A)
      → IsValid p.queue
      → Keeps (trace l p)
      → (run l p).1 ++ contents d (run l p).0.queue.queue
        ≡ contents d p.queue.queue ++ all_added (trace l p) (BlockingQueue.run p.queue (trace l p))
  run-starts d l p v k =
      let (e, f) = run-Traced l p in
      ap₂ (λ x (q : BlockingQueue A). x ++ contents d q.queue) f e
      ∙ run_fifo d p.queue (trace l p) v k
