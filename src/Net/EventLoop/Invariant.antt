-- ===== src/Net/EventLoop/Invariant.antt =====
-- src/net/EventLoop.cc: what holds of a loop whatever its threads have done.
use mcp_server_cpp.Prelude.{
  ℕ, ◌+◌, ◌≤◌, ◌<◌, ◌≡◌, refl, sym, ap, ◌∙◌, Bool, true, false, List, [], ◌∷◌, ◌++◌, append-nil,
  append_assoc, length, length-append, if◌then◌else◌, arith,
}
use mcp_server_cpp.Net.EventLoop.{
  EventLoop, Phase, before, first_poll, polling, handling, calling, queue_outside, wakeup,
  queue_inside, queue_early, polled, handle_read, swap, finish, Step, queues, wakes, queues_early,
  loops, polls_first, polls, reads, handles, swaps, runs, calls, finishes, Reach, starts, steps,
}

module _ {ℓ} {F : Type ℓ} where
  abbrev pub is_calling : Phase F → Bool
  is_calling (calling fs) = true
  is_calling _ = false

  abbrev is_handling : Phase F → Bool
  is_handling handling = true
  is_handling _ = false

  -- Before the first poll has returned.
  abbrev is_early : Phase F → Bool
  is_early before = true
  is_early first_poll = true
  is_early _ = false

  abbrev is_before : Phase F → Bool
  is_before before = true
  is_before _ = false

  -- The functors that the loop has in its hands.
  abbrev pub taken : Phase F → List F
  taken (calling fs) = fs
  taken _ = []

  pub record Inv (s : EventLoop F) : Type ℓ where
    pub flag : s.calling_pending_functors ≡ is_calling s.phase
    pub woken :
        is_handling s.phase ≡ false
        → is_early s.phase ≡ false
        → 1 ≤ length s.pending_functors
        → 1 ≤ s.wakeups + s.waking
    pub first :
        is_early s.phase ≡ true → s.early < length s.pending_functors → 1 ≤ s.wakeups + s.waking
    pub ordered : s.ran ++ taken s.phase ++ s.pending_functors ≡ s.queued

  pushed-ordered :
      (f : F) (s : EventLoop F)
      → Inv s
      → s.ran ++ taken s.phase ++ (s.pending_functors ++ f ∷ []) ≡ s.queued ++ f ∷ []
  pushed-ordered f s v =
      sym (append_assoc (s.ran ++ taken s.phase) s.pending_functors (f ∷ []))
      ∙ ap (λ l. l ++ f ∷ []) v.ordered

  if-Inv :
      (b : Bool) (s t : EventLoop F)
      → (b ≡ true → Inv s)
      → (b ≡ false → Inv t)
      → Inv (if b then s else t)
  if-Inv true s t v w = v refl
  if-Inv false s t v w = w refl

  -- In the thread of the loop, which does not poll.
  inside-Inv :
      (f : F) (s : EventLoop F)
      → Inv s
      → is_early s.phase ≡ false
      → (s.calling_pending_functors ≡ false → is_handling s.phase ≡ true)
      → Inv (queue_inside f s)
  unfolding queue_inside
  inside-Inv f s v l h =
      if-Inv s.calling_pending_functors _ _
        (λ y. record {
          flag = v.flag;
          woken = λ o p n. omega arith;
          first = λ o n. omega arith;
          ordered = pushed-ordered f s v;
        })
        (λ m. record {
          flag = v.flag;
          woken = λ o p n. absurd (ground (arith, h m));
          first = λ o n. absurd (ground (arith, l));
          ordered = pushed-ordered f s v;
        })

  polled-Inv :
      (s : EventLoop F) → Inv s → is_calling s.phase ≡ false → taken s.phase ≡ [] → Inv (polled s)
  polled-Inv s v c t = record {
    flag = v.flag ∙ c;
    woken = λ o p n. absurd (ground arith);
    first = λ o n. absurd (ground arith);
    ordered = ap (λ fs. s.ran ++ fs ++ s.pending_functors) (sym t) ∙ v.ordered;
  }

  step-Inv : {s t : EventLoop F} → Step s t → Inv s → Inv t
  unfolding queue_outside wakeup queue_inside queue_early handle_read swap finish
  step-Inv {s = s} (queues f) v = record {
    flag = v.flag;
    woken = λ h p n. omega arith;
    first = λ h n. omega arith;
    ordered = pushed-ordered f s v;
  }
  step-Inv {s = s} (wakes h) v = record {
    flag = v.flag;
    woken = λ o p n. omega arith;
    first = λ o n. omega arith;
    ordered = v.ordered;
  }
  step-Inv {s = s} (queues_early f e) v = record {
    flag = ground arith;
    woken = λ o p n. absurd (ground (arith, ap is_early e));
    first = λ o n. ground (arith, v.first, length-append s.pending_functors (f ∷ []));
    ordered = ground (arith, pushed-ordered f s v);
  }
  step-Inv {s = s} (loops e) v = record {
    flag = v.flag ∙ ap is_calling e;
    woken = λ o p n. absurd (ground arith);
    first = λ o n. v.first (ap is_early e) n;
    ordered = ap (λ p. s.ran ++ taken p ++ s.pending_functors) (sym e) ∙ v.ordered;
  }
  step-Inv {s = s} (polls_first e) v = polled-Inv s v (ap is_calling e) (ap taken e)
  step-Inv {s = s} (polls e) v = polled-Inv s v (ap is_calling e) (ap taken e)
  step-Inv {s = s} (reads e) v = record {
    flag = v.flag;
    woken = λ o p n. absurd (ground (arith, ap is_handling e));
    first = λ o n. absurd (ground (arith, ap is_early e));
    ordered = v.ordered;
  }
  step-Inv {s = s} (handles f e) v = inside-Inv f s v (ap is_early e) (λ m. ap is_handling e)
  step-Inv {s = s} (swaps e) v = record {
    flag = refl;
    woken = λ o p n. absurd (omega arith);
    first = λ o n. absurd (ground arith);
    ordered =
        append-nil (s.ran ++ s.pending_functors)
        ∙ ap (λ l. l ++ s.pending_functors) (sym (append-nil s.ran))
        ∙ ap (λ p. s.ran ++ taken p ++ s.pending_functors) (sym e)
        ∙ v.ordered;
  }
  step-Inv {s = s} (runs f fs e) v = record {
    flag = v.flag ∙ ap is_calling e;
    woken = λ o p n. v.woken (ap is_handling e) (ap is_early e) n;
    first = λ o n. absurd (ground arith);
    ordered =
        ap (λ l. l ++ s.pending_functors) (append_assoc s.ran (f ∷ []) fs)
        ∙ ap (λ p. s.ran ++ taken p ++ s.pending_functors) (sym e)
        ∙ v.ordered;
  }
  step-Inv {s = s} (calls f fs e) v =
      inside-Inv f s v (ap is_early e) (λ m. absurd (ground (arith, v.flag, ap is_calling e)))
  step-Inv {s = s} (finishes e) v = record {
    flag = refl;
    woken = λ o p n. v.woken (ap is_handling e) (ap is_early e) n;
    first = λ o n. absurd (ground arith);
    ordered = ap (λ p. s.ran ++ taken p ++ s.pending_functors) (sym e) ∙ v.ordered;
  }

  pub Reach-Inv : {s : EventLoop F} → Reach s → Inv s
  Reach-Inv starts = record {
    flag = refl;
    woken = λ h p n. absurd (omega arith);
    first = λ h n. absurd (omega arith);
    ordered = refl;
  }
  Reach-Inv (steps r p) = step-Inv p (Reach-Inv r)

  abbrev pub is_polling : Phase F → Bool
  is_polling first_poll = true
  is_polling polling = true
  is_polling _ = false

  -- What may wait in a poll without a wake up: in the first one, as many functors as the thread of
  -- the loop has queued before it called `loop`.
  abbrev pub left_early : Phase F → ℕ → ℕ
  left_early first_poll early = early
  left_early _ early = 0

  woken_in :
      (p : Phase F) (s : EventLoop F)
      → s.phase ≡ p
      → Inv s
      → is_polling p ≡ true
      → left_early p s.early < length s.pending_functors
      → 1 ≤ s.wakeups + s.waking
  woken_in first_poll s e v h n = v.first (ap is_early e) n
  woken_in polling s e v h n = v.woken (ap is_handling e) (ap is_early e) n
  woken_in _ s e v h n = cc

  -- Whatever the threads have done: while the loop polls and a functor waits, the file descriptor
  -- counts a wake up, or a thread is about to write one. In the first poll this holds where more
  -- functors wait than the thread of the loop has queued before it called `loop`.
  pub Reach-woken :
      {s : EventLoop F}
      → Reach s
      → is_polling s.phase ≡ true
      → left_early s.phase s.early < length s.pending_functors
      → 1 ≤ s.wakeups + s.waking
  Reach-woken {s = s} r h n = woken_in s.phase s refl (Reach-Inv r) h n

  -- Whatever the threads have done: the functors that have run, behind them those that the loop
  -- has in its hands, and behind them those that wait, are all that were queued, in the order in
  -- which they were.
  pub Reach-ordered :
      {s : EventLoop F} → Reach s → s.ran ++ taken s.phase ++ s.pending_functors ≡ s.queued
  Reach-ordered r = (Reach-Inv r).ordered
