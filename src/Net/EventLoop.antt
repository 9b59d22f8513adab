-- ===== src/Net/EventLoop.antt =====
-- src/net/EventLoop.cc: the functors that threads leave to the loop, and what wakes the loop.
-- A thread that is not that of the loop queues a functor and then writes to the file descriptor,
-- in two steps, between which others may come; `waking` counts those between the two. The loop
-- polls, handles events, and runs what was queued. A functor, a handler of an event and a channel
-- may queue functors, and what else they do is left out, as is the log. `queued` and `ran` are what
-- has been queued and run so far. The thread that queues with `runInLoop` from within the loop runs
-- the functor at once, which is no step of its own.
pub mod Invariant
mod Tests
use mcp_server_cpp.Prelude.{
  ℕ, ◌+◌, ◌-◌, ◌<◌, ◌≡◌, Bool, true, false, List, [], ◌∷◌, ◌++◌, if◌then◌else◌,
}

-- Where the thread of the loop is: before the call of `loop`, in its first poll, in a later one, and
-- so on; `calling` with the functors that it has not run yet.
pub data Phase {ℓ} (F : Type ℓ) : Type ℓ where
  before first_poll polling handling : Phase F
  calling : List F → Phase F

pub record EventLoop {ℓ} (F : Type ℓ) : Type ℓ where
  pub pending_functors : List F
  pub calling_pending_functors : Bool
  -- What the file descriptor counts.
  pub wakeups : ℕ
  pub waking : ℕ
  pub phase : Phase F
  -- How many functors the thread of the loop has queued before it called `loop`.
  pub early : ℕ
  pub queued : List F
  pub ran : List F

module _ {ℓ} {F : Type ℓ} where
  abbrev pub init : EventLoop F
  init = record {
    pending_functors = [];
    calling_pending_functors = false;
    wakeups = 0;
    waking = 0;
    phase = before;
    early = 0;
    queued = [];
    ran = [];
  }

  abbrev pub pushed : F → EventLoop F → EventLoop F
  pushed f s = record s {
    pending_functors = s.pending_functors ++ f ∷ [];
    queued = s.queued ++ f ∷ [];
  }

  -- `queueInLoop` in another thread, up to `wakeup`, which is the next step of that thread.
  unfoldable pub queue_outside : F → EventLoop F → EventLoop F
  queue_outside f s = record (pushed f s) { waking = s.waking + 1 }

  unfoldable pub wakeup : EventLoop F → EventLoop F
  wakeup s = record s { wakeups = s.wakeups + 1; waking = s.waking - 1 }

  -- `queueInLoop` in the thread of the loop.
  unfoldable pub queue_inside : F → EventLoop F → EventLoop F
  queue_inside f s =
      if s.calling_pending_functors
      then record (pushed f s) { wakeups = s.wakeups + 1 }
      else pushed f s

  -- `queueInLoop` in that thread before it calls `loop`, where nothing is being called.
  unfoldable pub queue_early : F → EventLoop F → EventLoop F
  queue_early f s = record (queue_inside f s) { early = s.early + 1 }

  -- The begin of `loop`.
  abbrev pub looped : EventLoop F → EventLoop F
  looped s = record s { phase = first_poll }

  -- The poller returns, for an event or after its time.
  abbrev pub polled : EventLoop F → EventLoop F
  polled s = record s { phase = handling }

  unfoldable pub handle_read : EventLoop F → EventLoop F
  handle_read s = record s { wakeups = 0 }

  -- The begin of `doPendingFunctors`.
  unfoldable pub swap : EventLoop F → EventLoop F
  swap s = record s {
    phase = calling s.pending_functors;
    pending_functors = [];
    calling_pending_functors = true;
  }

  abbrev pub ran_one : F → List F → EventLoop F → EventLoop F
  ran_one f fs s = record s { phase = calling fs; ran = s.ran ++ f ∷ [] }

  -- The end of `doPendingFunctors`.
  unfoldable pub finish : EventLoop F → EventLoop F
  finish s = record s { phase = polling; calling_pending_functors = false }

  -- A step of one of the threads.
  pub data Step : EventLoop F → EventLoop F → Type ℓ where
    queues : {s : EventLoop F} (f : F) → Step s (queue_outside f s)
    wakes : {s : EventLoop F} → 0 < s.waking → Step s (wakeup s)
    queues_early : {s : EventLoop F} (f : F) → s.phase ≡ before → Step s (queue_early f s)
    loops : {s : EventLoop F} → s.phase ≡ before → Step s (looped s)
    polls_first : {s : EventLoop F} → s.phase ≡ first_poll → Step s (polled s)
    polls : {s : EventLoop F} → s.phase ≡ polling → Step s (polled s)
    reads : {s : EventLoop F} → s.phase ≡ handling → Step s (handle_read s)
    handles : {s : EventLoop F} (f : F) → s.phase ≡ handling → Step s (queue_inside f s)
    swaps : {s : EventLoop F} → s.phase ≡ handling → Step s (swap s)
    runs :
        {s : EventLoop F} (f : F) (fs : List F)
        → s.phase ≡ calling (f ∷ fs)
        → Step s (ran_one f fs s)
    calls :
        {s : EventLoop F} (f : F) (fs : List F) → s.phase ≡ calling fs → Step s (queue_inside f s)
    finishes : {s : EventLoop F} → s.phase ≡ calling [] → Step s (finish s)

  pub data Reach : EventLoop F → Type ℓ where
    starts : Reach init
    steps : {s t : EventLoop F} → Reach s → Step s t → Reach t
