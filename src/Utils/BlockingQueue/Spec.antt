-- ===== src/Utils/BlockingQueue/Spec.antt =====
-- The contract of mpmc_blocking_queue.h, over a list of items instead of a ring.
use mcp_server_cpp.Prelude.{
  ℕ, none, some, List, [], ◌∷◌, ◌++◌, Bool, true, false, if◌then◌else◌, add_size, length, drop,
  ◌==◌,
}
use mcp_server_cpp.Utils.BlockingQueue.{
  State, running, drain, immediate, Call, enqueues, enqueues_for, overwrites, tries, tries_late,
  dequeues, dequeues_for, tries_dequeue, stops_gracefully, stops_immediately, resets_overrun,
  resets_discard, Reply, blocked, done, accepted, got,
}

-- Oldest item first.
pub record Spec {ℓ} (A : Type ℓ) : Type ℓ where
  pub items : List A
  pub bound : ℕ
  pub overruns : ℕ
  pub discards : ℕ
  pub state : State

module _ {ℓ} {A : Type ℓ} where
  abbrev pub is_full : Spec A → Bool
  is_full s = length s.items == s.bound

  -- A new item joins the end; at the bound the oldest item is given up and counted.
  unfoldable pub push : Spec A → A → Spec A
  push s x =
      if is_full s
      then record s { items = drop 1 (s.items ++ x ∷ []); overruns = add_size s.overruns 1 }
      else record s { items = s.items ++ x ∷ [] }

  -- An offer that may wait for room answers `full` when there is none.
  offer : State → Spec A → A → Bool → Spec A × Reply A → Spec A × Reply A
  offer running s x false full = (push s x, accepted true)
  offer running s x true full = full
  offer _ s x b full = (s, accepted false)

  -- The oldest item, or `empty` where there is none.
  take : Spec A → List A → Spec A × Reply A → Spec A × Reply A
  take s [] empty = empty
  take s (x ∷ xs) empty = (record s { items = xs }, got (some x))

  stop : State → Spec A → State → Spec A
  stop running s t = record s { state = t }
  stop _ s t = s

  serve : State → Spec A → Reply A → Spec A × Reply A
  unfolding take
  serve running s when_empty = take s s.items (s, when_empty)
  serve drain s when_empty = take s s.items (s, got none)
  serve immediate s when_empty = (s, got none)

  serve_now : State → Spec A → Spec A × Reply A
  unfolding take
  serve_now running s = take s s.items (s, got none)
  serve_now _ s = (s, got none)

  unfoldable pub step : Spec A → Call A → Spec A × Reply A
  unfolding offer serve serve_now stop
  step s (enqueues x) = offer s.state s x (is_full s) (s, blocked)
  step s (enqueues_for x) = offer s.state s x (is_full s) (s, accepted false)
  step s (overwrites x) = offer s.state s x false (s, accepted false)
  step s (tries x) =
      offer s.state s x (is_full s) (record s { discards = add_size s.discards 1 }, accepted false)
  step s (tries_late x) =
      if is_full s
      then (record s { discards = add_size s.discards 1 }, accepted false)
      else offer s.state s x false (s, accepted false)
  step s dequeues = serve s.state s blocked
  step s dequeues_for = serve s.state s (got none)
  step s tries_dequeue = serve_now s.state s
  step s stops_gracefully = (stop s.state s drain, done)
  step s stops_immediately = (stop s.state s immediate, done)
  step s resets_overrun = (record s { overruns = 0 }, done)
  step s resets_discard = (record s { discards = 0 }, done)

  unfoldable pub run : Spec A → List (Call A) → List (Reply A)
  run s [] = []
  run s (c ∷ cs) = let (s', r) = step s c in r ∷ run s' cs

  unfoldable pub after : Spec A → List (Call A) → Spec A
  after s [] = s
  after s (c ∷ cs) = after (step s c).0 cs
