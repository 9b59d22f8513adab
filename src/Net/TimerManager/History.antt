-- ===== src/Net/TimerManager/History.antt =====
-- src/net/TimerManager.cc: which timers run, and which never run again.
use mathlib.Core.Path.{subst}
use mcp_server_cpp.Prelude.{
  IsAllocator, count, count-append, count-le, ℕ, ◌+◌, ◌≤◌, ◌≡◌, ◌≢◌, refl, sym, ap, ◌∙◌, false,
  Option, none, some, List, [], ◌∷◌, ◌++◌, ℕ_discrete, arith,
}
use mcp_server_cpp.Net.Timer.{Timer, TimerId}
use mcp_server_cpp.Net.TimerList.{Entry, extract_below}
use mcp_server_cpp.Net.TimerList.Count.{identified, count-extract_below}
use mcp_server_cpp.Net.TimerList.Order.{
  AtMost, AtLeast, Ascends, Ascends-AtLeast, extract_below-AtMost, extract_below-Ascends,
  extract_below-append,
}
use mcp_server_cpp.Net.TimerManager.{
  Manager, Action, cancels, Event, acts, reads, handle_read, step, run,
}
use mcp_server_cpp.Net.TimerManager.Invariant.{Valid}
use mcp_server_cpp.Net.TimerManager.Callbacks.{Asks, act-lem}
use mcp_server_cpp.Net.TimerManager.Reads.{due, once, handle_read-lem}

-- Between the calls of the loop.
abbrev pub Idle : Manager → Type 0
Idle m = Valid [] m × (m.calling_expired_timers ≡ false)

-- The timers that an event runs.
abbrev pub ran_by : Event → Manager → List Entry
ran_by (acts a) m = []
ran_by (reads does now clock) m = due now m

-- The timers that ran, where no assertion failed, and the manager that is left.
abbrev pub ran_of : Option (Manager × List Entry) → List Entry
ran_of none = []
ran_of (some (m, ran)) = ran

abbrev pub result_of : Manager → Option (Manager × List Entry) → Manager
result_of d none = d
result_of d (some (m, ran)) = m

-- An event that cancels this timer: from outside, or in the callback of a timer that it runs.
abbrev pub CancelsIn : Event → Manager → TimerId → Type 0
CancelsIn (acts a) m i = a ≡ cancels i
CancelsIn (reads does now clock) m i = Asks does (due now m) i

-- What an event leaves.
pub record Steps (allocate : ℕ → List ℕ → ℕ) (e : Event) (m : Manager) : Type 0 where
  pub result : Manager
  pub returned : step allocate e m ≡ some (result, ran_by e m)
  pub idle : Idle result
  pub grows : m.num_created ≤ result.num_created
  pub gone :
      (i : TimerId)
      → i.sequence ≤ m.num_created
      → count (identified i) m.timers ≡ 0
      → (count (identified i) result.timers ≡ 0) × (count (identified i) (ran_by e m) ≡ 0)
  pub stopped :
      (i : TimerId)
      → i.sequence ≤ m.num_created
      → CancelsIn e m i
      → count (identified i) result.timers ≡ 0
  pub spent :
      (i : TimerId)
      → i.sequence ≤ m.num_created
      → (count (once i) (ran_by e m) ≤ 1)
        × (count (once i) (ran_by e m) ≢ 0 → count (identified i) result.timers ≡ 0)

module _ (allocate : ℕ → List ℕ → ℕ) (fresh : IsAllocator allocate) where
  step-lem : (e : Event) (m : Manager) → Idle m → Steps allocate e m
  unfolding step count
  step-lem (acts a) m (v, o) =
      let (m', e, p, s) = act-lem allocate fresh [] a m v (λ _. refl) in
      record {
        result = m';
        returned = ground (arith, e);
        idle = (p.valid, p.calling ∙ o);
        grows = p.grows;
        gone = λ i h z. (omega (arith, p.fewer i h, z), refl);
        stopped = λ i h c. (s i h c).0;
        spent = λ i h. (omega arith, λ n. absurd (n refl));
      }
  step-lem (reads does now clock) m (v, o) =
      let r = handle_read-lem allocate fresh does now clock m v in
      record {
        result = r.result;
        returned = r.returned;
        idle = (r.valid, r.idle);
        grows = r.grows;
        gone = λ i h z.
            (r.gone i h z, omega (arith, count-extract_below (identified i) (now + 1) m.timers, z));
        stopped = r.stopped;
        spent = r.spent;
      }

  -- What a history leaves.
  abbrev Ends : List Event → Manager → Type 0
  Ends es m = (m' : Manager) × (ran : List Entry) × (run allocate es m ≡ some (m', ran)) × Idle m'

  -- Between the calls of the loop the timers ordered by time and the set of the active ones are in
  -- step, and after any further history, with an allocator that gives no address of a timer that is
  -- alive, they are so again: no assertion has failed, and no address has been read at which there
  -- was no timer.
  pub run-Idle : (es : List Event) (m : Manager) → Idle m → Ends es m
  unfolding run
  run-Idle [] m v = (m, [], refl, v)
  run-Idle (e ∷ es) m v =
      let s = step-lem e m v in
      let (m', ran, q, w) = run-Idle es s.result s.idle in
      (m', ran_by e m ++ ran, ground (arith, s.returned, q), w)

  run-cons :
      (e : Event) (es : List Event) (m : Manager) (v : Idle m)
      → let s = step-lem e m v in
        ran_of (run allocate (e ∷ es) m) ≡ ran_by e m ++ ran_of (run allocate es s.result)
  unfolding run
  run-cons e es m v =
      let s = step-lem e m v in
      let (m', ran, q, w) = run-Idle es s.result s.idle in ground (arith, s.returned, q)

  run-gone :
      (es : List Event) (m : Manager) (i : TimerId)
      → Idle m
      → i.sequence ≤ m.num_created
      → count (identified i) m.timers ≡ 0
      → count (identified i) (ran_of (run allocate es m)) ≡ 0
  unfolding run count
  run-gone [] m i v h z = refl
  run-gone (e ∷ es) m i v h z =
      let s = step-lem e m v in
      rw (run-cons e es m v) (
        omega (
          arith,
          count-append (identified i) (ran_by e m) (ran_of (run allocate es s.result)),
          (s.gone i h z).1,
          run-gone es s.result i s.idle (omega (arith, s.grows, h)) (s.gone i h z).0,
        ))

  -- A timer that an event cancels, from outside or in a callback of the timers that have expired
  -- together, also its own, runs in no later event, if it was made before the event.
  pub cancelled_never_runs :
      (e : Event) (es : List Event) (m m' : Manager) (ran : List Entry) (i : TimerId)
      → Idle m
      → i.sequence ≤ m.num_created
      → CancelsIn e m i
      → step allocate e m ≡ some (m', ran)
      → count (identified i) (ran_of (run allocate es m')) ≡ 0
  cancelled_never_runs e es m m' ran i v h c q =
      let s = step-lem e m v in
      let same : s.result ≡ m' = ap (result_of m) (sym s.returned ∙ q) in
      subst (λ k. count (identified i) (ran_of (run allocate es k)) ≡ 0) same
        (run-gone es s.result i s.idle (omega (arith, s.grows, h)) (s.stopped i h c))

  -- A timer whose interval is not above zero runs at most once, whatever the loop and the callbacks
  -- do from when it has been made.
  pub one_shot_once :
      (es : List Event) (m : Manager) (i : TimerId)
      → Idle m
      → i.sequence ≤ m.num_created
      → count (once i) (ran_of (run allocate es m)) ≤ 1
  unfolding run count
  one_shot_once [] m i v h = omega arith
  one_shot_once (e ∷ es) m i v h =
      let s = step-lem e m v in
      let rest = ran_of (run allocate es s.result) in
      let (le, spent) = s.spent i h in
      let h' : i.sequence ≤ s.result.num_created = omega (arith, s.grows, h) in
      rw (run-cons e es m v) (
        rw (count-append (once i) (ran_by e m) rest)
          (elim (ℕ_discrete (count (once i) (ran_by e m)) 0) [
            | yes z ↦ omega (arith, z, one_shot_once es s.result i s.idle h')
            | no n ↦ omega (
              arith,
              le,
              run-gone es s.result i s.idle h' (spent n),
              count-le (once i) (identified i) rest (λ x y. ground arith),
            )
          ]))

  -- A call of `handleRead` runs the first entries of the set, in the order of their times: all
  -- those that have expired by the time that it reads, and no other.
  pub handle_read-due :
      (does : Timer → List Action) (now clock : ℕ) (m m' : Manager) (ran : List Entry)
      → Idle m
      → handle_read allocate does now clock m ≡ some (m', ran)
      → (rest : List Entry) × (ran ++ rest ≡ m.timers)
        × Ascends 0 m.timers
        × AtMost now ran
        × AtLeast (now + 1) rest
  handle_read-due does now clock m m' ran (v, o) q =
      let r = handle_read-lem allocate fresh does now clock m v in
      let same : due now m ≡ ran = ap (λ k. ran_of k) (sym r.returned ∙ q) in
      subst
        (λ (l : List Entry).
          (rest : List Entry) × (l ++ rest ≡ m.timers)
          × Ascends 0 m.timers
          × AtMost now l
          × AtLeast (now + 1) rest)
        same
        (
          (extract_below (now + 1) m.timers).1,
          extract_below-append (now + 1) m.timers,
          v.ascends,
          extract_below-AtMost now m.timers,
          Ascends-AtLeast (now + 1) _ (extract_below-Ascends 0 now m.timers v.ascends),
        )
