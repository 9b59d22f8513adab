-- ===== src/Net/TimerManager/Armed.antt =====
-- src/net/TimerManager.cc: when the timer file descriptor fires.
use mcp_server_cpp.Prelude.{
  IsAllocator, ℕ, ◌+◌, ◌≡◌, ◌<◌, sym, ap, ◌∙◌, Option, none, some, List, [], ◌∷◌, if◌then◌else◌,
  ltb, arith,
}
use mathlib.Core.Path.{subst}
use mcp_server_cpp.Net.Timer.{Timer, Interval, TimerId, how_much_time_from_now, fires_at}
use mcp_server_cpp.Net.TimerList.{Entry}
use mcp_server_cpp.Net.TimerManager.{
  Manager, Action, reset_timerfd, is_earliest, add_timer, handle_read,
}
use mcp_server_cpp.Net.TimerManager.Acts.{add-lem}
use mcp_server_cpp.Net.TimerManager.Reads.{ArmedAt, handle_read-lem}
use mcp_server_cpp.Net.TimerManager.History.{Idle, result_of}

-- The time of a timer, or 100 microseconds from now where that is sooner.
abbrev pub wakes_at : (clock time : ℕ) → ℕ
wakes_at clock time = if ltb time (clock + 100) then clock + 100 else time

-- The seconds and nanoseconds that are set add up to the time of the timer.
pub fires_at-how_much_time_from_now :
    (clock time : ℕ) → fires_at clock (how_much_time_from_now clock time) ≡ wakes_at clock time
unfolding fires_at how_much_time_from_now
fires_at-how_much_time_from_now clock time = ground arith

abbrev armed_of : Option ℕ → Option (Manager × TimerId) → Option ℕ
armed_of d none = d
armed_of d (some (m, i)) = m.armed

module _ (allocate : ℕ → List ℕ → ℕ) (fresh : IsAllocator allocate) where
  -- After a call of `handleRead` that leaves timers, the first of them at a time above zero, the
  -- timer file descriptor is set to the time of the first, or to 100 microseconds from then where
  -- that is sooner, whatever the callbacks did.
  pub handle_read-armed :
      (does : Timer → List Action) (now clock : ℕ) (m m' : Manager) (ran : List Entry) (x : Entry)
      (xs : List Entry)
      → Idle m
      → handle_read allocate does now clock m ≡ some (m', ran)
      → m'.timers ≡ x ∷ xs
      → 0 < x.first
      → m'.armed ≡ some (wakes_at clock x.first)
  handle_read-armed does now clock m m' ran x xs (v, o) q t h =
      let r = handle_read-lem allocate fresh does now clock m v in
      let same : r.result ≡ m' = ap (result_of m) (sym r.returned ∙ q) in
      let there = subst (λ (k : Manager). ArmedAt clock k.timers k.armed) same r.armed in
      subst (λ (l : List Entry). ArmedAt clock l m'.armed) t there h
      ∙ ap some (fires_at-how_much_time_from_now clock x.first)

  -- Adding a timer between the calls of the loop sets the timer file descriptor to its time, or to
  -- 100 microseconds from then, where it is before all others, and else leaves it as it was.
  pub add_timer-armed :
      (clock when : ℕ) (interval : Interval) (m m' : Manager) (i : TimerId)
      → Idle m
      → add_timer allocate [] clock when interval m ≡ some (m', i)
      → m'.armed ≡ (if is_earliest when m.timers then some (wakes_at clock when) else m.armed)
  unfolding reset_timerfd
  add_timer-armed clock when interval m m' i (v, o) q =
      let same = sym (add-lem allocate fresh [] clock when interval m v) ∙ q in
      sym (ap (armed_of m.armed) same) ∙ ground (arith, fires_at-how_much_time_from_now clock when)
