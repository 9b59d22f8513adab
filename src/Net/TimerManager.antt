-- ===== src/Net/TimerManager.antt =====
-- src/net/TimerManager.cc: the timers of an event loop.
-- All of it runs in the thread of the loop, so that `runInLoop` runs what it is given at once. A
-- failing assertion and undefined behaviour are `none`. `armed` is when the timer file descriptor
-- fires, if it is set: `timerfd_settime` does not fail, and the clock that it counts by runs like
-- that of `Timestamp::now`, whose readings are arguments. The count of the timers made is that of
-- this loop. An address that the allocator gives is an argument of what makes a timer.
pub mod Invariant
pub mod Acts
pub mod Cancel
pub mod Callbacks
pub mod Read
pub mod Reinsert
pub mod Reads
pub mod History
pub mod Armed
mod Tests
use mcp_server_cpp.Prelude.{
  ℕ, zero, suc, ◌+◌, Bool, true, false, not, ◌&&◌, Option, none, some, List, [], ◌∷◌, ◌++◌, map,
  length, if◌then◌else◌, ltb, ◌==◌,
}
use mcp_server_cpp.Net.Timer.{
  Interval, Timer, TimerId, make_timer, restart, id_of, invalid, valid, how_much_time_from_now,
  fires_at,
}
use mcp_server_cpp.Net.TimerList.{
  Entry, insert_entry, erase_entry, extract_below, expiration_at, contains, insert_id, erase_id,
}

pub record Manager : Type 0 where
  pub timers : List Entry
  pub active_timers : List TimerId
  pub calling_expired_timers : Bool
  pub canceling_timers : List TimerId
  pub armed : Option ℕ
  pub num_created : ℕ

-- The constructor.
abbrev pub init : Manager
init = record {
  timers = [];
  active_timers = [];
  calling_expired_timers = false;
  canceling_timers = [];
  armed = none;
  num_created = 0;
}

abbrev pub and_then {ℓ κ} : {A : Type ℓ} {B : Type κ} → Option A → (A → Option B) → Option B
and_then none f = none
and_then (some a) f = f a

-- `assert`.
abbrev pub asserting {ℓ} : {A : Type ℓ} → Bool → Option A → Option A
asserting true k = k
asserting false k = none

-- `timers_.size() == activeTimers_.size()`.
abbrev pub same_size : Manager → Bool
same_size m = length m.timers == length m.active_timers

unfoldable pub reset_timerfd : (clock expiration : ℕ) → Manager → Manager
reset_timerfd clock expiration m = record m {
  armed = some (fires_at clock (how_much_time_from_now clock expiration));
}

-- `it == timers_.end() || when < it->first`.
abbrev pub is_earliest : ℕ → List Entry → Bool
is_earliest when [] = true
is_earliest when (x ∷ xs) = ltb when x.first

-- What `insert` leaves.
abbrev pub inserted : Timer → Manager → Manager
inserted t m = record m {
  active_timers = (insert_id (id_of t) m.active_timers).0;
  timers = (insert_entry (record { first = t.expiration; second = t }) m.timers).0;
}

unfoldable pub insert : Timer → Manager → Option (Manager × Bool)
insert t m = asserting (same_size m) (
    asserting (insert_id (id_of t) m.active_timers).1 (
      asserting (insert_entry (record { first = t.expiration; second = t }) m.timers).1 (
        asserting (same_size (inserted t m))
          (some (inserted t m, is_earliest t.expiration m.timers)))))

unfoldable pub add_timer_in_loop : (clock : ℕ) → Timer → Manager → Option Manager
add_timer_in_loop clock t m = and_then (insert t m) λ (m', earliest_changed).
    some (if earliest_changed then reset_timerfd clock t.expiration m' else m')

-- The addresses of the timers that are alive: those of the manager and those that have expired and
-- are still held by `handleRead`.
abbrev pub addresses : List Entry → List ℕ
addresses = map λ e. e.second.address

unfoldable pub add_timer :
    (allocate : ℕ → List ℕ → ℕ) (held : List Entry) (clock when : ℕ)
    → Interval
    → Manager
    → Option (Manager × TimerId)
add_timer allocate held clock when interval m =
    let address = allocate m.num_created (addresses (held ++ m.timers)) in
    let t = make_timer address m.num_created when interval in
    and_then (add_timer_in_loop clock t (record m { num_created = m.num_created + 1 }))
      λ m'. some (m', id_of t)

-- `activeTimers_.erase(it)` and `timers_.erase(timers_.find(entry))`.
unfoldable pub cancel_active : TimerId → Manager → Option Manager
cancel_active i m = and_then (expiration_at m.timers i.timer) λ when.
    and_then (erase_entry when i.timer m.timers)
      λ timers. some (record m { timers = timers; active_timers = (erase_id i m.active_timers).0 })

unfoldable pub cancel_in_loop : TimerId → Manager → Option Manager
cancel_in_loop i m = asserting (same_size m) (
    and_then
      (if contains i m.active_timers
        then cancel_active i m
        else if m.calling_expired_timers
        then some (record m { canceling_timers = (insert_id i m.canceling_timers).0 })
        else some m)
      λ m'. asserting (same_size m') (some m'))

-- `activeTimers_.erase(timer)` for each expired timer.
unfoldable pub erase_expired : List Entry → List TimerId → Option (List TimerId)
erase_expired [] is = some is
erase_expired (e ∷ es) is =
    let (rest, erased) = erase_id (id_of e.second) is in asserting erased (erase_expired es rest)

-- `end == timers_.end() || now < end->first`.
abbrev pub ends_later : ℕ → List Entry → Bool
ends_later now [] = true
ends_later now (x ∷ xs) = ltb now x.first

unfoldable pub get_expired : (now : ℕ) → Manager → Option (Manager × List Entry)
get_expired now m =
    let (expired, rest) = extract_below (now + 1) m.timers in
    asserting (same_size m) (
      asserting (ends_later now rest) (
        and_then (erase_expired expired m.active_timers) λ active.
          let m' = record m { timers = rest; active_timers = active } in
          asserting (same_size m') (some (m', expired))))

-- What a callback asks of the timers.
pub data Action : Type 0 where
  adds : (clock when : ℕ) → Interval → Action
  cancels : TimerId → Action

module _ (allocate : ℕ → List ℕ → ℕ) (held : List Entry) where
  unfoldable pub act : Action → Manager → Option Manager
  act (adds clock when interval) m =
      and_then (add_timer allocate held clock when interval m) λ (m', i). some m'
  act (cancels i) m = cancel_in_loop i m

  unfoldable pub act_all : List Action → Manager → Option Manager
  act_all [] m = some m
  act_all (a ∷ rest) m = and_then (act a m) λ m'. act_all rest m'

  -- `it.second->run()` for each expired timer; `does` is what its callback does.
  unfoldable pub run_expired : (does : Timer → List Action) → List Entry → Manager → Option Manager
  run_expired does [] m = some m
  run_expired does (e ∷ es) m = and_then (act_all (does e.second) m) λ m'. run_expired does es m'

-- The first loop of `reset`.
unfoldable pub reinsert : (now : ℕ) → List Entry → Manager → Option Manager
reinsert now [] m = some m
reinsert now (e ∷ es) m =
    and_then
      (if e.second.repeat && not (contains (id_of e.second) m.canceling_timers)
        then and_then (insert (restart e.second now) m) (λ (m', earliest_changed). some m')
        else some m)
      λ m'. reinsert now es m'

abbrev pub next_expire : List Entry → ℕ
next_expire [] = invalid
next_expire (x ∷ xs) = x.second.expiration

unfoldable pub reset : (now clock : ℕ) → List Entry → Manager → Option Manager
reset now clock expired m = and_then (reinsert now expired m) λ m'.
    let next = next_expire m'.timers in
    some (if valid next then reset_timerfd clock next m' else m')

-- What the loop does: a call from outside a callback, or the timer file descriptor fires.
pub data Event : Type 0 where
  acts : Action → Event
  reads : (does : Timer → List Action) (now clock : ℕ) → Event

module _ (allocate : ℕ → List ℕ → ℕ) where
  -- The timer file descriptor has fired, so it is no longer set. The timers that ran are returned.
  unfoldable pub handle_read :
      (does : Timer → List Action) (now clock : ℕ) → Manager → Option (Manager × List Entry)
  handle_read does now clock m =
      and_then (get_expired now (record m { armed = none })) λ (m₁, expired).
        and_then
          (run_expired allocate expired does expired
            (record m₁ { calling_expired_timers = true; canceling_timers = [] }))
          λ m₂.
            and_then (reset now clock expired (record m₂ { calling_expired_timers = false }))
              λ m₃. some (m₃, expired)

  unfoldable pub step : Event → Manager → Option (Manager × List Entry)
  step (acts a) m = and_then (act allocate [] a m) λ m'. some (m', [])
  step (reads does now clock) m = handle_read does now clock m

  -- The timers that ran, in the order in which they ran.
  unfoldable pub run : List Event → Manager → Option (Manager × List Entry)
  run [] m = some (m, [])
  run (e ∷ es) m =
      and_then (step e m) λ (m', ran). and_then (run es m') λ (m'', more). some (m'', ran ++ more)
