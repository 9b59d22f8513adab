-- ===== src/Net/TimerManager/Tests.antt =====
-- src/net/TimerManager.cc: three timers, one of which cancels another and itself.
use mathlib.Core.List.{Memᴰ}
use mathlib.Core.Path.{subst}
use mcp_server_cpp.Prelude.{
  next_free, next_free-fresh, count, ℕ, ◌+◌, ◌≤◌, ◌≡◌, refl, true, false, some, List, [], ◌∷◌, ◌++◌,
  ◌==◌, if◌then◌else◌, map, sym, ap, arith,
}
use mcp_server_cpp.Net.Timer.{Interval, Timer, TimerId, restart, how_much_time_from_now, fires_at}
use mcp_server_cpp.Net.TimerList.{
  Entry, insert_entry, erase_entry, extract_below, expiration_at, contains, erase_id,
}
use mcp_server_cpp.Net.TimerManager.Invariant.{init-Valid}
use mcp_server_cpp.Net.TimerManager.Armed.{wakes_at, handle_read-armed}
use mcp_server_cpp.Net.TimerManager.History.{
  Idle, ran_of, result_of, run-Idle, cancelled_never_runs, one_shot_once, handle_read-due,
}
use mcp_server_cpp.Net.TimerList.Count.{identified}
use mcp_server_cpp.Net.TimerList.Order.{Ascends, AtMost, AtLeast}
use mcp_server_cpp.Net.TimerManager.Reads.{once}
use mcp_server_cpp.Net.TimerManager.{
  Manager, init, Action, adds, cancels, Event, acts, reads, run, step, handle_read, get_expired,
  run_expired, act_all, act, cancel_in_loop, cancel_active, add_timer, add_timer_in_loop, insert,
  reset, reinsert, reset_timerfd, erase_expired,
}

abbrev never : Interval
never = record { positive = false; microseconds = 0 }

abbrev often : Interval
often = record { positive = true; microseconds = 500 }

-- One timer that runs once, and two that repeat.
abbrev three : List Event
three = acts (adds 0 1000 never) ∷ acts (adds 10 1000 often) ∷ acts (adds 20 900 often) ∷ []

abbrev loaded : Manager
loaded = result_of init (run next_free three init)

abbrev first_id : TimerId
first_id = record { timer = 1; sequence = 1 }

abbrev second_id : TimerId
second_id = record { timer = 2; sequence = 2 }

-- The callback of the first cancels the second, which has expired too.
abbrev callback : Timer → List Action
callback t = if t.sequence == 1 then cancels second_id ∷ [] else []

abbrev later : List Event
later = reads callback 1600 1600 ∷ acts (adds 1700 1800 never) ∷ reads callback 2100 2100 ∷ []

sequences : List Entry → List ℕ
sequences = map λ e. e.second.sequence

ran_test :
    sequences (ran_of (run next_free (reads callback 1000 1010 ∷ later) loaded))
    ≡ 3 ∷ 1 ∷ 2 ∷ 3 ∷ 4 ∷ 3 ∷ []
unfolding run step handle_read get_expired run_expired act_all act cancel_in_loop cancel_active
    add_timer add_timer_in_loop insert reset reinsert reset_timerfd erase_expired sequences
    insert_entry erase_entry extract_below expiration_at contains erase_id restart
    how_much_time_from_now fires_at
ran_test = refl

init-Idle : Idle init
init-Idle = (init-Valid, refl)

loaded-Idle : Idle loaded
loaded-Idle =
    let (m, ran, e, v) = run-Idle next_free next_free-fresh three init init-Idle in
    subst Idle (sym (ap (result_of init) e)) v

abbrev entry : (time address sequence : ℕ) → Interval → Entry
entry time address sequence interval = record {
  first = time;
  second = record {
    address = address;
    expiration = time;
    interval = interval;
    repeat = interval.positive;
    sequence = sequence;
  };
}

abbrev called : Manager
called = result_of loaded (step next_free (reads callback 1000 1010) loaded)

run-Idle_example :
    (m : Manager) × (ran : List Entry) × (run next_free (three ++ later) init ≡ some (m, ran))
    × Idle m
run-Idle_example = run-Idle next_free next_free-fresh (three ++ later) init init-Idle

cancelled_never_runs_example :
    count (identified second_id) (ran_of (run next_free later called)) ≡ 0
unfolding run step handle_read get_expired run_expired act_all act cancel_in_loop cancel_active
    add_timer add_timer_in_loop insert reset reinsert reset_timerfd erase_expired insert_entry
    erase_entry extract_below expiration_at contains erase_id restart how_much_time_from_now
    fires_at
cancelled_never_runs_example =
    cancelled_never_runs next_free next_free-fresh (reads callback 1000 1010) later loaded called
      (entry 900 4 3 often ∷ entry 1000 1 1 never ∷ entry 1000 2 2 often ∷ []) second_id loaded-Idle
      (omega arith) (entry 1000 1 1 never, Memᴰ.tail (Memᴰ.head refl), Memᴰ.head refl) refl

one_shot_once_example :
    count (once first_id) (ran_of (run next_free (reads callback 1000 1010 ∷ later) loaded)) ≤ 1
unfolding run step handle_read get_expired run_expired act_all act cancel_in_loop cancel_active
    add_timer add_timer_in_loop insert reset reinsert reset_timerfd erase_expired insert_entry
    erase_entry extract_below expiration_at contains erase_id restart how_much_time_from_now
    fires_at
one_shot_once_example =
    one_shot_once next_free next_free-fresh (reads callback 1000 1010 ∷ later) loaded first_id
      loaded-Idle (omega arith)

handle_read-due_example :
    (rest : List Entry) × (entry 900 4 3 often ∷ [] ++ rest ≡ loaded.timers)
    × Ascends 0 loaded.timers
    × AtMost 950 (entry 900 4 3 often ∷ [])
    × AtLeast (950 + 1) rest
unfolding run step handle_read get_expired run_expired act_all act cancel_in_loop cancel_active
    add_timer add_timer_in_loop insert reset reinsert reset_timerfd erase_expired insert_entry
    erase_entry extract_below expiration_at contains erase_id restart how_much_time_from_now
    fires_at
handle_read-due_example =
    handle_read-due next_free next_free-fresh callback 950 960 loaded
      (result_of loaded (handle_read next_free callback 950 960 loaded)) (entry 900 4 3 often ∷ [])
      loaded-Idle refl

handle_read-armed_example : called.armed ≡ some (wakes_at 1010 1500)
unfolding run step handle_read get_expired run_expired act_all act cancel_in_loop cancel_active
    add_timer add_timer_in_loop insert reset reinsert reset_timerfd erase_expired insert_entry
    erase_entry extract_below expiration_at contains erase_id restart how_much_time_from_now
    fires_at
handle_read-armed_example =
    handle_read-armed next_free next_free-fresh callback 1000 1010 loaded called
      (entry 900 4 3 often ∷ entry 1000 1 1 never ∷ entry 1000 2 2 often ∷ [])
      (entry 1500 4 3 often) [] loaded-Idle refl refl (omega arith)
