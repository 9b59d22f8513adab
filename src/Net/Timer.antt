-- ===== src/Net/Timer.antt =====
-- src/net/Timer.h, src/net/Timer.cc, src/net/TimerId.h, src/net/base/Timestamp.h: a timer, and the
-- time at which it expires.
-- A `Timestamp` is its number of microseconds since the epoch, not before the epoch and without an
-- end; an interval is what the code reads of the `double`: whether it is above zero, and its
-- microseconds. The address of a timer is a number, and its callback is not part of it: what a
-- callback does is an argument where the callbacks are run.
use mcp_server_cpp.Prelude.{ℕ, ◌+◌, ◌-◌, ◌*◌, ◌/◌, ◌%◌, Bool, ◌&&◌, if◌then◌else◌, ltb, ◌==◌}

-- `kMicroSecondsPerSecond`.
abbrev pub microseconds_per_second : ℕ
microseconds_per_second = 1000 * 1000

-- `Timestamp::Timestamp()`.
abbrev pub invalid : ℕ
invalid = 0

abbrev pub valid : ℕ → Bool
valid t = ltb 0 t

pub record Interval : Type 0 where
  pub positive : Bool
  pub microseconds : ℕ

abbrev pub add_seconds : ℕ → Interval → ℕ
add_seconds t i = t + i.microseconds

pub record Timer : Type 0 where
  pub address : ℕ
  pub expiration : ℕ
  pub interval : Interval
  pub repeat : Bool
  pub sequence : ℕ

-- The constructor, at an address and with the count of the timers made before.
abbrev pub make_timer : (address num_created when : ℕ) → Interval → Timer
make_timer address num_created when interval = record {
  address = address;
  expiration = when;
  interval = interval;
  repeat = interval.positive;
  sequence = num_created + 1;
}

unfoldable pub restart : Timer → ℕ → Timer
restart t now =
    if t.repeat
    then record t { expiration = add_seconds now t.interval }
    else record t { expiration = invalid }

-- `TimerId`, and the `ActiveTimer` with the same two members.
pub record TimerId : Type 0 where
  pub timer : ℕ
  pub sequence : ℕ

abbrev pub id_of : Timer → TimerId
id_of t = record { timer = t.address; sequence = t.sequence }

abbrev pub same_id : TimerId → TimerId → Bool
same_id a b = (a.timer == b.timer) && (a.sequence == b.sequence)

pub record Timespec : Type 0 where
  pub tv_sec : ℕ
  pub tv_nsec : ℕ

-- The time is at least 100 microseconds, also where `time` is past.
unfoldable pub how_much_time_from_now : (clock time : ℕ) → Timespec
how_much_time_from_now clock time =
    let microseconds = if ltb time (clock + 100) then 100 else time - clock in
    record {
      tv_sec = microseconds / microseconds_per_second;
      tv_nsec = microseconds % microseconds_per_second * 1000;
    }

-- When a timer file descriptor fires that is set now for so long.
unfoldable pub fires_at : (clock : ℕ) → Timespec → ℕ
fires_at clock ts = clock + ts.tv_sec * microseconds_per_second + ts.tv_nsec / 1000
