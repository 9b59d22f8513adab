-- ===== src/Net/TimerManager/Reads.antt =====
-- src/net/TimerManager.cc: what one call of `handleRead` leaves.
use mcp_server_cpp.Prelude.{
  IsAllocator, count, ℕ, ◌+◌, ◌≤◌, ◌<◌, ◌≡◌, ◌≢◌, refl, sym, ap, ◌∙◌, Bool-cases, true, false, not,
  ◌&&◌, Bool, Option, none, some, List, [], ◌∷◌, if◌then◌else◌, arith, inl, inr,
}
use mcp_server_cpp.Net.Timer.{Timer, TimerId, how_much_time_from_now, fires_at, valid}
use mcp_server_cpp.Net.TimerList.{Entry, extract_below}
use mcp_server_cpp.Net.TimerList.Count.{identified, unkeyed, count-extract_below}
use mcp_server_cpp.Net.TimerManager.{
  Manager, Action, get_expired, run_expired, reset_timerfd, next_expire, reinsert, reset,
  handle_read,
}
use mcp_server_cpp.Net.TimerManager.Invariant.{Valid}
use mcp_server_cpp.Net.TimerManager.Acts.{Acts}
use mcp_server_cpp.Net.TimerManager.Cancel.{Stops, identified-le}
use mcp_server_cpp.Net.TimerManager.Callbacks.{Asks, run_expired-lem}
use mcp_server_cpp.Net.TimerManager.Read.{get_expired-lem}
use mcp_server_cpp.Net.TimerManager.Reinsert.{Stops-Drops, Reinserts, renews, reinsert-lem}

-- A timer that does not repeat.
abbrev pub once : TimerId → Entry → Bool
once i e = identified i e && not e.second.repeat

-- Those of the entries that have expired.
abbrev pub due : ℕ → Manager → List Entry
due now m = (extract_below (now + 1) m.timers).0

abbrev pub ArmedAt : ℕ → List Entry → Option ℕ → Type 0
ArmedAt clock [] armed = Unit {0}
ArmedAt clock (x ∷ xs) armed =
    0 < x.first → armed ≡ some (fires_at clock (how_much_time_from_now clock x.first))

-- What one call of `handleRead` leaves.
pub record Reads (allocate : ℕ → List ℕ → ℕ) (does : Timer → List Action) (now clock : ℕ)
    (m : Manager) : Type 0 where
  pub result : Manager
  pub returned : handle_read allocate does now clock m ≡ some (result, due now m)
  pub valid : Valid [] result
  pub idle : result.calling_expired_timers ≡ false
  pub grows : m.num_created ≤ result.num_created
  pub armed : ArmedAt clock result.timers result.armed
  pub gone :
      (i : TimerId)
      → i.sequence ≤ m.num_created
      → count (identified i) m.timers ≡ 0
      → count (identified i) result.timers ≡ 0
  pub stopped :
      (i : TimerId)
      → i.sequence ≤ m.num_created
      → Asks does (due now m) i
      → count (identified i) result.timers ≡ 0
  pub spent :
      (i : TimerId)
      → i.sequence ≤ m.num_created
      → (count (once i) (due now m) ≤ 1)
        × (count (once i) (due now m) ≢ 0 → count (identified i) result.timers ≡ 0)

-- What `reset` does to the timer file descriptor.
abbrev set : ℕ → Manager → Manager
set clock m =
    let next = next_expire m.timers in if valid next then reset_timerfd clock next m else m

armed_first :
    (clock : ℕ) (l : List Entry)
    → count unkeyed l ≡ 0
    → ArmedAt clock l (some (fires_at clock (how_much_time_from_now clock (next_expire l))))
unfolding count
armed_first clock [] k = tt
armed_first clock (x ∷ xs) k =
    let e : x.second.expiration ≡ x.first = ground arith in λ h. rw e refl

armed_never :
    (clock : ℕ) (l : List Entry) (armed : Option ℕ)
    → count unkeyed l ≡ 0
    → valid (next_expire l) ≡ false
    → ArmedAt clock l armed
unfolding count
armed_never clock [] armed k n = tt
armed_never clock (x ∷ xs) armed k n = λ h. absurd (ground arith)

set-ArmedAt :
    (clock : ℕ) (m : Manager)
    → count unkeyed m.timers ≡ 0
    → ArmedAt clock (set clock m).timers (set clock m).armed
unfolding reset_timerfd
set-ArmedAt clock m k = elim (Bool-cases (valid (next_expire m.timers))) [
  | inl y ↦ rw y (armed_first clock m.timers k)
  | inr n ↦ rw n (armed_never clock m.timers m.armed k n)
]

count-once :
    (i : TimerId) (l : List Entry) → count (identified i) l ≡ count (renews i) l + count (once i) l
unfolding count
count-once i [] = omega arith
count-once i (x ∷ xs) = ground (arith, count-once i xs)

-- The manager whose expired timers are called.
abbrev calling : Manager → Manager
calling m = record m { calling_expired_timers = true; canceling_timers = [] }

-- The same when they have been called.
abbrev called : Manager → Manager
called m = record m { calling_expired_timers = false }

set-fields :
    (clock : ℕ) (m : Manager)
    → ((set clock m).timers ≡ m.timers)
      × ((set clock m).active_timers ≡ m.active_timers)
      × ((set clock m).num_created ≡ m.num_created)
      × ((set clock m).calling_expired_timers ≡ m.calling_expired_timers)
unfolding reset_timerfd
set-fields clock m = ground arith

set-Valid : (clock : ℕ) (m : Manager) → Valid [] m → Valid [] (set clock m)
unfolding reset_timerfd
set-Valid clock m v = elim (Bool-cases (valid (next_expire m.timers))) [
  | inl y ↦ rw y v
  | inr n ↦ rw n v
]

module _ (allocate : ℕ → List ℕ → ℕ) (does : Timer → List Action) (now clock : ℕ) where
  handle_read-parts :
      (m m₁ m₂ m₃ : Manager)
      → get_expired now (record m { armed = none }) ≡ some (m₁, due now m)
      → run_expired allocate (due now m) does (due now m) (calling m₁) ≡ some m₂
      → reinsert now (due now m) (called m₂) ≡ some m₃
      → handle_read allocate does now clock m ≡ some (set clock m₃, due now m)
  unfolding handle_read reset
  handle_read-parts m m₁ m₂ m₃ e₁ e₂ e₃ = ground (arith, e₁, e₂, e₃)

  parts-Reads :
      (m m₁ m₂ : Manager)
      → Valid [] m
      → get_expired now (record m { armed = none }) ≡ some (m₁, due now m)
      → m₁.timers ≡ (extract_below (now + 1) m.timers).1
      → m₁.num_created ≡ m.num_created
      → run_expired allocate (due now m) does (due now m) (calling m₁) ≡ some m₂
      → Acts (due now m) (calling m₁) m₂
      → ((i : TimerId)
          → i.sequence ≤ m₁.num_created
          → Asks does (due now m) i
          → Stops (due now m) i m₂)
      → Reinserts now (due now m) (called m₂)
      → Reads allocate does now clock m
  parts-Reads m m₁ m₂ v e₁ t₁ n₁ e₂ p s r =
      let m₃ = r.result in
      let (t, a, n, c) = set-fields clock m₃ in
      let split = λ (q : Entry → Bool). count-extract_below q (now + 1) m.timers in
      let kept : (i : TimerId)
          → i.sequence ≤ m.num_created
          → count (identified i) m₂.timers
            ≤ count (identified i) (extract_below (now + 1) m.timers).1 =
        λ i h. rw (ap (λ l. count (identified i) l) (sym t₁)) (p.fewer i (omega (arith, n₁, h))) in
      record {
        result = set clock m₃;
        returned = handle_read-parts m m₁ m₂ m₃ e₁ e₂ r.returned;
        valid = set-Valid clock m₃ r.valid;
        idle = c ∙ r.keeps_calling;
        grows = omega (arith, n, r.keeps_created, p.grows, n₁);
        armed = set-ArmedAt clock m₃ r.valid.keyed;
        gone = λ i h z.
            ap (count (identified i)) t
            ∙ r.drops i (
              omega (arith, kept i h, split (identified i), z),
              inl (omega (arith, split (identified i), count-once i (due now m), z)),
            );
        stopped = λ i h a.
            ap (count (identified i)) t
            ∙ r.drops i (Stops-Drops (due now m) i m₂ (s i (omega (arith, n₁, h)) a));
        spent = λ i h.
            let one : count (identified i) m.timers ≤ 1 = omega (arith, identified-le [] i m v) in
            (
              omega (arith, one, split (identified i), count-once i (due now m)),
              λ o.
                  ap (count (identified i)) t
                  ∙ r.drops i (
                    omega (arith, kept i h, one, split (identified i), count-once i (due now m), o),
                    inl (omega (arith, one, split (identified i), count-once i (due now m), o)),
                  ),
            );
      }

module _ (allocate : ℕ → List ℕ → ℕ) (fresh : IsAllocator allocate) where
  pub handle_read-lem :
      (does : Timer → List Action) (now clock : ℕ) (m : Manager)
      → Valid [] m
      → Reads allocate does now clock m
  handle_read-lem does now clock m v =
      let (m₁, e₁, v₁, t₁, n₁) = get_expired-lem now (record m { armed = none }) v in
      let (m₂, e₂, p, s) =
        run_expired-lem allocate fresh (due now m) does (due now m) (calling m₁) v₁
          (λ f. absurd (ground arith)) in
      parts-Reads allocate does now clock m m₁ m₂ v e₁ t₁ n₁ e₂ p s
        (reinsert-lem now (due now m) (called m₂) p.valid)
