-- ===== src/Net/TimerManager/Acts.antt =====
-- src/net/TimerManager.cc: what adding and cancelling timers does to the timers that there are.
use mcp_server_cpp.Prelude.{
  IsAllocator, count, count-append, count-map, ℕ, ◌+◌, ◌≤◌, ◌≡◌, refl, sym, ◌∙◌, true, some, List,
  ◌++◌, if◌then◌else◌, ◌==◌, arith, Bool-cases, inl, inr,
}
use mcp_server_cpp.Net.Timer.{Interval, Timer, TimerId, id_of, make_timer}
use mcp_server_cpp.Net.TimerList.{Entry, contains}
use mcp_server_cpp.Net.TimerList.Count.{at, identified, count-insert_entry}
use mcp_server_cpp.Net.TimerManager.{
  Manager, addresses, inserted, is_earliest, reset_timerfd, add_timer_in_loop, add_timer,
}
use mcp_server_cpp.Net.TimerManager.Invariant.{
  Valid, Fresh, entry_of, insert-inserted, inserted-Valid, entered,
}

-- What actions leave: no timer is there that was not there, but for new ones.
pub record Acts (held : List Entry) (m m' : Manager) : Type 0 where
  pub valid : Valid held m'
  pub grows : m.num_created ≤ m'.num_created
  pub fewer :
      (i : TimerId)
      → i.sequence ≤ m.num_created
      → count (identified i) m'.timers ≤ count (identified i) m.timers
  pub canceling :
      (i : TimerId) → contains i m.canceling_timers ≡ true → contains i m'.canceling_timers ≡ true
  pub calling : m'.calling_expired_timers ≡ m.calling_expired_timers

pub Acts-refl : (held : List Entry) (m : Manager) → Valid held m → Acts held m m
Acts-refl held m v = record {
  valid = v;
  grows = omega arith;
  fewer = λ i h. omega arith;
  canceling = λ i c. c;
  calling = refl;
}

pub Acts-trans :
    (held : List Entry) {m₁ m₂ m₃ : Manager} → Acts held m₁ m₂ → Acts held m₂ m₃ → Acts held m₁ m₃
Acts-trans held p q = record {
  valid = q.valid;
  grows = omega (arith, p.grows, q.grows);
  fewer = λ i h. omega (arith, p.fewer i h, q.fewer i (omega (arith, p.grows, h)));
  canceling = λ i c. q.canceling i (p.canceling i c);
  calling = q.calling ∙ p.calling;
}

module _ (allocate : ℕ → List ℕ → ℕ) (fresh : IsAllocator allocate) (held : List Entry) where
  allocated : (l : List Entry) (n : ℕ) → count (at (allocate n (addresses l))) l ≡ 0
  allocated l n =
      let a = allocate n (addresses l) in
      sym (count-map (λ b. b == a) (λ e. e.second.address) l) ∙ fresh n (addresses l)

  -- The timer that `addTimer` makes, and the manager that counted it.
  abbrev made : ℕ → Interval → Manager → Timer
  made when interval m =
      make_timer (allocate m.num_created (addresses (held ++ m.timers))) m.num_created when interval

  abbrev counting : Manager → Manager
  counting m = record m { num_created = m.num_created + 1 }

  made-Fresh :
      (when : ℕ) (interval : Interval) (m : Manager)
      → Valid held m
      → Fresh held (made when interval m) (counting m)
  made-Fresh when interval m v =
      let t = made when interval m in
      record {
        address = omega (
          arith,
          allocated (held ++ m.timers) m.num_created,
          count-append (at t.address) held m.timers,
        );
        sequence = v.created t.sequence (omega arith);
        counted = omega arith;
      }

  counting-Valid : (m : Manager) → Valid held m → Valid held (counting m)
  counting-Valid m v = record {
    ascends = v.ascends;
    keyed = v.keyed;
    sized = v.sized;
    active = v.active;
    addressed = v.addressed;
    sequenced = v.sequenced;
    created = λ s h. v.created s (omega (arith, h));
  }

  set-Acts :
      (m m' : Manager) (clock expiration : ℕ)
      → Acts held m m'
      → Acts held m (reset_timerfd clock expiration m')
  unfolding reset_timerfd
  set-Acts m m' clock expiration p = record {
    valid = p.valid;
    grows = p.grows;
    fewer = p.fewer;
    canceling = p.canceling;
    calling = p.calling;
  }

  made-Acts :
      (when : ℕ) (interval : Interval) (m : Manager)
      → Valid held m
      → Acts held m (inserted (made when interval m) (counting m))
  made-Acts when interval m v =
      let t = made when interval m in
      let f = made-Fresh when interval m v in
      let c = counting m in
      record {
        valid = inserted-Valid held t c (counting-Valid m v) f;
        grows = omega arith;
        fewer = λ i h. ground (
          arith,
          count-insert_entry (identified i) (entry_of t) m.timers
              (entered held t c (counting-Valid m v) f),
        );
        canceling = λ i c. c;
        calling = refl;
      }

  -- What adding a timer leaves.
  abbrev pub after_add : (clock when : ℕ) → Interval → Manager → Manager
  after_add clock when interval m =
      let m' = inserted (made when interval m) (counting m) in
      if is_earliest when m.timers then reset_timerfd clock when m' else m'

  pub add-lem :
      (clock when : ℕ) (interval : Interval) (m : Manager)
      → Valid held m
      → add_timer allocate held clock when interval m
        ≡ some (after_add clock when interval m, id_of (made when interval m))
  unfolding add_timer add_timer_in_loop
  add-lem clock when interval m v =
      rw
        (insert-inserted held (made when interval m) (counting m) (counting-Valid m v)
          (made-Fresh when interval m v))
        refl

  pub add-Acts :
      (clock when : ℕ) (interval : Interval) (m : Manager)
      → Valid held m
      → Acts held m (after_add clock when interval m)
  add-Acts clock when interval m v = elim (Bool-cases (is_earliest when m.timers)) [
    | inl y ↦ rw y (set-Acts m _ clock when (made-Acts when interval m v))
    | inr n ↦ rw n (made-Acts when interval m v)
  ]
