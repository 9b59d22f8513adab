-- ===== src/Net/TimerManager/Invariant.antt =====
-- src/net/TimerManager.cc: `timers_` and `activeTimers_` hold the same timers, each once.
use mcp_server_cpp.Prelude.{
  bit, count, count-le, length-count, ℕ, ◌+◌, ◌≤◌, ◌<◌, ◌≡◌, refl, Bool, true, false, some, List,
  [], length, arith, Bool-cases, inl, inr,
}
use mcp_server_cpp.Net.Timer.{Timer, TimerId, id_of, same_id}
use mcp_server_cpp.Net.TimerList.{Entry, insert_entry, contains, erase_id}
use mcp_server_cpp.Net.TimerList.Order.{Ascends, insert_entry-Ascends}
use mcp_server_cpp.Net.TimerList.Count.{
  at, numbered, identified, unkeyed, any, insert_entry-fresh, count-insert_entry, erases,
  contains-count, count-erase_id, length-erase_id,
}
use mcp_server_cpp.Net.TimerManager.{Manager, init, inserted, insert, is_earliest, cancel_active}

-- `held` are the expired timers that `handleRead` holds.
pub record Sets (held timers : List Entry) (active_timers : List TimerId) (num_created : ℕ)
    : Type 0 where
  pub ascends : Ascends 0 timers
  pub keyed : count unkeyed timers ≡ 0
  pub sized : length timers ≡ length active_timers
  pub active : (i : TimerId) → count (same_id i) active_timers ≡ count (identified i) timers
  pub addressed : (a : ℕ) → count (at a) held + count (at a) timers ≤ 1
  pub sequenced : (s : ℕ) → count (numbered s) held + count (numbered s) timers ≤ 1
  pub created : (s : ℕ) → num_created < s → count (numbered s) held + count (numbered s) timers ≡ 0

abbrev pub Valid : List Entry → Manager → Type 0
Valid held m = Sets held m.timers m.active_timers m.num_created

pub init-Valid : Valid [] init
unfolding count
init-Valid = record {
  ascends = tt;
  keyed = refl;
  sized = refl;
  active = λ i. refl;
  addressed = λ a. omega arith;
  sequenced = λ s. omega arith;
  created = λ s h. refl;
}

-- No timer that there is has the address or the sequence of this one.
pub record Fresh (held : List Entry) (t : Timer) (m : Manager) : Type 0 where
  pub address : count (at t.address) held + count (at t.address) m.timers ≡ 0
  pub sequence : count (numbered t.sequence) held + count (numbered t.sequence) m.timers ≡ 0
  pub counted : t.sequence ≤ m.num_created

abbrev pub entry_of : Timer → Entry
entry_of t = record { first = t.expiration; second = t }

module _ (held : List Entry) (t : Timer) (m : Manager) (v : Valid held m) (f : Fresh held t m) where
  absent : contains (id_of t) m.active_timers ≡ false
  absent = elim (Bool-cases (contains (id_of t) m.active_timers)) [
    | inl y ↦ absurd (
        omega (
          arith,
          contains-count (id_of t) m.active_timers y,
          v.active (id_of t),
          count-le (identified (id_of t)) (at t.address) m.timers (λ e h. ground arith),
          f.address,
        ))
    | inr n ↦ n
  ]

  pub entered : (insert_entry (entry_of t) m.timers).1 ≡ true
  entered = insert_entry-fresh (entry_of t) m.timers (omega (arith, f.address))

  counts :
      (p : Entry → Bool) → count p (inserted t m).timers ≡ bit (p (entry_of t)) + count p m.timers
  counts p = count-insert_entry p (entry_of t) m.timers entered

  pub inserted-sized : length (inserted t m).timers ≡ length (inserted t m).active_timers
  inserted-sized = rw absent (
      omega (
        arith,
        counts any,
        length-count any m.timers (λ x. refl),
        length-count any (inserted t m).timers (λ x. refl),
        v.sized,
      ))

  pub inserted-Valid : Valid held (inserted t m)
  unfolding count
  inserted-Valid = record {
    ascends = insert_entry-Ascends 0 (entry_of t) m.timers (omega arith) v.ascends;
    keyed = ground (arith, counts unkeyed, v.keyed);
    sized = inserted-sized;
    active = λ i. rw absent (omega (arith, counts (identified i), v.active i));
    addressed = λ a. ground (arith, counts (at a), v.addressed a, f.address);
    sequenced = λ s. ground (arith, counts (numbered s), v.sequenced s, f.sequence);
    created = λ s h. ground (arith, counts (numbered s), v.created s h, f.counted);
  }

  -- The assertions of `insert` hold.
  pub insert-inserted : insert t m ≡ some (inserted t m, is_earliest t.expiration m.timers)
  unfolding insert
  insert-inserted = ground (arith, absent, entered, v.sized, inserted-sized)

-- What cancelling an active timer leaves.
pub record Cancels (held : List Entry) (i : TimerId) (m : Manager) : Type 0 where
  pub result : Manager
  pub entry : Entry
  pub returned : cancel_active i m ≡ some result
  pub valid : Valid held result
  pub same : identified i entry ≡ true
  pub counts : (p : Entry → Bool) → count p m.timers ≡ bit (p entry) + count p result.timers
  pub keeps_created : result.num_created ≡ m.num_created
  pub keeps_canceling : result.canceling_timers ≡ m.canceling_timers
  pub keeps_calling : result.calling_expired_timers ≡ m.calling_expired_timers
  pub ordered : (n : ℕ) → Ascends n m.timers → Ascends n result.timers

pub Cancels-active :
    (held : List Entry) (i : TimerId) (m : Manager)
    → Valid held m
    → contains i m.active_timers ≡ true
    → Cancels held i m
unfolding cancel_active
Cancels-active held i m v c =
    let some_id = contains-count i m.active_timers c in
    let r =
      erases i m.timers (omega (arith, some_id, v.active i)) (omega (arith, v.addressed i.timer))
        v.keyed in
    let after = record m { timers = r.rest; active_timers = (erase_id i m.active_timers).0 } in
    record {
      result = after;
      entry = r.entry;
      returned = ground (arith, r.found, r.erased);
      valid = record {
        ascends = r.ordered 0 v.ascends;
        keyed = omega (arith, r.counts unkeyed, v.keyed);
        sized = omega (
          arith,
          length-erase_id i m.active_timers some_id,
          length-count any m.timers (λ x. refl),
          length-count any r.rest (λ x. refl),
          r.counts any,
          v.sized,
        );
        active = λ k. ground (
          arith,
          (count-erase_id k i m.active_timers some_id).1,
          r.counts (identified k),
          v.active k,
          r.same,
        );
        addressed = λ a. omega (arith, r.counts (at a), v.addressed a);
        sequenced = λ s. omega (arith, r.counts (numbered s), v.sequenced s);
        created = λ s h. omega (arith, r.counts (numbered s), v.created s h);
      };
      same = r.same;
      counts = r.counts;
      keeps_created = refl;
      keeps_canceling = refl;
      keeps_calling = refl;
      ordered = r.ordered;
    }
