-- ===== src/Net/TimerManager/Cancel.antt =====
-- src/net/TimerManager.cc: cancelling a timer, active or expired.
use mcp_server_cpp.Prelude.{
  count, count-le, ◌+◌, ◌≤◌, ◌≡◌, ◌⊎◌, refl, ap, ◌∙◌, true, false, some, List, arith, Bool-cases,
  inl, inr,
}
use mcp_server_cpp.Net.Timer.{TimerId}
use mcp_server_cpp.Net.TimerList.{Entry, contains, insert_id}
use mcp_server_cpp.Net.TimerList.Count.{numbered, identified, contains-absent}
use mcp_server_cpp.Net.TimerManager.{Manager, cancel_in_loop}
use mcp_server_cpp.Net.TimerManager.Invariant.{Valid, Cancels-active}
use mcp_server_cpp.Net.TimerManager.Acts.{Acts, Acts-refl}

-- A timer that will not be run again: it is not in the set, and, if it has expired, is one of those
-- that are cancelled.
abbrev pub Stops : List Entry → TimerId → Manager → Type 0
Stops held i m =
    (count (identified i) m.timers ≡ 0)
    × ((count (identified i) held ≡ 0) ⊎ (contains i m.canceling_timers ≡ true))

pub contains-insert_id :
    (i j : TimerId) (l : List TimerId) → contains i l ≡ true → contains i (insert_id j l).0 ≡ true
unfolding contains
contains-insert_id i j l c = ground arith

pub contains-insert_self : (i : TimerId) (l : List TimerId) → contains i (insert_id i l).0 ≡ true
unfolding contains
contains-insert_self i l = ground arith

-- No two timers have one identifier.
pub identified-le :
    (held : List Entry) (i : TimerId) (m : Manager)
    → Valid held m
    → count (identified i) held + count (identified i) m.timers ≤ 1
identified-le held i m v = omega (
  arith,
  v.sequenced i.sequence,
  count-le (identified i) (numbered i.sequence) held (λ e h. ground arith),
  count-le (identified i) (numbered i.sequence) m.timers (λ e h. ground arith),
)

module _ (held : List Entry) where
  pub cancel-lem :
      (i : TimerId) (m : Manager)
      → Valid held m
      → (m.calling_expired_timers ≡ false → count (identified i) held ≡ 0)
      → (m' : Manager) × (cancel_in_loop i m ≡ some m') × Acts held m m' × Stops held i m'
  unfolding cancel_in_loop
  cancel-lem i m v h = elim (Bool-cases (contains i m.active_timers)) [
    | inl y ↦
        let r = Cancels-active held i m v y in
        (
          r.result,
          ground (arith, r.returned, v.sized, r.valid.sized),
          record {
            valid = r.valid;
            grows = omega (arith, r.keeps_created);
            fewer = λ k l. omega (arith, r.counts (identified k));
            canceling = λ k c. ap (contains k) r.keeps_canceling ∙ c;
            calling = r.keeps_calling;
          },
          ground (arith, r.counts (identified i), r.same, identified-le held i m v),
        )
    | inr n ↦
        let gone : count (identified i) m.timers ≡ 0 =
          ground (arith, v.active i, contains-absent i m.active_timers n) in
        elim (Bool-cases m.calling_expired_timers) [
          | inl y ↦ (
            record m { canceling_timers = (insert_id i m.canceling_timers).0 },
            ground (arith, v.sized),
            record {
              valid = v;
              grows = omega arith;
              fewer = λ k l. omega arith;
              canceling = λ k c. contains-insert_id k i m.canceling_timers c;
              calling = refl;
            },
            (gone, inr (contains-insert_self i m.canceling_timers)),
          )
          | inr o ↦ (m, ground (arith, v.sized), Acts-refl held m v, (gone, inl (h o)))
        ]
  ]
