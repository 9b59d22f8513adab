-- ===== src/Utils/BoundedQueue/Safety.antt =====
-- src/utils/mpmc_bounded_queue.h: the states that threads can reach together.
use mcp_server_cpp.Prelude.{
  ℕ, ◌+◌, ◌≤◌, ◌<◌, ◌^◌, ◌≡◌, ◌⊎◌, inl, inr, refl, sym, ap, ◌∙◌, some, arith, dec_lt, add_size,
}
use mcp_server_cpp.Utils.BoundedQueue.{enqueue_tests, dequeue_tests, slot, dif, behind}
use mcp_server_cpp.Utils.BoundedQueue.System.{System, pick, init, Reach, start, later}
use mcp_server_cpp.Utils.BoundedQueue.Slots.{slot-lt, slot-near, dif-behind}
use mcp_server_cpp.Utils.BoundedQueue.Invariant.{owned, IsLocal, IsDelivery, Inv}
use mcp_server_cpp.Utils.BoundedQueue.Moves.{Move-Inv}
use mcp_server_cpp.Utils.BoundedQueue.Threads.{seq-short, owned-round}
use native.Mathlib.Nat.{mod-eq_of_lt}
use mathlib.Core.Path.{subst}

init-Inv :
    {A : Type 0} {mask : ℕ} (d : A)
    → 1 ≤ mask
    → 0 + mask + 1 < 2 ^ 63
    → Inv mask 0 (init mask d).queue (init mask d).history (init mask d).pc
unfolding init slot
init-Inv d wide short = record {
  short = short;
  wide = wide;
  within = omega arith;
  order = omega arith;
  bounded = omega arith;
  slots = λ i lt. record {
    home = mod-eq_of_lt lt;
    phase = inl refl;
    filled = λ e. absurd (omega arith);
    low = omega arith;
    high = omega arith;
    drained = λ e. absurd (omega arith);
  };
  local = λ j. tt;
  unique = λ i j pos e f. cc;
  covered = λ i lt b. absurd (ground arith);
  delivery = tt;
}

module _ {A : Type 0} {mask : ℕ} {d : A} where
  Reach-Inv :
      {n : ℕ} {s : System A}
      → 1 ≤ mask
      → n + mask + 1 < 2 ^ 63
      → Reach mask d n s
      → Inv mask n s.queue s.history s.pc
  Reach-Inv wide short start = init-Inv d wide short
  Reach-Inv wide short (later {n = n} r (pick i mv)) =
      Move-Inv (Reach-Inv wide (omega (arith, short)) r) i short mv

  -- No race on a cell, for a queue of at least two cells and before its cursors can wrap: whatever the
  -- order of the steps, two threads that own positions of one slot, so that they may read or write its
  -- item, are the same thread.
  pub Reach-exclusive :
      {n : ℕ} {s : System A} (i j a b : ℕ)
      → 1 ≤ mask
      → n + mask + 1 < 2 ^ 63
      → Reach mask d n s
      → owned (s.pc i) ≡ some a
      → owned (s.pc j) ≡ some b
      → slot mask a ≡ slot mask b
      → i ≡ j
  Reach-exclusive {s = s} i j a b wide short r e f same =
      let inv = Reach-Inv wide short r in
      let first = owned-round inv (s.pc i) a (inv.local i) e in
      let second = owned-round inv (s.pc j) b (inv.local j) f in
      let equal : a ≡ b = sym first ∙ ap s.history.round same ∙ second in
      inv.unique i j b (e ∙ ap some equal) f

  -- For a queue of at least two cells and before its cursors can wrap: every position that was given
  -- back had been claimed by a consumer, its item is the one with which a producer claimed it, and no
  -- position was given back twice.
  pub Reach-IsDelivery :
      {n : ℕ} {s : System A}
      → 1 ≤ mask
      → n + mask + 1 < 2 ^ 63
      → Reach mask d n s
      → IsDelivery mask s.queue s.history s.history.out
  Reach-IsDelivery wide short r = (Reach-Inv wide short r).delivery

  -- For a queue of at least two cells and before its cursors can wrap: the cursor of the consumers never
  -- passes that of the producers, which is never further ahead than the capacity.
  pub Reach-bounded :
      {n : ℕ} {s : System A}
      → 1 ≤ mask
      → n + mask + 1 < 2 ^ 63
      → Reach mask d n s
      → (s.queue.dequeue_pos ≤ s.queue.enqueue_pos)
        × (s.queue.enqueue_pos ≤ s.queue.dequeue_pos + (mask + 1))
  Reach-bounded wide short r =
      let inv = Reach-Inv wide short r in (inv.order, omega (arith, inv.bounded))

  -- For a queue of at least two cells and before its cursors can wrap: where the test of `enqueue` says
  -- that the queue is full, it is: as many positions are claimed and not
  -- taken as there are cells; or a consumer has taken the oldest cell and is about to give it back.
  pub full_lem :
      {n : ℕ} {s : System A} (i pos : ℕ) (x : A)
      → 1 ≤ mask
      → n + mask + 1 < 2 ^ 63
      → Reach mask d n s
      → s.pc i ≡ enqueue_tests x pos
      → dif (s.queue.seq (slot mask pos)) pos ≡ behind
      → (s.queue.enqueue_pos ≡ s.queue.dequeue_pos + (mask + 1))
        ⊎ ((j : ℕ) × (k : ℕ) × (owned (s.pc j) ≡ some k)
            × (k + (mask + 1) ≡ s.queue.enqueue_pos)
            × (k < s.queue.dequeue_pos))
  full_lem {s = s} i pos x wide short r at e =
      let inv = Reach-Inv wide short r in
      let q = s.queue in
      let c = inv.slots (slot mask pos) (slot-lt mask pos) in
      let l : pos ≤ q.enqueue_pos = subst (IsLocal mask q s.history) at (inv.local i) in
      let lt =
        dif-behind (q.seq (slot mask pos)) pos (seq-short inv pos) (omega (arith, inv.within)) e in
      let k = s.history.round (slot mask pos) in
      let below : k < pos = ground (arith, c.phase) in
      let near = slot-near mask pos k (sym c.home) below (omega (arith, c.low)) in
      elim (dec_lt k q.dequeue_pos) [
        | yes taken ↦
            let (j, o) = inv.covered (slot mask pos) (slot-lt mask pos) (inr taken) in
            inr (j, k, o, omega (arith, c.low), taken)
        | no held ↦ inl (omega (arith, c.low, inv.bounded))
      ]

  -- Where `dequeue` answers that the queue is empty, it is: no position is claimed that is not
  -- taken; or a producer has claimed the next one and has not published its item yet.
  pub empty_lem :
      {n : ℕ} {s : System A} (i pos : ℕ)
      → 1 ≤ mask
      → n + mask + 1 < 2 ^ 63
      → Reach mask d n s
      → s.pc i ≡ dequeue_tests pos
      → dif (s.queue.seq (slot mask pos)) (add_size pos 1) ≡ behind
      → (s.queue.enqueue_pos ≡ s.queue.dequeue_pos)
        ⊎ ((j : ℕ) × (owned (s.pc j) ≡ some s.queue.dequeue_pos))
  empty_lem {s = s} i pos wide short r at e =
      let inv = Reach-Inv wide short r in
      let q = s.queue in
      let c = inv.slots (slot mask pos) (slot-lt mask pos) in
      let l : pos ≤ q.dequeue_pos = subst (IsLocal mask q s.history) at (inv.local i) in
      let next : add_size pos 1 ≡ pos + 1 = omega (arith, inv.within, inv.order) in
      let lt =
        dif-behind (q.seq (slot mask pos)) (pos + 1) (seq-short inv pos)
          (omega (arith, inv.within, inv.order))
          (ap (dif (q.seq (slot mask pos))) (sym next) ∙ e) in
      let k = s.history.round (slot mask pos) in
      let near = slot-near mask pos k (sym c.home) in
      elim (dec_lt k pos) [
        | yes below ↦
            let far = near below (omega (arith, c.low, inv.order)) in
            inl (omega (arith, c.low, inv.order))
        | no above ↦ elim (dec_lt q.dequeue_pos q.enqueue_pos) [
          | no none_left ↦ inl (omega (arith, inv.order))
          | yes some_left ↦
              let unfilled : q.seq (slot mask pos) ≡ k = ground (arith, c.phase) in
              let here : k ≡ q.dequeue_pos = ground (arith, c.drained, c.phase) in
              let (j, o) =
                inv.covered (slot mask pos) (slot-lt mask pos) (inl (omega arith, unfilled)) in
              inr (j, o ∙ ap some here)
        ]
      ]
