-- ===== src/Utils/BoundedQueue/Cells.antt =====
-- src/utils/mpmc_bounded_queue.h: one step of one thread, seen on the cells and on the counts.
use mcp_server_cpp.Prelude.{ℕ, ◌+◌, ◌≤◌, ◌<◌, ◌≡◌, sym, ap, ◌∙◌, arith}
use mcp_server_cpp.Utils.BoundedQueue.{
  BoundedQueue, History, Pc, slot, Move, call_enqueue, win_enqueue, write, publish, win_dequeue,
  release,
}
use mcp_server_cpp.Utils.BoundedQueue.Slots.{slot-lt, slot-round, slot-next}
use mcp_server_cpp.Utils.BoundedQueue.Invariant.{IsLocal, IsSlot, Inv}

module _ {A : Type 0} {mask n : ℕ} {q : BoundedQueue A} {h : History A} {pc : ℕ → Pc A}
    (inv : Inv mask n q h pc) where
  open inv use {short, wide, within, order, bounded, slots, local, unique, covered, delivery}

  -- A free cell at the cursor of the producers serves their next position.
  pub free-round : {pos : ℕ} → q.seq (slot mask pos) ≡ pos → h.round (slot mask pos) ≡ pos
  free-round {pos} e =
      let s = slots (slot mask pos) (slot-lt mask pos) in
      ground (arith, s.home, s.phase, slot-next mask pos (h.round (slot mask pos)) wide)

  -- A full cell at the cursor of the consumers holds the item of that ticket.
  pub ready-round :
      {pos : ℕ}
      → q.seq (slot mask pos) ≡ pos + 1
      → (h.round (slot mask pos) ≡ pos)
        × (pos < q.enqueue_pos)
        × (q.item (slot mask pos) ≡ h.ticket pos)
  ready-round {pos} e =
      let s = slots (slot mask pos) (slot-lt mask pos) in
      let r : h.round (slot mask pos) ≡ pos =
        ground (arith, s.home, s.phase, slot-next mask (h.round (slot mask pos)) pos wide) in
      let (lt, it) = s.filled (e ∙ ap (λ k. k + 1) (sym r)) in (r, ground arith, it ∙ ap h.ticket r)

  -- The counts after a step.
  pub Move-counts :
      {p p' : Pc A} {q' : BoundedQueue A} {h' : History A}
      → Move mask q h p q' h' p'
      → IsLocal mask q h p
      → (q'.enqueue_pos ≤ n + 1)
        × (q'.dequeue_pos ≤ q'.enqueue_pos)
        × (q'.enqueue_pos ≤ q'.dequeue_pos + mask + 1)
  Move-counts (win_enqueue {pos = pos} e) l =
      let s = slots (slot mask pos) (slot-lt mask pos) in
      let r = free-round (l.1 e) in (omega arith, omega arith, omega (arith, s.high, r, e))
  Move-counts (win_dequeue {pos = pos} e) l =
      let (r, lt, it) = ready-round (l.1 e) in (omega arith, omega (arith, lt, e), omega arith)
  Move-counts mv l = ground arith

  -- The facts about a slot after a step.
  pub Move-IsSlot :
      {p p' : Pc A} {q' : BoundedQueue A} {h' : History A}
      → Move mask q h p q' h' p'
      → IsLocal mask q h p
      → (i : ℕ) → i < mask + 1
      → IsSlot mask q' h' i
  Move-IsSlot (win_enqueue {pos = pos} e) l i lt =
      let s = slots i lt in
      let r = free-round (l.1 e) in
      record {
        home = s.home;
        phase = s.phase;
        filled = λ f. ground (arith, s.filled f);
        low = ground (arith, s.low, s.home, r, slot-round mask (h.round i));
        high = s.high;
        drained = s.drained;
      }
  Move-IsSlot (win_dequeue {pos = pos} e) l i lt =
      let s = slots i lt in
      record {
        home = s.home;
        phase = s.phase;
        filled = s.filled;
        low = s.low;
        high = ground (arith, s.high);
        drained = λ f. ground (arith, s.drained, s.home, l.1 e);
      }
  Move-IsSlot (write {pos = pos}) (lt_e, t, (r, f)) i lt =
      let s = slots i lt in
      record {
        home = s.home;
        phase = s.phase;
        filled = λ g. ground (arith, s.filled g);
        low = s.low;
        high = s.high;
        drained = s.drained;
      }
  Move-IsSlot (publish {pos = pos}) (lt_e, t, w, (r, f)) i lt =
      let s = slots i lt in
      record {
        home = s.home;
        phase = ground (arith, s.phase);
        filled = λ g. ground (arith, s.filled);
        low = s.low;
        high = s.high;
        drained = λ g. ground (arith, s.drained g);
      }
  Move-IsSlot (release {pos = pos}) (lt_d, t, (r, f)) i lt =
      let s = slots i lt in
      record {
        home = ground (arith, s.home, slot-round mask pos);
        phase = ground (arith, s.phase);
        filled = λ g. ground (arith, s.filled);
        low = ground (arith, s.low);
        high = ground (arith, s.high);
        drained = λ g. ground (arith, s.drained, s.low);
      }
  Move-IsSlot call_enqueue l i lt = slots i lt
  Move-IsSlot mv l i lt =
      let s = slots i lt in ground (arith, s.home, s.phase, s.filled, s.low, s.high, s.drained)
