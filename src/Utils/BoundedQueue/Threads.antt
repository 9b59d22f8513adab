-- ===== src/Utils/BoundedQueue/Threads.antt =====
-- src/utils/mpmc_bounded_queue.h: one step of one thread, seen on what the threads know.
use mathlib.Core.Path.{subst}
use mcp_server_cpp.Prelude.{
  update-elim, ℕ, ◌+◌, ◌<◌, ◌^◌, ◌≡◌, ◌⊎◌, refl, sym, ap, ◌∙◌, some, arith, update,
}
use mcp_server_cpp.Utils.BoundedQueue.{
  BoundedQueue, History, Pc, idle, enqueue_claims, enqueue_writes, enqueue_publishes,
  dequeue_claims, dequeue_reads, dequeue_releases, slot, Move, dif, call_enqueue, load_enqueue,
  found_free, win_enqueue, write, publish, load_dequeue, found_ready, win_dequeue, read, release,
}
use mcp_server_cpp.Utils.BoundedQueue.Slots.{slot-lt, slot-next, dif-level}
use mcp_server_cpp.Utils.BoundedQueue.Invariant.{owned, IsLocal, Inv}
use mcp_server_cpp.Utils.BoundedQueue.Cells.{free-round, ready-round}

module _ {A : Type 0} {mask n : ℕ} {q : BoundedQueue A} {h : History A} {pc : ℕ → Pc A}
    (inv : Inv mask n q h pc) where
  open inv use {short, wide, within, order, bounded, slots, local, unique, covered, delivery}

  -- The position of a thread that owns one serves its slot.
  pub owned-round :
      (r : Pc A) (pos : ℕ) → IsLocal mask q h r → owned r ≡ some pos → h.round (slot mask pos) ≡ pos
  owned-round (enqueue_writes x k) pos (lt, t, (s, f)) e = ground arith
  owned-round (enqueue_publishes x k) pos (lt, t, w, (s, f)) e = ground arith
  owned-round (dequeue_reads k) pos (lt, (s, f)) e = ground arith
  owned-round (dequeue_releases k x) pos (lt, t, (s, f)) e = ground arith
  owned-round idle pos l e = cc
  owned-round r pos l e = cc

  -- What another thread knows stays true, if it does not own the position of the one that moves.
  stable :
      {p p' : Pc A} {q' : BoundedQueue A} {h' : History A}
      → Move mask q h p q' h' p'
      → IsLocal mask q h p
      → (r : Pc A) → ((k : ℕ) → owned p ≡ some k → owned r ≡ some k → ⊥)
      → IsLocal mask q h r
      → IsLocal mask q' h' r
  stable (win_enqueue {pos = pos} e) l idle apart m = tt
  stable (win_enqueue {pos = pos} e) l r apart m = ground arith
  stable (win_dequeue {pos = pos} e) l idle apart m = tt
  stable (win_dequeue {pos = pos} e) l r apart m = ground arith
  stable (write {pos = pos}) l idle apart m = tt
  stable (write {pos = pos}) l r apart m = ground (arith, apart pos refl)
  stable (publish {pos = pos}) l (enqueue_claims y k) apart m = ground arith
  stable (publish {pos = pos}) l (dequeue_claims k) apart m =
      ground (arith, slot-next mask pos k wide)
  stable (publish {pos = pos}) l r apart m = ground (arith, apart pos refl)
  stable (release {pos = pos}) l (enqueue_claims y k) apart m =
      ground (arith, slot-next mask k pos wide)
  stable (release {pos = pos}) l (dequeue_claims k) apart m = ground arith
  stable (release {pos = pos}) l r apart m = ground (arith, apart pos refl)
  stable call_enqueue l r apart m = m
  stable mv l r apart m = m

  pub seq-short : (pos : ℕ) → q.seq (slot mask pos) < 2 ^ 63
  seq-short pos =
      let s = slots (slot mask pos) (slot-lt mask pos) in ground (arith, s.phase, s.high)

  -- What the thread that moves knows afterwards.
  own :
      {p p' : Pc A} {q' : BoundedQueue A} {h' : History A}
      → Move mask q h p q' h' p'
      → IsLocal mask q h p
      → IsLocal mask q' h' p'
  own (found_free {pos = pos} e) l =
      (l, λ f. dif-level (q.seq (slot mask pos)) pos (seq-short pos) (omega arith) e)
  own (win_enqueue {pos = pos} e) l = (omega arith, ground arith, (free-round inv (l.1 e), l.1 e))
  own (write {pos = pos}) (lt, t, (r, f)) = (lt, t, ground arith, (r, f))
  own (found_ready {pos = pos} e) l = (
    l,
    λ f.
        dif-level (q.seq (slot mask pos)) (pos + 1) (seq-short pos) (omega arith)
          (ap (dif (q.seq (slot mask pos))) (omega arith) ∙ e),
  )
  own (win_dequeue {pos = pos} e) l = (omega arith, ((ready-round inv (l.1 e)).0, l.1 e))
  own (read {pos = pos}) (lt, (r, f)) = (lt, sym (ready-round inv f).2, (r, f))
  own load_enqueue l = omega arith
  own load_dequeue l = omega arith
  own publish l = tt
  own release l = tt
  own call_enqueue l = tt
  own mv l = tt

  -- The position of an owner is claimed: by a producer, whose cell is empty, or by a consumer.
  pub owned-short :
      (r : Pc A) (pos : ℕ)
      → IsLocal mask q h r
      → owned r ≡ some pos
      → (pos < q.enqueue_pos) × ((q.seq (slot mask pos) ≡ pos) ⊎ (pos < q.dequeue_pos))
  owned-short (enqueue_writes x k) pos (lt, t, (s, f)) e = ground arith
  owned-short (enqueue_publishes x k) pos (lt, t, w, (s, f)) e = ground arith
  owned-short (dequeue_reads k) pos (lt, (s, f)) e = ground arith
  owned-short (dequeue_releases k x) pos (lt, t, (s, f)) e = ground arith
  owned-short idle pos l e = cc
  owned-short r pos l e = cc

  module _ (i : ℕ) where
    pub Move-IsLocal :
        {p p' : Pc A} {q' : BoundedQueue A} {h' : History A}
        → Move mask q h p q' h' p'
        → pc i ≡ p
        → (j : ℕ) → IsLocal mask q' h' (update pc i p' j)
    Move-IsLocal {p} {p'} {q'} {h'} mv e j =
        let l = subst (IsLocal mask q h) e (local i) in
        update-elim (IsLocal mask q' h') pc i p' j (λ same. own mv l)
          (λ other.
            stable mv l (pc j) (λ k f g. other (sym (unique i j k (ap owned e ∙ f) g))) (local j))
