-- ===== src/Utils/BoundedQueue/Owners.antt =====
-- src/utils/mpmc_bounded_queue.h: one step of one thread, seen on who owns the cells.
use mathlib.Core.Path.{subst}
use mcp_server_cpp.Prelude.{
  update-elim, ℕ, ◌+◌, ◌<◌, ◌≡◌, ◌≢◌, refl, sym, ap, ◌∙◌, some, arith, update, ℕ_discrete,
}
use mcp_server_cpp.Utils.BoundedQueue.{
  BoundedQueue, History, Pc, slot, Move, call_enqueue, win_enqueue, write, publish, win_dequeue,
  read, release,
}
use mcp_server_cpp.Utils.BoundedQueue.Invariant.{owned, IsLocal, IsBusy, Inv}
use mcp_server_cpp.Utils.BoundedQueue.Threads.{owned-short}

module _ {A : Type 0} {mask n : ℕ} {q : BoundedQueue A} {h : History A} {pc : ℕ → Pc A}
    (inv : Inv mask n q h pc) where
  open inv use {short, wide, within, order, bounded, slots, local, unique, covered, delivery}

  module _ (i : ℕ) where
    -- A thread that comes to own a position is the only one that does.
    alone :
        {p p' : Pc A} {q' : BoundedQueue A} {h' : History A}
        → Move mask q h p q' h' p'
        → pc i ≡ p
        → IsLocal mask q h p
        → (j k : ℕ) → owned p' ≡ some k
        → owned (pc j) ≡ some k
        → j ≡ i
    alone (win_enqueue {pos = pos} e) at l j k f g =
        absurd (ground (arith, owned-short inv (pc j) k (local j) g))
    alone (win_dequeue {pos = pos} e) at l j k f g =
        absurd (ground (arith, owned-short inv (pc j) k (local j) g, l.1 e))
    alone (write {pos = pos}) at l j k f g = sym (unique i j k (ap owned at ∙ f) g)
    alone (read {pos = pos}) at l j k f g = sym (unique i j k (ap owned at ∙ f) g)
    alone call_enqueue at l j k f g = cc
    alone mv at l j k f g = cc

    pub Move-unique :
        {p p' : Pc A} {q' : BoundedQueue A} {h' : History A}
        → Move mask q h p q' h' p'
        → pc i ≡ p
        → (a b k : ℕ) → owned (update pc i p' a) ≡ some k
        → owned (update pc i p' b) ≡ some k
        → a ≡ b
    Move-unique {p} {p'} mv e a b k =
        let l = subst (IsLocal mask q h) e (local i) in
        update-elim (λ r. owned r ≡ some k → owned (update pc i p' b) ≡ some k → a ≡ b) pc i p' a
          (λ first.
            update-elim (λ r. owned p' ≡ some k → owned r ≡ some k → a ≡ b) pc i p' b
              (λ second f g. first ∙ sym second) (λ second f g. first ∙ sym (alone mv e l b k f g)))
          (λ first.
            update-elim (λ r. owned (pc a) ≡ some k → owned r ≡ some k → a ≡ b) pc i p' b
              (λ second f g. alone mv e l a k g f ∙ sym second) (λ second f g. unique a b k f g))

    -- An owner of a slot that does not move stays its owner.
    keeps :
        {p : Pc A} (p' : Pc A) (k : ℕ)
        → pc i ≡ p
        → owned p ≢ some k
        → ((j : ℕ) × (owned (pc j) ≡ some k))
        → (j : ℕ) × (owned (update pc i p' j) ≡ some k)
    keeps p' k e n (j, f) = (
      j,
      update-elim (λ r. owned r ≡ some k) pc i p' j
          (λ same. absurd (n (sym (ap owned e) ∙ ap (λ z. owned (pc z)) (sym same) ∙ f)))
          (λ other. f),
    )

    takes : (p' : Pc A) (k : ℕ) → owned p' ≡ some k → (j : ℕ) × (owned (update pc i p' j) ≡ some k)
    takes p' k f = (
      i,
      update-elim (λ r. owned r ≡ some k) pc i p' i (λ same. f) (λ other. absurd (other refl)),
    )

    pub Move-covered :
        {p p' : Pc A} {q' : BoundedQueue A} {h' : History A}
        → Move mask q h p q' h' p'
        → pc i ≡ p
        → IsLocal mask q h p
        → (s : ℕ) → s < mask + 1
        → IsBusy mask q' h' s
        → (j : ℕ) × (owned (update pc i p' j) ≡ some (h'.round s))
    Move-covered {p' = p'} (win_enqueue {pos = pos} g) e l s lt busy =
        elim (ℕ_discrete (h.round s) pos) [
          | yes same ↦ takes p' (h.round s) (ap some (sym same))
          | no other ↦ keeps p' (h.round s) e (λ f. cc) (covered s lt (ground arith))
        ]
    Move-covered {p' = p'} (win_dequeue {pos = pos} g) e l s lt busy =
        elim (ℕ_discrete (h.round s) pos) [
          | yes same ↦ takes p' (h.round s) (ap some (sym same))
          | no other ↦ keeps p' (h.round s) e (λ f. cc) (covered s lt (ground arith))
        ]
    Move-covered {p' = p'} (write {pos = pos}) e l s lt busy = elim (ℕ_discrete (h.round s) pos) [
      | yes same ↦ takes p' (h.round s) (ap some (sym same))
      | no other ↦ keeps p' (h.round s) e (λ f. ground arith) (covered s lt busy)
    ]
    Move-covered {p' = p'} (read {pos = pos}) e l s lt busy = elim (ℕ_discrete (h.round s) pos) [
      | yes same ↦ takes p' (h.round s) (ap some (sym same))
      | no other ↦ keeps p' (h.round s) e (λ f. ground arith) (covered s lt busy)
    ]
    Move-covered {p' = p'} (publish {pos = pos}) e (le, t, w, (r, f)) s lt busy =
        let c = slots s lt in
        elim (ℕ_discrete s (slot mask pos)) [
          | yes same ↦ absurd (ground (arith, c.drained))
          | no other ↦
              keeps p' (h.round s) e (λ g. ground (arith, c.home)) (covered s lt (ground arith))
        ]
    Move-covered {p' = p'} (release {pos = pos}) e (ld, t, (r, f)) s lt busy =
        let c = slots s lt in
        elim (ℕ_discrete s (slot mask pos)) [
          | yes same ↦ absurd (ground (arith, c.low))
          | no other ↦
              let same_round : update h.round (slot mask pos) (pos + mask + 1) s ≡ h.round s =
                ground arith in
              let (j, o) =
                keeps p' (h.round s) e (λ g. ground (arith, c.home))
                  (covered s lt (ground arith)) in
              (j, o ∙ ap some (sym same_round))
        ]
    Move-covered {p' = p'} call_enqueue e l s lt busy =
        keeps p' (h.round s) e (λ f. cc) (covered s lt busy)
    Move-covered {p' = p'} mv e l s lt busy = keeps p' (h.round s) e (λ f. cc) (covered s lt busy)
