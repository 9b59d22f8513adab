-- ===== src/Utils/BoundedQueue.antt =====
-- src/utils/mpmc_bounded_queue.h: a bounded queue without locks, for any number of threads.
-- Each access of shared memory is one step, and the steps of the threads follow each other in some
-- order (sequential consistency). A thread is the place where it stands in `enqueue` or `dequeue`,
-- with its local variables. The vector of cells is a function of the slot. `mask` is set by the
-- constructor only, so it is a parameter; `pos & mask_` is the remainder, since `mask_ + 1` is a
-- power of two. The difference of two cursors is that of 64-bit integers in two's complement.
pub mod Capacity
pub mod System
pub mod Invariant
pub mod Slots
pub mod Cells
pub mod Threads
pub mod Owners
pub mod Delivery
pub mod Moves
pub mod Safety
mod Tests
use mcp_server_cpp.Prelude.{
  ℕ, zero, suc, ◌+◌, ◌*◌, ◌%◌, ◌^◌, ◌≡◌, Bool, Option, none, some, List, ◌∷◌, ltb, ◌==◌,
  if◌then◌else◌, add_size, sub_size, update,
}

-- `Cell` is spread over two functions: the sequence number and the item of a slot.
pub record BoundedQueue (A : Type 0) : Type 0 where
  pub seq : ℕ → ℕ
  pub item : ℕ → A
  pub enqueue_pos : ℕ
  pub dequeue_pos : ℕ

-- The loop of the constructor, which doubles `pow2` until it reaches the capacity; `pow2 <<= 1`
-- wraps to zero.
unfoldable pub round_up : ℕ → ℕ → ℕ → Option ℕ
round_up zero pow2 wanted = none
round_up (suc fuel) pow2 wanted =
    let rest = round_up fuel (pow2 * 2 % 2 ^ 64) wanted in
    if ltb pow2 wanted then rest else some pow2

-- `capacity`
abbrev pub capacity : ℕ → ℕ
capacity mask = mask + 1

-- `pos & mask_`
unfoldable pub slot : ℕ → ℕ → ℕ
slot mask pos = pos % (mask + 1)

-- The sign of `dif`.
pub data Dif : Type 0 where
  behind level ahead : Dif

unfoldable pub dif : ℕ → ℕ → Dif
dif seq pos =
    if sub_size seq pos == 0
    then level
    else if ltb (sub_size seq pos) (2 ^ 63)
    then ahead
    else behind

-- Where a thread stands: what it does next, with the variables that are live there.
pub data Pc (A : Type 0) : Type 0 where
  idle : Pc A
  enqueue_loads : A → Pc A
  enqueue_tests enqueue_claims enqueue_writes enqueue_publishes : A → ℕ → Pc A
  dequeue_loads : Pc A
  dequeue_tests dequeue_claims dequeue_reads : ℕ → Pc A
  dequeue_releases : ℕ → A → Pc A

-- What happened so far, for the proofs; the code does not have it. `ticket` is the item with which
-- a position was claimed, `round` is the position that a slot serves, `out` the positions given back
-- with the items returned for them, the last one first.
pub record History (A : Type 0) : Type 0 where
  pub ticket : ℕ → A
  pub round : ℕ → ℕ
  pub out : List (ℕ × A)

module _ {A : Type 0} (mask : ℕ) where
  -- One step of one thread. A weak compare-exchange may fail for no reason, so a claim may be lost
  -- in every state; afterwards the cursor is loaded again.
  pub data Move (q : BoundedQueue A) (h : History A)
      : Pc A → BoundedQueue A → History A → Pc A → Type 0 where
    call_enqueue : {x : A} → Move q h idle q h (enqueue_loads x)
    load_enqueue : {x : A} → Move q h (enqueue_loads x) q h (enqueue_tests x q.enqueue_pos)
    found_free :
        {x : A} {pos : ℕ}
        → dif (q.seq (slot mask pos)) pos ≡ level
        → Move q h (enqueue_tests x pos) q h (enqueue_claims x pos)
    found_full :
        {x : A} {pos : ℕ}
        → dif (q.seq (slot mask pos)) pos ≡ behind
        → Move q h (enqueue_tests x pos) q h idle
    found_claimed :
        {x : A} {pos : ℕ}
        → dif (q.seq (slot mask pos)) pos ≡ ahead
        → Move q h (enqueue_tests x pos) q h (enqueue_loads x)
    win_enqueue :
        {x : A} {pos : ℕ}
        → q.enqueue_pos ≡ pos
        → Move q h
            (enqueue_claims x pos)
            (record q { enqueue_pos = add_size pos 1 })
            (record h { ticket = update h.ticket pos x })
            (enqueue_writes x pos)
    lose_enqueue : {x : A} {pos : ℕ} → Move q h (enqueue_claims x pos) q h (enqueue_loads x)
    write :
        {x : A} {pos : ℕ}
        → Move q h
            (enqueue_writes x pos)
            (record q { item = update q.item (slot mask pos) x })
            h
            (enqueue_publishes x pos)
    publish :
        {x : A} {pos : ℕ}
        → Move q h
            (enqueue_publishes x pos)
            (record q { seq = update q.seq (slot mask pos) (add_size pos 1) })
            h
            idle
    call_dequeue : Move q h idle q h dequeue_loads
    load_dequeue : Move q h dequeue_loads q h (dequeue_tests q.dequeue_pos)
    found_ready :
        {pos : ℕ}
        → dif (q.seq (slot mask pos)) (add_size pos 1) ≡ level
        → Move q h (dequeue_tests pos) q h (dequeue_claims pos)
    found_empty :
        {pos : ℕ}
        → dif (q.seq (slot mask pos)) (add_size pos 1) ≡ behind
        → Move q h (dequeue_tests pos) q h idle
    found_taken :
        {pos : ℕ}
        → dif (q.seq (slot mask pos)) (add_size pos 1) ≡ ahead
        → Move q h (dequeue_tests pos) q h dequeue_loads
    win_dequeue :
        {pos : ℕ}
        → q.dequeue_pos ≡ pos
        → Move q h
            (dequeue_claims pos)
            (record q { dequeue_pos = add_size pos 1 })
            h
            (dequeue_reads pos)
    lose_dequeue : {pos : ℕ} → Move q h (dequeue_claims pos) q h dequeue_loads
    read :
        {pos : ℕ} → Move q h (dequeue_reads pos) q h (dequeue_releases pos (q.item (slot mask pos)))
    release :
        {pos : ℕ} {x : A}
        → Move q h
            (dequeue_releases pos x)
            (record q { seq = update q.seq (slot mask pos) (add_size (add_size pos mask) 1) })
            (record h {
              round = update h.round (slot mask pos) (pos + mask + 1);
              out = (pos, x) ∷ h.out;
            })
            idle
