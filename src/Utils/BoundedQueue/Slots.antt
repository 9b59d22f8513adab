-- ===== src/Utils/BoundedQueue/Slots.antt =====
-- src/utils/mpmc_bounded_queue.h: the slots of neighbouring positions, and the test of a sequence
-- number against a position while neither has wrapped.
use mcp_server_cpp.Prelude.{ℕ, ◌+◌, ◌≤◌, ◌<◌, ◌^◌, ◌≡◌, ◌≢◌, arith}
use mcp_server_cpp.Utils.BoundedQueue.{slot, behind, level, dif}

pub slot-lt : (mask p : ℕ) → slot mask p < mask + 1
unfolding slot
slot-lt mask p = grind arith

pub slot-round : (mask p : ℕ) → slot mask (p + mask + 1) ≡ slot mask p
unfolding slot
slot-round mask p = grind arith

pub slot-next : (mask p r : ℕ) → 1 ≤ mask → slot mask p ≡ slot mask r → p ≢ r + 1
unfolding slot
slot-next mask p r w e h = grind arith

pub slot-near :
    (mask p r : ℕ) → slot mask p ≡ slot mask r → r < p → p ≤ r + mask + 1 → p ≡ r + mask + 1
unfolding slot
slot-near mask p r e l u = grind arith

pub dif-level : (s p : ℕ) → s < 2 ^ 63 → p < 2 ^ 63 → dif s p ≡ level → s ≡ p
unfolding dif
dif-level s p hs hp e = ground arith

pub dif-behind : (s p : ℕ) → s < 2 ^ 63 → p < 2 ^ 63 → dif s p ≡ behind → s < p
unfolding dif
dif-behind s p hs hp e = ground arith
