-- ===== src/Utils/CircularQ/Tests.antt =====
-- Runs of src/utils/circular_q.h on small rings, and the theorems at such rings.
use mcp_server_cpp.Prelude.{ℕ, [], ◌∷◌, true, false, ◌≡◌, refl, arith}
use mcp_server_cpp.Utils.CircularQ.{CircularQ, disabled, push_back, size, full}
use mcp_server_cpp.Utils.CircularQ.Invariant.{IsValid}
use mcp_server_cpp.Utils.CircularQ.Refine.{contents}

-- 5, then 7, round the end of three slots: full, since one slot stays free.
abbrev wrapped : CircularQ ℕ
wrapped = record { max_items = 3; head = 2; tail = 1; overrun_counter = 0; items = 7 ∷ 0 ∷ 5 ∷ [] }

wrapped-IsValid : IsValid wrapped
wrapped-IsValid = record {
  slots = refl;
  small = omega arith;
  head_in = omega arith;
  tail_in = omega arith;
}

wrapped_reads : (contents 0 wrapped ≡ 5 ∷ 7 ∷ []) × (full wrapped ≡ true) × (size wrapped ≡ 2)
unfolding size full
wrapped_reads = (refl, refl, refl)

overwrites_oldest : contents 0 (push_back wrapped 9) ≡ 7 ∷ 9 ∷ []
unfolding push_back size
overwrites_oldest = refl

disabled_ignores : (push_back {A = ℕ} disabled 4 ≡ disabled) × (full (disabled {A = ℕ}) ≡ false)
unfolding push_back disabled full
disabled_ignores = (refl, refl)
