-- ===== src/Net/TimerManager/Callbacks.antt =====
-- src/net/TimerManager.cc: what the callbacks of the expired timers leave.
use mathlib.Core.List.{Memᴰ}
use mathlib.Core.Path.{subst}
use mcp_server_cpp.Prelude.{
  IsAllocator, count, ℕ, ◌≤◌, ◌≡◌, refl, sym, ap, ◌∙◌, false, Option, some, List, [], ◌∷◌, arith,
  inl, inr,
}
use mcp_server_cpp.Net.Timer.{Timer, TimerId}
use mcp_server_cpp.Net.TimerList.{Entry}
use mcp_server_cpp.Net.TimerList.Count.{identified}
use mcp_server_cpp.Net.TimerManager.{Manager, Action, adds, cancels, act, act_all, run_expired}
use mcp_server_cpp.Net.TimerManager.Invariant.{Valid}
use mcp_server_cpp.Net.TimerManager.Acts.{Acts, Acts-refl, Acts-trans, add-lem, add-Acts, after_add}
use mcp_server_cpp.Net.TimerManager.Cancel.{Stops, cancel-lem}

pub Stops-Acts :
    (held : List Entry) (i : TimerId) (m m' : Manager)
    → Acts held m m'
    → i.sequence ≤ m.num_created
    → Stops held i m
    → Stops held i m'
Stops-Acts held i m m' p h (z, inl n) = (omega (arith, p.fewer i h, z), inl n)
Stops-Acts held i m m' p h (z, inr c) = (omega (arith, p.fewer i h, z), inr (p.canceling i c))

abbrev target : TimerId → Action → TimerId
target d (adds clock when interval) = d
target d (cancels i) = i

-- Timers are held only while they are called.
abbrev pub Holds : List Entry → Manager → Type 0
Holds held m = m.calling_expired_timers ≡ false → held ≡ []

-- The callback of one of these timers cancels this one.
abbrev pub Asks : (Timer → List Action) → List Entry → TimerId → Type 0
Asks does l i = (e : Entry) × Memᴰ e l × Memᴰ (cancels i) (does e.second)

module _ (allocate : ℕ → List ℕ → ℕ) (fresh : IsAllocator allocate) (held : List Entry) where
  -- What runs from a manager leaves another, and stops the timers of which this holds.
  abbrev pub Leaves : Option Manager → Manager → (TimerId → Type 0) → Type 0
  Leaves o m S =
      (m' : Manager) × (o ≡ some m')
      × Acts held m m'
      × ((i : TimerId) → i.sequence ≤ m.num_created → S i → Stops held i m')

  -- No assertion fails, and a timer that the action cancels is not run again.
  pub act-lem :
      (a : Action) (m : Manager)
      → Valid held m
      → Holds held m
      → Leaves (act allocate held a m) m (λ i. a ≡ cancels i)
  unfolding act count
  act-lem (adds clock when interval) m v h = (
    after_add allocate fresh held clock when interval m,
    rw (add-lem allocate fresh held clock when interval m v) refl,
    add-Acts allocate fresh held clock when interval m v,
    λ i l e. absurd (ground arith),
  )
  act-lem (cancels j) m v h =
      let (m', e, p, s) = cancel-lem held j m v (λ o. ap (count (identified j)) (h o)) in
      (m', e, p, λ i l d. subst (λ k. Stops held k m') (ap (target j) d) s)

  pub act_all-lem :
      (l : List Action) (m : Manager)
      → Valid held m
      → Holds held m
      → Leaves (act_all allocate held l m) m (λ i. Memᴰ (cancels i) l)
  unfolding act_all
  act_all-lem [] m v h = (m, refl, Acts-refl held m v, λ i g p. elim p [ ])
  act_all-lem (a ∷ l) m v h =
      let (m₁, e, p, s) = act-lem a m v h in
      let (m₂, e', p', s') = act_all-lem l m₁ p.valid (λ o. h (sym p.calling ∙ o)) in
      (
        m₂,
        rw e e',
        Acts-trans held p p',
        λ i g q.
            let g' : i.sequence ≤ m₁.num_created = omega (arith, p.grows, g) in
            elim q [
              | Memᴰ.head d ↦ Stops-Acts held i m₁ m₂ p' g' (s i g (sym d))
              | Memᴰ.tail t ↦ s' i g' t
            ],
      )

  pub run_expired-lem :
      (does : Timer → List Action) (l : List Entry) (m : Manager)
      → Valid held m
      → Holds held m
      → Leaves (run_expired allocate held does l m) m (Asks does l)
  unfolding run_expired
  run_expired-lem does [] m v h = (m, refl, Acts-refl held m v, λ i g (y, p, q). elim p [ ])
  run_expired-lem does (x ∷ l) m v h =
      let (m₁, e, p, s) = act_all-lem (does x.second) m v h in
      let (m₂, e', p', s') = run_expired-lem does l m₁ p.valid (λ o. h (sym p.calling ∙ o)) in
      (
        m₂,
        rw e e',
        Acts-trans held p p',
        λ i g (y, q, r).
            let g' : i.sequence ≤ m₁.num_created = omega (arith, p.grows, g) in
            elim q [
              | Memᴰ.head d ↦
                  Stops-Acts held i m₁ m₂ p' g'
                    (s i g (subst (λ (z : Entry). Memᴰ (cancels i) (does z.second)) d r))
              | Memᴰ.tail t ↦ s' i g' (y, t, r)
            ],
      )
