-- ===== src/Db/Pool/Replenish.antt =====
-- src/db/DBPool.cc: how many connections the maintenance thread asks for.
use mathlib.Core.Path.{subst}
use native.Mathlib.Nat.{suc-mul}
use mcp_server_cpp.Prelude.{
  ℕ, zero, suc, ◌+◌, ◌-◌, ◌*◌, ◌||◌, ◌≤◌, ◌≡◌, refl, sym, ap, ap₂, ◌∙◌, Bool, true, false, none,
  List, [], ◌∷◌, map, min, arith, ltb, if◌then◌else◌,
}
use mcp_server_cpp.Db.Pool.{
  DbPool, taken, handed, release_connection, create_one, get_connection, take_idle,
  replenish_to_min_idle,
}
use mcp_server_cpp.Db.Pool.Maintenance.{
  drain, check_alive, sweep, surplus_of, scan_connections, maintain, Event, gets, releases,
  maintains, creates, holds, step, run,
}

-- As often as `replenishToMinIdle` runs before any of the creations is done.
unfoldable pub replenishes : ℕ → DbPool → DbPool
replenishes zero p = p
replenishes (suc n) p = replenishes n (replenish_to_min_idle p)

replenish-counts :
    (p : DbPool)
    → p.total_conn_count ≤ p.max_size
    → let p' = replenish_to_min_idle p in
      (p'.total_conn_count ≡ min p.max_size (p.total_conn_count + (p.min_idle - p.idle_count)))
      × (p'.creations + p.total_conn_count ≡ p.creations + p'.total_conn_count)
      × (p'.max_size ≡ p.max_size)
      × (p'.min_idle ≡ p.min_idle)
      × (p'.idle_count ≡ p.idle_count)
unfolding replenish_to_min_idle
replenish-counts p h = (ground arith, ground arith, ground arith, ground arith, ground arith)

-- The connections that are being created are not counted as idle: each run of
-- `replenishToMinIdle` before they are there asks for as many again as are missing, up to the
-- maximum of the pool.
pub replenishes_lem :
    (n : ℕ) (p : DbPool)
    → p.total_conn_count ≤ p.max_size
    → ((replenishes n p).total_conn_count
        ≡ min p.max_size (p.total_conn_count + n * (p.min_idle - p.idle_count)))
      × ((replenishes n p).creations + p.total_conn_count
          ≡ p.creations + (replenishes n p).total_conn_count)
unfolding replenishes
replenishes_lem zero p h = (omega (arith, h), refl)
replenishes_lem (suc n) p h =
    let p' = replenish_to_min_idle p in
    let (t, c, s, m, i) = replenish-counts p h in
    let (t', c') = replenishes_lem n p' (omega (arith, t, s)) in
    let missing = p.min_idle - p.idle_count in
    let same : p'.min_idle - p'.idle_count ≡ missing = ap₂ (λ x y. x - y) m i in
    let again : n * (p'.min_idle - p'.idle_count) ≡ n * missing = ap (λ x. n * x) same in
    let more : suc n * missing ≡ missing + n * missing = ground (arith, suc-mul n missing) in
    (omega (arith, t, s, t', again, more, h), omega (arith, c, c'))

-- A pool in which there is no connection, and none that is being created.
pub record Barren (p : DbPool) : Type 0 where
  pub no_minimum : p.min_idle ≡ 0
  pub no_idle : p.idle_queue ≡ []
  pub no_lent : p.lent ≡ []
  pub no_creations : p.creations ≡ 0

if-Barren : (b : Bool) (p q : DbPool) → Barren p → Barren q → Barren (if b then p else q)
if-Barren true p q v w = v
if-Barren false p q v w = w

-- Only four fields count.
kept-Barren :
    (p q : DbPool)
    → (q.min_idle ≡ p.min_idle)
      × (q.idle_queue ≡ [])
      × (q.lent ≡ p.lent)
      × (q.creations ≡ p.creations)
    → Barren p
    → Barren q
kept-Barren p q (m, i, l, c) v = record {
  no_minimum = m ∙ v.no_minimum;
  no_idle = i;
  no_lent = l ∙ v.no_lent;
  no_creations = c ∙ v.no_creations;
}

scan-Barren :
    (now later : ℕ) (ping : ℕ → Bool) (p : DbPool)
    → Barren p
    → Barren (scan_connections now later ping p)
unfolding scan_connections drain check_alive sweep
scan-Barren now later ping p v =
    subst
      (λ (l : List ℕ).
        let r = check_alive now ping l (drain l p) in
        let p₂ = sweep later (surplus_of r.1 r.0) r.1 r.0 in
        Barren (if ltb p₂.idle_count p₂.min_idle then record p₂ { need_replenish = true } else p₂))
      (sym v.no_idle)
      (if-Barren (ltb p.idle_count p.min_idle) _ _ (kept-Barren p _ (refl, refl, refl, refl) v)
        (kept-Barren p _ (refl, refl, refl, refl) v))

replenish-Barren : (p : DbPool) → Barren p → Barren (replenish_to_min_idle p)
unfolding replenish_to_min_idle
replenish-Barren p v =
    kept-Barren p _
      (ground arith, ground (arith, v.no_idle), ground arith, ground (arith, v.no_minimum)) v

maintain-Barren :
    (now later : ℕ) (ping : ℕ → Bool) (p : DbPool) → Barren p → Barren (maintain now later ping p)
unfolding maintain
maintain-Barren now later ping p v =
    let p' = scan_connections now later ping (record p { need_replenish = false }) in
    let w : Barren p' =
      scan-Barren now later ping (record p { need_replenish = false })
        (kept-Barren p _ (refl, v.no_idle, refl, refl) v) in
    if-Barren p.stopped _ _ v
      (if-Barren (p'.need_replenish || ltb p'.idle_count p'.min_idle) _ _ (replenish-Barren p' w) w)

module _ (allocate : ℕ → List ℕ → ℕ) where
  step-Barren :
      (e : Event) (p : DbPool)
      → Barren p
      → Barren (step allocate e p).0 × ((step allocate e p).1 ≡ none)
  unfolding step get_connection take_idle
  step-Barren (gets now) p v = (
    subst (λ l. Barren (handed (taken now l p)).0) (sym v.no_idle) v,
    ap (λ l. (handed (taken now l p)).1) v.no_idle,
  )
  step-Barren (releases now is_valid a) p v = (
    subst (λ l. Barren (if holds a l then release_connection now is_valid a p else p))
        (sym v.no_lent) v,
    refl,
  )
  step-Barren (maintains now later ping) p v = (maintain-Barren now later ping p v, refl)
  step-Barren (creates now connects) p v = (
    subst (λ n. Barren (if ltb 0 n then create_one allocate now connects p else p))
        (sym v.no_creations) v,
    refl,
  )

  -- Where the smallest number of idle connections is zero no connection is ever created, and no
  -- client ever gets one, though the maximum is at least one.
  pub min_idle_zero :
      (es : List Event) (p : DbPool) → Barren p → (run allocate es p).1 ≡ map (λ e. none) es
  unfolding run
  min_idle_zero [] p v = refl
  min_idle_zero (e ∷ es) p v =
      let (w, n) = step-Barren e p v in
      ap₂ (λ x y. x ∷ y) n (min_idle_zero es (step allocate e p).0 w)
