-- ===== src/Db/Pool/Alone.antt =====
-- src/db/DBPool.cc: a turn of the maintenance thread with no other thread in between, one connection at
-- a time and in one piece.
use mathlib.Core.Path.{subst}
use mcp_server_cpp.Prelude.{
  ℕ, ◌-◌, ◌≡◌, refl, sym, ap, ◌∙◌, Bool, Bool-cases, true, false, not, ◌&&◌, ◌||◌, List, [], ◌∷◌,
  ◌++◌, append-nil, append_assoc, if◌then◌else◌, ltb, inl, inr,
}
use mcp_server_cpp.Db.Pool.{
  DbPool, discard, put_idle, changed, set_state, keepalive, replenish_to_min_idle, is_life_timeout,
  is_idle_timeout, is_keepalive_timeout,
}
use mcp_server_cpp.Db.Pool.Maintenance.{
  pinged, surplus_of, drain, check_alive, sweep, scan_connections, maintain,
}
use mcp_server_cpp.Db.Pool.Interleave.{
  Working, at, waits, draining, checking, sweeping, advance, drain_one, replenish_if, end_turn,
}

-- Steps of the maintenance thread, one after the other.
pub data Alone (w : Working) : Working → Type 0 where
  here : Alone w w
  then_step :
      {v : Working} (now done : ℕ) (alive : Bool)
      → Alone w v
      → Alone w (advance now done alive v.pool v.scan)

Alone-trans : {u v w : Working} → Alone u v → Alone v w → Alone u w
Alone-trans x here = x
Alone-trans x (then_step now done alive y) = then_step now done alive (Alone-trans x y)

-- The first step, to where an equation says that it leads.
first :
    (now done : ℕ) (alive : Bool) (u v w : Working)
    → advance now done alive u.pool u.scan ≡ v
    → Alone v w
    → Alone u w
first now done alive u v w e y =
    Alone-trans (subst (λ (x : Working). Alone u x) e (then_step now done alive here)) y

emptied :
    (p : DbPool) (l : List ℕ)
    → p.idle_queue ≡ []
    → at p (checking l []) ≡ at (record p { idle_queue = [] }) (checking (l ++ []) [])
emptied p l e =
    ap (λ (x : List ℕ). at (record p { idle_queue = x }) (checking l [])) e
    ∙ ap (λ (x : List ℕ). at (record p { idle_queue = [] }) (checking x [])) (sym (append-nil l))

drains :
    (q : List ℕ) (p : DbPool) (l : List ℕ)
    → p.idle_queue ≡ q
    → Alone (at p (draining l)) (at (drain q p) (checking (l ++ q) []))
unfolding drain advance
drains [] p l e =
    first 0 0 true (at p (draining l)) (at p (checking l [])) _ (ap (λ q. drain_one q p l) e)
      (subst (λ (x : Working). Alone (at p (checking l [])) x) (emptied p l e) here)
drains (a ∷ q) p l e =
    let p' = record p { idle_queue = q; idle_count = p.idle_count - 1 } in
    first 0 0 true (at p (draining l)) (at p' (draining (l ++ a ∷ []))) _
      (ap (λ q. drain_one q p l) e)
      (subst
        (λ (x : List ℕ). Alone (at p' (draining (l ++ a ∷ []))) (at (drain q p') (checking x [])))
        (append_assoc l (a ∷ []) q) (drains q p' (l ++ a ∷ []) refl))

checks :
    (now : ℕ) (ping : ℕ → Bool) (l : List ℕ) (p : DbPool) (healthy : List ℕ)
    → let r = check_alive now ping l p in
      Alone (at p (checking l healthy)) (at r.0 (checking [] (healthy ++ r.1)))
unfolding check_alive advance
checks now ping [] p healthy =
    subst (λ (x : List ℕ). Alone (at p (checking [] healthy)) (at p (checking [] x)))
      (sym (append-nil healthy)) here
checks now ping (a ∷ l) p healthy =
    let due = is_keepalive_timeout now p.keepalive_sec (p.heap a) in
    elim (Bool-cases (due && not (ping a))) [
      | inl t ↦
          let lost = discard a (changed (set_state keepalive) a p) in
          rw t (
            first now now (ping a) (at p (checking (a ∷ l) healthy)) (at lost (checking l healthy))
              _ (rw t refl) (checks now ping l lost healthy))
      | inr n ↦
          let q = if due then pinged now a p else p in
          let r = check_alive now ping l q in
          rw n (
            first now now (ping a) (at p (checking (a ∷ l) healthy))
              (at q (checking l (healthy ++ a ∷ []))) _ (rw n refl)
              (subst
                (λ (x : List ℕ).
                  Alone (at q (checking l (healthy ++ a ∷ []))) (at r.0 (checking [] x)))
                (append_assoc healthy (a ∷ []) r.1) (checks now ping l q (healthy ++ a ∷ []))))
    ]

sweeps :
    (later surplus : ℕ) (l : List ℕ) (p : DbPool)
    → (left : ℕ) × Alone
        (at p (sweeping surplus l))
        (at (sweep later surplus l p) (sweeping left []))
unfolding sweep advance
sweeps later surplus [] p = (surplus, here)
sweeps later surplus (a ∷ l) p =
    elim (Bool-cases (is_life_timeout later p.max_lifetime_sec (p.heap a))) [
      | inl t ↦
          let (left, rest) = sweeps later surplus l (discard a p) in
          rw t (
            left,
            first later later true (at p (sweeping surplus (a ∷ l)))
                (at (discard a p) (sweeping surplus l)) _ (rw t refl) rest,
          )
      | inr n ↦
          rw n
            (elim (Bool-cases
              (is_idle_timeout later p.idle_timeout_sec (p.heap a) && ltb 0 surplus)) [
                | inl t ↦
                    let (left, rest) = sweeps later (surplus - 1) l (discard a p) in
                    rw t (
                      left,
                      first later later true (at p (sweeping surplus (a ∷ l)))
                          (at (discard a p) (sweeping (surplus - 1) l)) _ (rw (n, t) refl) rest,
                    )
                | inr m ↦
                    let (left, rest) = sweeps later surplus l (put_idle a p) in
                    rw m (
                      left,
                      first later later true (at p (sweeping surplus (a ∷ l)))
                          (at (put_idle a p) (sweeping surplus l)) _ (rw (n, m) refl) rest,
                    )
              ])
    ]

-- What is done behind the scan, in one piece.
abbrev concluded : Bool → DbPool → DbPool
concluded few p =
    let p' = if few then record p { need_replenish = true } else p in
    if p'.need_replenish || ltb p'.idle_count p'.min_idle then replenish_to_min_idle p' else p'

or_false : (b : Bool) → (b || false) ≡ b
or_false true = refl
or_false false = refl

replenish_if_lem :
    (b : Bool) (p : DbPool) → replenish_if b p ≡ (if b then replenish_to_min_idle p else p)
replenish_if_lem true p = refl
replenish_if_lem false p = refl

end_turn-concluded : (p : DbPool) → end_turn p ≡ concluded (ltb p.idle_count p.min_idle) p
end_turn-concluded p = elim (Bool-cases (ltb p.idle_count p.min_idle)) [
  | inl t ↦ elim (Bool-cases p.need_replenish) [ inl m ↦ rw (t, m) refl | inr m ↦ rw (t, m) refl ]
  | inr n ↦
      let after = λ (b : Bool). if b then replenish_to_min_idle p else p in
      ap
        (λ (f : Bool).
          replenish_if (p.need_replenish || f)
            (record p { need_replenish = p.need_replenish || f }))
        n
      ∙ ap (λ (b : Bool). replenish_if b (record p { need_replenish = b }))
          (or_false p.need_replenish)
      ∙ replenish_if_lem p.need_replenish p
      ∙ ap after (sym (or_false p.need_replenish))
      ∙ ap (λ (f : Bool). after (p.need_replenish || f)) (sym n)
      ∙ ap (λ (f : Bool). concluded f p) (sym n)
]

-- A turn of a pool that is not stopped, with no other thread in between: the maintenance thread, one
-- connection after the other, leaves the pool that `maintain` says.
pub maintain-Alone :
    (now later : ℕ) (ping : ℕ → Bool) (p : DbPool)
    → p.stopped ≡ false
    → Alone (at p waits) (at (maintain now later ping p) waits)
unfolding maintain scan_connections advance
maintain-Alone now later ping p go =
    let p₀ = record p { need_replenish = false } in
    let start = drain p₀.idle_queue p₀ in
    let r = check_alive now ping p₀.idle_queue start in
    let (left, swept) = sweeps later (surplus_of r.1 r.0) r.1 r.0 in
    let p₂ = sweep later (surplus_of r.1 r.0) r.1 r.0 in
    let ended : Alone (at p₂ (sweeping left []))
        (at (concluded (ltb p₂.idle_count p₂.min_idle) p₂) waits) =
      first 0 0 true (at p₂ (sweeping left [])) (at (end_turn p₂) waits) _ refl (
        subst (λ (q : DbPool). Alone (at (end_turn p₂) waits) (at q waits)) (end_turn-concluded p₂)
          here) in
    let checked =
      Alone-trans (drains p₀.idle_queue p₀ [] refl) (checks now ping p₀.idle_queue start []) in
    let second =
      first 0 0 true (at r.0 (checking [] r.1)) (at r.0 (sweeping (surplus_of r.1 r.0) r.1)) _ refl
        (Alone-trans swept ended) in
    let turn =
      first 0 0 true (at p waits) (at p₀ (draining [])) _
        (ap (λ (b : Bool). if b then at p waits else at p₀ (draining [])) go)
        (Alone-trans checked second) in
    subst
      (λ (b : Bool).
        Alone (at p waits)
          (at (if b then p else concluded (ltb p₂.idle_count p₂.min_idle) p₂) waits))
      (sym go) turn
