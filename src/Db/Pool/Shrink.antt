-- ===== src/Db/Pool/Shrink.antt =====
-- src/db/DBPool.cc: what the scan removes.
use mathlib.Core.Path.{subst}
use mcp_server_cpp.Prelude.{
  ℕ, ◌+◌, ◌-◌, ◌*◌, ◌≤◌, ◌≡◌, refl, sym, ap, ap₂, ◌∙◌, Bool, Bool-cases, true, false, not, ◌&&◌,
  List, [], ◌∷◌, arith, inl, inr, ltb, ◌==◌, bit, count, count-append, update-elim, ℕ_discrete,
  if◌then◌else◌,
}
use mcp_server_cpp.Db.Pool.{
  DbPool, has_elapsed, is_idle_timeout, is_life_timeout, discard, put_idle, set_state, idle,
  DbConnection, changed, keepalive, broken, refresh_last_used_time, is_keepalive_timeout,
}
use mcp_server_cpp.Db.Pool.Account.{times}
use mcp_server_cpp.Db.Pool.Invariant.{drain_lem}
use mcp_server_cpp.Db.Pool.Maintenance.{
  drain, pinged, check_alive, sweep, surplus_of, scan_connections,
}
use mcp_server_cpp.Db.Pool.Alive.{
  Recent, Busy, Busy-Keeps, changed-Keeps, discard-Keeps, check_alive-Healthy,
}

-- The second round without the rule for idle connections.
unfoldable pub sweep_old : (later : ℕ) → List ℕ → DbPool → DbPool
sweep_old later [] p = p
sweep_old later (a ∷ l) p =
    if is_life_timeout later p.max_lifetime_sec (p.heap a)
    then sweep_old later l (discard a p)
    else sweep_old later l (put_idle a p)

-- The scan that leaves idle connections alone.
unfoldable pub scan_old : (now later : ℕ) (ping : ℕ → Bool) → DbPool → DbPool
scan_old now later ping p =
    let (p₁, healthy) = check_alive now ping p.idle_queue (drain p.idle_queue p) in
    let p₂ = sweep_old later healthy p₁ in
    if ltb p₂.idle_count p₂.min_idle then record p₂ { need_replenish = true } else p₂

module _ (now later idle_sec keepalive_sec : ℕ) where
  sweep-sweep_old :
      (surplus : ℕ) (l : List ℕ) (p : DbPool)
      → Recent now later idle_sec keepalive_sec now
      → p.idle_timeout_sec ≡ idle_sec
      → Busy now later idle_sec keepalive_sec l p
      → sweep later surplus l p ≡ sweep_old later l p
  unfolding sweep sweep_old discard
  sweep-sweep_old surplus [] p n e b = refl
  sweep-sweep_old surplus (a ∷ l) p n e (i, b) =
      let idle_not : is_idle_timeout later p.idle_timeout_sec (p.heap a) ≡ false =
        subst (λ s. has_elapsed later (p.heap a).last_used_at s ≡ false) (sym e) i in
      ground (
        arith,
        idle_not,
        sweep-sweep_old surplus l (discard a p) n e (
            Busy-Keeps now later idle_sec keepalive_sec l p (discard a p) n
              (discard-Keeps now later idle_sec keepalive_sec a p) b),
        sweep-sweep_old surplus l (put_idle a p) n e (
            Busy-Keeps now later idle_sec keepalive_sec l p (put_idle a p) n
              (changed-Keeps now later idle_sec keepalive_sec (set_state idle) a p (λ c. inl refl))
              b),
      )

-- The scan does not apply the rule for idle connections, where `scan-keeps` below has its conditions.
scan-scan_old :
    (now later : ℕ) (ping : ℕ → Bool) (p : DbPool)
    → 1 ≤ p.keepalive_sec
    → p.keepalive_sec ≤ p.idle_timeout_sec
    → later ≤ now + (p.idle_timeout_sec - p.keepalive_sec) * 1000000000
    → scan_connections now later ping p ≡ scan_old now later ping p
unfolding scan_connections scan_old
scan-scan_old now later ping p one le soon =
    let start = drain p.idle_queue p in
    let r = check_alive now ping p.idle_queue start in
    let recent : has_elapsed later now p.idle_timeout_sec ≡ false = ground arith in
    let (x, y, z) =
      check_alive-Healthy now later p.idle_timeout_sec p.keepalive_sec ping p.idle_queue start
        recent (λ t e. ground arith)
        (
          ap (λ (q : DbPool). q.idle_timeout_sec) (drain_lem p.idle_queue p),
          ap (λ (q : DbPool). q.keepalive_sec) (drain_lem p.idle_queue p),
        ) in
    let same =
      sweep-sweep_old now later p.idle_timeout_sec p.keepalive_sec (surplus_of r.1 r.0) r.1 r.0
        recent z.0 y in
    ap
      (λ (p₂ : DbPool).
        if ltb p₂.idle_count p₂.min_idle then record p₂ { need_replenish = true } else p₂)
      same

differs : (a b : ℕ) (f : ℕ → Bool) → f b ≡ true → f a ≡ false → bit (b == a) ≡ 0
differs a b f t y = elim (ℕ_discrete b a) [
  | yes e ↦ absurd (ground (arith, ap f e))
  | no n ↦ ground arith
]

queue_marked :
    (b : Bool) (p : DbPool)
    → (if b then record p { need_replenish = true } else p).idle_queue ≡ p.idle_queue
queue_marked true p = refl
queue_marked false p = refl

module _ (a : ℕ) where
  -- The age of the connection and the limit of the pool are what they were.
  abbrev SameAge : DbPool → DbPool → Type 0
  SameAge p q =
      ((q.heap a).created_at ≡ (p.heap a).created_at) × (q.max_lifetime_sec ≡ p.max_lifetime_sec)

  SameAge-trans : (p q r : DbPool) → SameAge p q → SameAge q r → SameAge p r
  SameAge-trans p q r (c, m) (d, n) = (d ∙ c, n ∙ m)

  changed-SameAge :
      (f : DbConnection → DbConnection) (b : ℕ) (p : DbPool)
      → ((c : DbConnection) → (f c).created_at ≡ c.created_at)
      → SameAge p (changed f b p)
  changed-SameAge f b p h = (
    update-elim (λ (c : DbConnection). c.created_at ≡ (p.heap a).created_at) p.heap b (f (p.heap b))
        a (λ e. h (p.heap b) ∙ ap (λ i. (p.heap i).created_at) (sym e)) (λ n. refl),
    refl,
  )

  found-SameAge :
      (due : Bool) (now b : ℕ) (p : DbPool) → SameAge p (if due then pinged now b p else p)
  found-SameAge true now b p =
      let q = changed (set_state keepalive) b p in
      SameAge-trans p q (pinged now b p) (changed-SameAge (set_state keepalive) b p (λ c. refl))
        (changed-SameAge (refresh_last_used_time now) b q (λ c. refl))
  found-SameAge false now b p = (refl, refl)

  found-queue :
      (due : Bool) (now b : ℕ) (p : DbPool)
      → (if due then pinged now b p else p).idle_queue ≡ p.idle_queue
  found-queue true now b p = refl
  found-queue false now b p = refl

  -- The first round keeps a connection that answers.
  check_alive-keeps :
      (now : ℕ) (ping : ℕ → Bool) (l : List ℕ) (p : DbPool)
      → ping a ≡ true
      → let r = check_alive now ping l p in
        SameAge p r.0 × (r.0.idle_queue ≡ p.idle_queue) × (times a r.1 ≡ times a l)
  unfolding check_alive discard count
  check_alive-keeps now ping [] p y = ((refl, refl), refl, refl)
  check_alive-keeps now ping (b ∷ l) p y =
      let due = is_keepalive_timeout now p.keepalive_sec (p.heap b) in
      elim (Bool-cases (due && not (ping b))) [
        | inl t ↦
            let lost = changed (set_state keepalive) b p in
            let (x, i, c) = check_alive-keeps now ping l (discard b lost) y in
            let other : bit (b == a) ≡ 0 =
              differs a b (λ i. not (ping i)) (ground arith) (ap not y) in
            rw t (
              SameAge-trans p (discard b lost) (check_alive now ping l (discard b lost)).0
                  (SameAge-trans p lost (discard b lost)
                    (changed-SameAge (set_state keepalive) b p (λ c. refl))
                    (changed-SameAge (set_state broken) b lost (λ c. refl)))
                  x,
              i,
              omega (arith, c, other),
            )
        | inr n ↦
            let q = if due then pinged now b p else p in
            let (x, i, c) = check_alive-keeps now ping l q y in
            rw n (
              SameAge-trans p q (check_alive now ping l q).0 (found-SameAge due now b p) x,
              i ∙ found-queue due now b p,
              omega (arith, c),
            )
      ]

  -- The second round keeps a connection that is not too old.
  sweep_old-keeps :
      (later : ℕ) (l : List ℕ) (p : DbPool)
      → has_elapsed later (p.heap a).created_at p.max_lifetime_sec ≡ false
      → times a (sweep_old later l p).idle_queue ≡ times a p.idle_queue + times a l
  unfolding sweep_old discard count
  sweep_old-keeps later [] p y = omega arith
  sweep_old-keeps later (b ∷ l) p y =
      elim (Bool-cases (is_life_timeout later p.max_lifetime_sec (p.heap b))) [
        | inl t ↦
            let x = changed-SameAge (set_state broken) b p (λ c. refl) in
            let rest =
              sweep_old-keeps later l (discard b p)
                (subst (λ t. has_elapsed later t p.max_lifetime_sec ≡ false) (sym x.0) y) in
            let other : bit (b == a) ≡ 0 =
              differs a b (λ i. is_life_timeout later p.max_lifetime_sec (p.heap i)) t y in
            rw t (omega (arith, rest, other))
        | inr n ↦
            let x = changed-SameAge (set_state idle) b p (λ c. refl) in
            let rest =
              sweep_old-keeps later l (put_idle b p)
                (subst (λ t. has_elapsed later t p.max_lifetime_sec ≡ false) (sym x.0) y) in
            rw n (omega (arith, rest, count-append (λ c. c == a) p.idle_queue (b ∷ [])))
      ]

-- Where the time to a keepalive is at least a second and at most that after which an idle
-- connection times out, and the second round follows the first before the difference of the two
-- has passed: a scan in which no other thread acts leaves a connection that answers a ping, and
-- whose lifetime is not over, in the idle queue as it was, for however long no client has used it
-- and however many idle connections there are.
pub scan-keeps :
    (now later a : ℕ) (ping : ℕ → Bool) (p : DbPool)
    → 1 ≤ p.keepalive_sec
    → p.keepalive_sec ≤ p.idle_timeout_sec
    → later ≤ now + (p.idle_timeout_sec - p.keepalive_sec) * 1000000000
    → ping a ≡ true
    → is_life_timeout later p.max_lifetime_sec (p.heap a) ≡ false
    → times a (scan_connections now later ping p).idle_queue ≡ times a p.idle_queue
unfolding scan_old count
scan-keeps now later a ping p one le soon answers young =
    let start = drain p.idle_queue p in
    let r = check_alive now ping p.idle_queue start in
    let d = drain_lem p.idle_queue p in
    let (x, i, c) = check_alive-keeps a now ping p.idle_queue start answers in
    let age : (r.0.heap a).created_at ≡ (p.heap a).created_at =
      x.0 ∙ ap (λ (q : DbPool). (q.heap a).created_at) d in
    let limit : r.0.max_lifetime_sec ≡ p.max_lifetime_sec =
      x.1 ∙ ap (λ (q : DbPool). q.max_lifetime_sec) d in
    let still : has_elapsed later (r.0.heap a).created_at r.0.max_lifetime_sec ≡ false =
      ap₂ (λ t s. has_elapsed later t s) age limit ∙ young in
    let swept = sweep_old-keeps a later r.1 r.0 still in
    let none_left : times a r.0.idle_queue ≡ 0 =
      ap (times a) (i ∙ ap (λ (q : DbPool). q.idle_queue) d) in
    let same =
      ap (λ (q : DbPool). times a q.idle_queue) (scan-scan_old now later ping p one le soon) in
    let marked : times a (scan_old now later ping p).idle_queue
        ≡ times a (sweep_old later r.1 r.0).idle_queue =
      let p₂ = sweep_old later r.1 r.0 in
      ap (times a) (queue_marked (ltb p₂.idle_count p₂.min_idle) p₂) in
    omega (arith, same, marked, swept, none_left, c)
