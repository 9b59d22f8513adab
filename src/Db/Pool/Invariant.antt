-- ===== src/Db/Pool/Invariant.antt =====
-- src/db/DBPool.cc: the accounts of the pool are kept by whatever its threads do.
use mathlib.Core.Path.{subst}
use mcp_server_cpp.Prelude.{
  ℕ, ◌-◌, ◌<◌, ◌≡◌, ◌≢◌, sym, ap, ◌∙◌, Bool, Bool-cases, true, false, not, ◌&&◌, ◌||◌, List, [],
  ◌∷◌, ◌++◌, append-nil, length, if◌then◌else◌, ltb, ◌==◌, inl, inr, arith, count, count-append,
  IsAllocator,
}
use mcp_server_cpp.Db.Pool.{
  DbPool, erase, discard, put_idle, changed, set_state, keepalive, release_connection, create_one,
  is_life_timeout, is_idle_timeout, is_keepalive_timeout, refresh_last_used_time,
}
use mcp_server_cpp.Db.Pool.Maintenance.{
  drain, pinged, check_alive, sweep, surplus_of, scan_connections, maintain, holds,
}
use mcp_server_cpp.Db.Pool.Account.{
  times, times-erase, Places, Accounts, discard-Accounts, put_idle-Accounts, marked-Accounts,
  if-Accounts, ask_replenish-Accounts, create_at-Accounts, replenish-Accounts,
}

-- Only how often an address is in the hands of the thread counts.
pub perm-Accounts :
    (held held' : List ℕ) (p : DbPool)
    → ((a : ℕ) → times a held ≡ times a held')
    → Accounts held p
    → Accounts held' p
perm-Accounts held held' p h v = record {
  at_places = record {
    bounded = v.at_places.bounded;
    idle = v.at_places.idle;
    places = λ a. omega (arith, v.at_places.places a, h a);
    distinct = v.at_places.distinct;
  };
  total = v.total;
}

pub holds-times : (a : ℕ) (l : List ℕ) → holds a l ≡ true → times a l ≢ 0
unfolding count
holds-times a [] e = ground arith
holds-times a (b ∷ l) e = ground (arith, holds-times a l)

pub release-Accounts :
    (held : List ℕ) (now : ℕ) (is_valid : Bool) (a : ℕ) (p : DbPool)
    → holds a p.lent ≡ true
    → Accounts held p
    → Accounts held (release_connection now is_valid a p)
unfolding release_connection count
release-Accounts held now is_valid a p h v =
    let back = record p { lent = erase a p.lent } in
    let there = holds-times a p.lent h in
    let w : Accounts (a ∷ held) back = record {
      at_places = record {
        bounded = v.at_places.bounded;
        idle = v.at_places.idle;
        places = λ b. ground (arith, v.at_places.places b, times-erase a b p.lent there);
        distinct = v.at_places.distinct;
      };
      total = v.total;
    } in
    let kept = marked-Accounts (a ∷ held) back back.need_replenish back.stopped _ w in
    ask_replenish-Accounts held _ (
      if-Accounts held (not is_valid || is_life_timeout now p.max_lifetime_sec (p.heap a)) _ _
        (discard-Accounts held a back w)
        (put_idle-Accounts held a (changed (refresh_last_used_time now) a back) kept))

pub create_one-Accounts :
    (held : List ℕ) (allocate : ℕ → List ℕ → ℕ) (fresh : IsAllocator allocate) (now : ℕ)
    (connects : Bool) (p : DbPool)
    → 0 < p.creations
    → Accounts held p
    → Accounts held (create_one allocate now connects p)
unfolding create_one
create_one-Accounts held allocate fresh now connects p h v =
    let a = allocate p.total_conn_count p.all_conns in
    let q = v.at_places in
    let places : Places held (record p { creations = p.creations - 1 }) = record {
      bounded = q.bounded;
      idle = q.idle;
      places = q.places;
      distinct = q.distinct;
    } in
    elim (Bool-cases (not connects)) [
      | inl y ↦ rw y (record {
        at_places = record {
          bounded = omega (arith, q.bounded);
          idle = q.idle;
          places = q.places;
          distinct = q.distinct;
        };
        total = omega (arith, v.total, h);
      })
      | inr n ↦ rw n (
          create_at-Accounts held now a (record p { creations = p.creations - 1 })
            (fresh p.total_conn_count p.all_conns) places (omega (arith, v.total, h)))
    ]

pub drain_lem :
    (l : List ℕ) (p : DbPool)
    → drain l p ≡ record p { idle_queue = []; idle_count = p.idle_count - length l }
unfolding drain
drain_lem [] p = ap (λ n. record p { idle_queue = []; idle_count = n }) (omega arith)
drain_lem (a ∷ l) p =
    drain_lem l (record p { idle_queue = l; idle_count = p.idle_count - 1 })
    ∙ ap (λ n. record p { idle_queue = []; idle_count = n }) (omega arith)

drain-Accounts : (p : DbPool) → Accounts [] p → Accounts p.idle_queue (drain p.idle_queue p)
unfolding count
drain-Accounts p v = rw (drain_lem p.idle_queue p) (record {
  at_places = record {
    bounded = v.at_places.bounded;
    idle = omega (arith, v.at_places.idle);
    places = λ a. omega (arith, v.at_places.places a);
    distinct = v.at_places.distinct;
  };
  total = v.total;
})

sweep-Accounts :
    (now surplus : ℕ) (l : List ℕ) (p : DbPool) → Accounts l p → Accounts [] (sweep now surplus l p)
unfolding sweep
sweep-Accounts now surplus [] p v = v
sweep-Accounts now surplus (a ∷ l) p v =
    let out = discard-Accounts l a p v in
    if-Accounts [] (is_life_timeout now p.max_lifetime_sec (p.heap a)) _ _
      (sweep-Accounts now surplus l (discard a p) out)
      (if-Accounts [] (is_idle_timeout now p.idle_timeout_sec (p.heap a) && ltb 0 surplus) _ _
        (sweep-Accounts now (surplus - 1) l (discard a p) out)
        (sweep-Accounts now surplus l (put_idle a p) (put_idle-Accounts l a p v)))

times-middle : (a b : ℕ) (l held : List ℕ) → times b (l ++ a ∷ held) ≡ times b (a ∷ l ++ held)
unfolding count
times-middle a b l held =
    omega (arith, count-append (λ c. c == b) l (a ∷ held), count-append (λ c. c == b) l held)

-- The pool where a connection has been found alive.
abbrev found : (now : ℕ) (due : Bool) (a : ℕ) → DbPool → DbPool
found now due a p = if due then pinged now a p else p

found-Accounts :
    (now : ℕ) (due : Bool) (a : ℕ) (held : List ℕ) (p : DbPool)
    → Accounts held p
    → Accounts held (found now due a p)
found-Accounts now true a held p v = marked-Accounts held p p.need_replenish p.stopped _ v
found-Accounts now false a held p v = v

check_alive-Accounts :
    (now : ℕ) (ping : ℕ → Bool) (l held : List ℕ) (p : DbPool)
    → Accounts (l ++ held) p
    → Accounts ((check_alive now ping l p).1 ++ held) (check_alive now ping l p).0
unfolding check_alive
check_alive-Accounts now ping [] held p v = v
check_alive-Accounts now ping (a ∷ l) held p v =
    let due = is_keepalive_timeout now p.keepalive_sec (p.heap a) in
    elim (Bool-cases (due && not (ping a))) [
      | inl y ↦ rw y (
          check_alive-Accounts now ping l held (discard a (changed (set_state keepalive) a p)) (
            discard-Accounts (l ++ held) a (changed (set_state keepalive) a p)
              (marked-Accounts (a ∷ l ++ held) p p.need_replenish p.stopped _ v)))
      | inr n ↦
          let q = found now due a p in
          rw n (
            perm-Accounts _ _ _ (λ b. times-middle a b (check_alive now ping l q).1 held)
              (check_alive-Accounts now ping l (a ∷ held) q (
                perm-Accounts _ _ q (λ b. sym (times-middle a b l held))
                  (found-Accounts now due a (a ∷ l ++ held) p v))))
    ]

scan-Accounts :
    (now later : ℕ) (ping : ℕ → Bool) (p : DbPool)
    → Accounts [] p
    → Accounts [] (scan_connections now later ping p)
unfolding scan_connections
scan-Accounts now later ping p v =
    let r = check_alive now ping p.idle_queue (drain p.idle_queue p) in
    let p₂ = sweep later (surplus_of r.1 r.0) r.1 r.0 in
    let checked =
      check_alive-Accounts now ping p.idle_queue [] (drain p.idle_queue p)
        (rw (append-nil p.idle_queue) (drain-Accounts p v)) in
    let w : Accounts [] p₂ =
      sweep-Accounts later (surplus_of r.1 r.0) r.1 r.0
        (subst (λ (l : List ℕ). Accounts l r.0) (append-nil r.1) checked) in
    if-Accounts [] (ltb p₂.idle_count p₂.min_idle) _ _
      (marked-Accounts [] p₂ true p₂.stopped p₂.heap w) w

pub maintain-Accounts :
    (now later : ℕ) (ping : ℕ → Bool) (p : DbPool)
    → Accounts [] p
    → Accounts [] (maintain now later ping p)
unfolding maintain
maintain-Accounts now later ping p v =
    let p' = scan_connections now later ping (record p { need_replenish = false }) in
    let w : Accounts [] p' =
      scan-Accounts now later ping (record p { need_replenish = false })
        (marked-Accounts [] p false p.stopped p.heap v) in
    if-Accounts [] p.stopped _ _ v (
      if-Accounts [] (p'.need_replenish || ltb p'.idle_count p'.min_idle) _ _
        (replenish-Accounts [] p' w) w)
