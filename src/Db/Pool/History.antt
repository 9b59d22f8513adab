-- ===== src/Db/Pool/History.antt =====
-- src/db/DBPool.cc: the pool from its constructor on.
use mcp_server_cpp.Prelude.{
  ℕ, zero, suc, ◌+◌, ◌-◌, ◌≤◌, ◌≡◌, ◌≢◌, refl, ap, Bool, Bool-cases, true, Option, some, List, [],
  ◌∷◌, ltb, inl, inr, arith, count, IsAllocator,
}
use mcp_server_cpp.Db.Pool.{
  DbPool, DbPoolConfig, of_config, get_connection, take_idle, taken, handed, create_at, init,
}
use mcp_server_cpp.Db.Pool.Maintenance.{Event, gets, releases, maintains, creates, holds, step, run}
use mcp_server_cpp.Db.Pool.Account.{
  times, Places, Accounts, get_connection-Accounts, create_at-Accounts,
}
use mcp_server_cpp.Db.Pool.Invariant.{release-Accounts, create_one-Accounts, maintain-Accounts}

pub of_config-Accounts : (c : DbPoolConfig) → Accounts [] (of_config c)
unfolding of_config count
of_config-Accounts c = record {
  at_places = record {
    bounded = omega arith;
    idle = refl;
    places = λ a. refl;
    distinct = λ a. omega arith;
  };
  total = omega arith;
}

module _ (allocate : ℕ → List ℕ → ℕ) (fresh : IsAllocator allocate) where
  step-Accounts : (e : Event) (p : DbPool) → Accounts [] p → Accounts [] (step allocate e p).0
  unfolding step
  step-Accounts (gets now) p v = get_connection-Accounts [] now p v
  step-Accounts (releases now is_valid a) p v = elim (Bool-cases (holds a p.lent)) [
    | inl y ↦ rw y (release-Accounts [] now is_valid a p y v)
    | inr n ↦ rw n v
  ]
  step-Accounts (maintains now later ping) p v = maintain-Accounts now later ping p v
  step-Accounts (creates now connects) p v = elim (Bool-cases (ltb 0 p.creations)) [
    | inl y ↦ rw y (create_one-Accounts [] allocate fresh now connects p (ground arith) v)
    | inr n ↦ rw n v
  ]

  -- Whatever the clients, the maintenance thread and the creating tasks do, in any order, with an
  -- allocator that gives no address in use: a pool whose accounts are right stays so. There are
  -- never more connections, with those being created, than the maximum, the count of the idle ones
  -- is the length of the queue, and every connection of the registry is in the queue or with one
  -- client, and once only.
  pub run-Accounts :
      (es : List Event) (p : DbPool) → Accounts [] p → Accounts [] (run allocate es p).0
  unfolding run
  run-Accounts [] p v = v
  run-Accounts (e ∷ es) p v = run-Accounts es (step allocate e p).0 (step-Accounts e p v)

  -- Where every connection succeeds, the constructor leaves a pool with right accounts and as many
  -- idle connections as the smallest number of them that was set, but at most the maximum.
  pub init-Accounts :
      (now : ℕ) (connects : ℕ → Bool) (n : ℕ) (p : DbPool)
      → ((i : ℕ) → connects i ≡ true)
      → Accounts [] p
      → n ≤ p.max_size - p.total_conn_count
      → (p' : DbPool) × (init allocate now connects n p ≡ some p')
        × Accounts [] p'
        × (p'.idle_count ≡ p.idle_count + n)
  unfolding init
  init-Accounts now connects zero p c v h = (p, refl, v, omega arith)
  init-Accounts now connects (suc n) p c v h =
      let a = allocate p.total_conn_count p.all_conns in
      let q = record p { total_conn_count = p.total_conn_count + 1 } in
      let places : Places [] q = record {
        bounded = omega (arith, v.at_places.bounded, h);
        idle = v.at_places.idle;
        places = v.at_places.places;
        distinct = v.at_places.distinct;
      } in
      let w =
        create_at-Accounts [] now a q (fresh p.total_conn_count p.all_conns) places
          (omega (arith, v.total)) in
      let (p', e, u, i) = init-Accounts now connects n (create_at now a q) c w (omega (arith, h)) in
      (p', rw (c n) e, u, omega (arith, i))

taken-front :
    (now a : ℕ) (l : List ℕ) (p : DbPool) → (handed (taken now l p)).1 ≡ some a → times a l ≢ 0
unfolding count
taken-front now a [] p e = ground arith
taken-front now a (b ∷ rest) p e = ground arith

-- A connection that a client gets was idle, and no client held it.
pub get_connection-exclusive :
    (now a : ℕ) (p p' : DbPool)
    → Accounts [] p
    → get_connection now p ≡ (p', some a)
    → (times a p.idle_queue ≡ 1) × (times a p.lent ≡ 0)
unfolding get_connection take_idle count
get_connection-exclusive now a p p' v e =
    let there = taken-front now a p.idle_queue p (ap (λ (r : DbPool × Option ℕ). r.1) e) in
    let one = v.at_places.distinct a in
    let all = v.at_places.places a in
    (omega (arith, there, one, all), omega (arith, there, one, all))
