-- ===== src/Db/Pool/Account.antt =====
-- src/db/DBPool.cc: every connection is in the queue or with one client, and the counts say how many
-- there are.
use mcp_server_cpp.Prelude.{
  ℕ, suc, ◌+◌, ◌-◌, ◌≤◌, ◌≡◌, ◌≢◌, refl, ap, Bool, Bool-cases, true, false, Option, none, some,
  List, [], ◌∷◌, length, length-append, if◌then◌else◌, ltb, leb, ◌==◌, inl, inr, arith, bit, count,
  count-append,
}
use mcp_server_cpp.Db.Pool.{
  DbPool, DbConnection, erase, discard, put_idle, ask_replenish, lend, taken, handed, take_idle,
  get_connection, create_at, replenish_to_min_idle,
}

-- How often an address is in a list.
abbrev pub times : ℕ → List ℕ → ℕ
times a l = count (λ b. b == a) l

pub times-erase :
    (a b : ℕ) (l : List ℕ) → times a l ≢ 0 → times b l ≡ bit (a == b) + times b (erase a l)
unfolding count erase
times-erase a b [] n = absurd (n refl)
times-erase a b (x ∷ l) n = ground (arith, times-erase a b l)

pub length-erase : (a : ℕ) (l : List ℕ) → times a l ≢ 0 → length l ≡ suc (length (erase a l))
unfolding count erase
length-erase a [] n = absurd (n refl)
length-erase a (x ∷ l) n = ground (arith, length-erase a l)

-- What holds whether or not a connection that is being created is counted already. `held` are the
-- connections that the thread at work has in its hands.
pub record Places (held : List ℕ) (p : DbPool) : Type 0 where
  pub bounded : p.total_conn_count ≤ p.max_size
  pub idle : p.idle_count ≡ length p.idle_queue
  pub places : (a : ℕ) → times a p.idle_queue + times a p.lent + times a held ≡ times a p.all_conns
  pub distinct : (a : ℕ) → times a p.all_conns ≤ 1

-- The accounts of the pool.
pub record Accounts (held : List ℕ) (p : DbPool) : Type 0 where
  pub at_places : Places held p
  pub total : p.total_conn_count ≡ length p.all_conns + p.creations

module _ (held : List ℕ) where
  pub discard-Accounts : (a : ℕ) (p : DbPool) → Accounts (a ∷ held) p → Accounts held (discard a p)
  unfolding discard count
  discard-Accounts a p v =
      let q = v.at_places in
      let there : times a p.all_conns ≢ 0 = ground (arith, q.places a) in
      record {
        at_places = record {
          bounded = omega (arith, q.bounded);
          idle = q.idle;
          places = λ b. ground (arith, q.places b, times-erase a b p.all_conns there);
          distinct = λ b. omega (arith, q.distinct b, times-erase a b p.all_conns there);
        };
        total = omega (arith, v.total, length-erase a p.all_conns there);
      }

  put_idle-Places : (a : ℕ) (p : DbPool) → Places (a ∷ held) p → Places held (put_idle a p)
  unfolding count
  put_idle-Places a p q = record {
    bounded = q.bounded;
    idle = omega (arith, q.idle, length-append p.idle_queue (a ∷ []));
    places = λ b. ground (arith, q.places b, count-append (λ c. c == b) p.idle_queue (a ∷ []));
    distinct = q.distinct;
  }

  pub put_idle-Accounts :
      (a : ℕ) (p : DbPool) → Accounts (a ∷ held) p → Accounts held (put_idle a p)
  put_idle-Accounts a p v = record { at_places = put_idle-Places a p v.at_places; total = v.total }

  lend-Accounts :
      (now a : ℕ) (rest : List ℕ) (p : DbPool)
      → p.idle_queue ≡ a ∷ rest
      → Accounts held p
      → Accounts held (lend now a rest p)
  unfolding count
  lend-Accounts now a rest p e v =
      let q = v.at_places in
      record {
        at_places = record {
          bounded = q.bounded;
          idle = omega (arith, q.idle, ap length e);
          places = λ b. omega (arith, q.places b, ap (times b) e);
          distinct = q.distinct;
        };
        total = v.total;
      }

  -- The marks and the objects do not count.
  pub marked-Accounts :
      (p : DbPool) (marked stopped : Bool) (heap : ℕ → DbConnection)
      → Accounts held p
      → Accounts held (record p { need_replenish = marked; stopped = stopped; heap = heap })
  marked-Accounts p marked stopped heap v = record {
    at_places = record {
      bounded = v.at_places.bounded;
      idle = v.at_places.idle;
      places = v.at_places.places;
      distinct = v.at_places.distinct;
    };
    total = v.total;
  }

  pub if-Accounts :
      (b : Bool) (p q : DbPool)
      → Accounts held p
      → Accounts held q
      → Accounts held (if b then p else q)
  if-Accounts true p q v w = v
  if-Accounts false p q v w = w

  pub ask_replenish-Accounts : (p : DbPool) → Accounts held p → Accounts held (ask_replenish p)
  unfolding ask_replenish
  ask_replenish-Accounts p v =
      if-Accounts (ltb p.idle_count p.min_idle) _ _ (marked-Accounts p true p.stopped p.heap v) v

  taken-Accounts :
      (now : ℕ) (l : List ℕ) (p : DbPool)
      → p.idle_queue ≡ l
      → Accounts held p
      → Accounts held (taken now l p).0
  taken-Accounts now [] p e v = v
  taken-Accounts now (a ∷ rest) p e v = lend-Accounts now a rest p e v

  handed-Accounts : (r : DbPool × Option ℕ) → Accounts held r.0 → Accounts held (handed r).0
  handed-Accounts (p, none) v = v
  handed-Accounts (p, some a) v = ask_replenish-Accounts p v

  pub get_connection-Accounts :
      (now : ℕ) (p : DbPool) → Accounts held p → Accounts held (get_connection now p).0
  unfolding get_connection take_idle
  get_connection-Accounts now p v =
      handed-Accounts (taken now p.idle_queue p) (taken-Accounts now p.idle_queue p refl v)

  -- A connection that is new to the registry.
  create_at-Places :
      (now a : ℕ) (p : DbPool)
      → times a p.all_conns ≡ 0
      → Places held p
      → Places held (create_at now a p)
  unfolding count
  create_at-Places now a p f q = record {
    bounded = q.bounded;
    idle = omega (arith, q.idle, length-append p.idle_queue (a ∷ []));
    places = λ b. omega (
      arith,
      q.places b,
      count-append (λ c. c == b) p.idle_queue (a ∷ []),
      count-append (λ c. c == b) p.all_conns (a ∷ []),
    );
    distinct =
        λ b. ground (arith, q.distinct b, count-append (λ c. c == b) p.all_conns (a ∷ []), f);
  }

  pub create_at-Accounts :
      (now a : ℕ) (p : DbPool)
      → times a p.all_conns ≡ 0
      → Places held p
      → p.total_conn_count ≡ suc (length p.all_conns + p.creations)
      → Accounts held (create_at now a p)
  create_at-Accounts now a p f q t = record {
    at_places = create_at-Places now a p f q;
    total = omega (arith, t, length-append p.all_conns (a ∷ []));
  }

  reserve-Accounts :
      (n : ℕ) (p : DbPool)
      → n ≤ p.max_size - p.total_conn_count
      → Accounts held p
      → Accounts held
          (record p { total_conn_count = p.total_conn_count + n; creations = p.creations + n })
  reserve-Accounts n p h v = record {
    at_places = record {
      bounded = omega (arith, h, v.at_places.bounded);
      idle = v.at_places.idle;
      places = v.at_places.places;
      distinct = v.at_places.distinct;
    };
    total = omega (arith, v.total);
  }

  pub replenish-Accounts : (p : DbPool) → Accounts held p → Accounts held (replenish_to_min_idle p)
  unfolding replenish_to_min_idle
  replenish-Accounts p v =
      let need = p.min_idle - p.idle_count in
      let available = p.max_size - p.total_conn_count in
      let need' = if ltb available need then available else need in
      elim (Bool-cases (leb p.min_idle p.idle_count)) [
        | inl y ↦ rw y v
        | inr n ↦ rw n (elim (Bool-cases (leb need' 0)) [
          | inl y ↦ rw y v
          | inr m ↦ rw m (reserve-Accounts need' p (ground arith) v)
        ])
      ]
