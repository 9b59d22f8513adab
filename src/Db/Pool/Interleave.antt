-- ===== src/Db/Pool/Interleave.antt =====
-- src/db/DBPool.cc: the maintenance thread one connection at a time, with the other threads in between.
-- A connection that is taken from the idle queue, or put back into it, is counted in the same step. Each
-- step reads the clock anew; a ping begins at `now` and has ended at `done`.
use mcp_server_cpp.Prelude.{
  ℕ, ◌-◌, ◌≡◌, refl, sym, ap, Bool, Bool-cases, true, false, not, ◌&&◌, ◌||◌, List, [], ◌∷◌, ◌++◌,
  append-nil, length, if◌then◌else◌, ltb, ◌==◌, inl, inr, arith, count, count-append, IsAllocator,
}
use mcp_server_cpp.Db.Pool.{
  DbPool, discard, put_idle, changed, set_state, keepalive, release_connection, create_one,
  get_connection, replenish_to_min_idle, is_life_timeout, is_idle_timeout, is_keepalive_timeout,
}
use mcp_server_cpp.Db.Pool.Maintenance.{pinged, surplus_of, holds}
use mcp_server_cpp.Db.Pool.Account.{
  times, Accounts, discard-Accounts, put_idle-Accounts, marked-Accounts, get_connection-Accounts,
  replenish-Accounts,
}
use mcp_server_cpp.Db.Pool.Invariant.{perm-Accounts, release-Accounts, create_one-Accounts}

-- Where the maintenance thread is: it waits; it empties the idle queue, it looks at what it took out,
-- and it removes from the healthy ones or puts them back, with the surplus that is left.
pub data Scan : Type 0 where
  waits : Scan
  draining : (drained : List ℕ) → Scan
  checking : (left healthy : List ℕ) → Scan
  sweeping : (surplus : ℕ) (left : List ℕ) → Scan

-- The connections in the hands of the thread.
abbrev pub hands : Scan → List ℕ
hands waits = []
hands (draining l) = l
hands (checking l healthy) = l ++ healthy
hands (sweeping surplus l) = l

pub record Working : Type 0 where
  pub pool : DbPool
  pub scan : Scan

abbrev pub at : DbPool → Scan → Working
at p s = record { pool = p; scan = s }

-- One `dequeue` of the first loop.
abbrev pub drain_one : List ℕ → DbPool → List ℕ → Working
drain_one [] p l = at p (checking l [])
drain_one (a ∷ rest) p l =
    at (record p { idle_queue = rest; idle_count = p.idle_count - 1 }) (draining (l ++ a ∷ []))

-- One connection of the first round.
abbrev pub check_one :
    (now done : ℕ) (alive : Bool) → DbPool → (a : ℕ) → (left healthy : List ℕ) → Working
check_one now done alive p a l healthy =
    let due = is_keepalive_timeout now p.keepalive_sec (p.heap a) in
    if due && not alive
    then at (discard a (changed (set_state keepalive) a p)) (checking l healthy)
    else at (if due then pinged done a p else p) (checking l (healthy ++ a ∷ []))

-- One connection of the second round.
abbrev pub sweep_one : (now : ℕ) → DbPool → (surplus a : ℕ) → List ℕ → Working
sweep_one now p surplus a l =
    if is_life_timeout now p.max_lifetime_sec (p.heap a)
    then at (discard a p) (sweeping surplus l)
    else if is_idle_timeout now p.idle_timeout_sec (p.heap a) && ltb 0 surplus
    then at (discard a p) (sweeping (surplus - 1) l)
    else at (put_idle a p) (sweeping surplus l)

abbrev pub replenish_if : Bool → DbPool → DbPool
replenish_if true p = replenish_to_min_idle p
replenish_if false p = p

-- The end of the scan, and of a turn of `maintenanceLoop`. The scan of the leaks only writes to the log.
abbrev pub end_turn : DbPool → DbPool
end_turn p =
    let marked = p.need_replenish || ltb p.idle_count p.min_idle in
    replenish_if marked (record p { need_replenish = marked })

-- The next step of the maintenance thread, with what it reads from the clock and from the database.
unfoldable pub advance : (now done : ℕ) (alive : Bool) → DbPool → Scan → Working
advance now done alive p waits =
    if p.stopped then at p waits else at (record p { need_replenish = false }) (draining [])
advance now done alive p (draining l) = drain_one p.idle_queue p l
advance now done alive p (checking [] healthy) = at p (sweeping (surplus_of healthy p) healthy)
advance now done alive p (checking (a ∷ l) healthy) = check_one now done alive p a l healthy
advance now done alive p (sweeping surplus []) = at (end_turn p) waits
advance now done alive p (sweeping surplus (a ∷ l)) = sweep_one now p surplus a l

-- A step of a client, of the maintenance thread, or of a task that creates a connection.
pub data Act : Type 0 where
  gets : (now : ℕ) → Act
  releases : (now : ℕ) (is_valid : Bool) (a : ℕ) → Act
  advances : (now done : ℕ) (alive : Bool) → Act
  creates : (now : ℕ) (connects : Bool) → Act
  stops : Act

module _ (allocate : ℕ → List ℕ → ℕ) where
  unfoldable pub act : Act → Working → Working
  act (gets now) w = record w { pool = (get_connection now w.pool).0 }
  act (releases now is_valid a) w = record w {
    pool = if holds a w.pool.lent then release_connection now is_valid a w.pool else w.pool;
  }
  act (advances now done alive) w = advance now done alive w.pool w.scan
  act (creates now connects) w = record w {
    pool = if ltb 0 w.pool.creations then create_one allocate now connects w.pool else w.pool;
  }
  act stops w = record w { pool = record w.pool { stopped = true } }

  unfoldable pub acts : List Act → Working → Working
  acts [] w = w
  acts (x ∷ xs) w = acts xs (act x w)

-- The accounts, with what the maintenance thread has in its hands.
abbrev pub Balances : Working → Type 0
Balances w = Accounts (hands w.scan) w.pool

if-Balances : (b : Bool) (v w : Working) → Balances v → Balances w → Balances (if b then v else w)
if-Balances true v w x y = x
if-Balances false v w x y = y

if-found :
    (b : Bool) (done a : ℕ) (held : List ℕ) (p : DbPool)
    → Accounts held p
    → Accounts held (if b then pinged done a p else p)
if-found true done a held p v = marked-Accounts held p p.need_replenish p.stopped _ v
if-found false done a held p v = v

drain_one-Balances :
    (q : List ℕ) (p : DbPool) (l : List ℕ)
    → p.idle_queue ≡ q
    → Accounts l p
    → Balances (drain_one q p l)
unfolding count
drain_one-Balances [] p l e v =
    perm-Accounts l (l ++ []) p (λ b. ap (times b) (sym (append-nil l))) v
drain_one-Balances (a ∷ rest) p l e v = record {
  at_places = record {
    bounded = v.at_places.bounded;
    idle = omega (arith, v.at_places.idle, ap length e);
    places = λ b.
        omega (arith, v.at_places.places b, ap (times b) e, count-append (λ c. c == b) l (a ∷ []));
    distinct = v.at_places.distinct;
  };
  total = v.total;
}

times-end :
    (a b : ℕ) (l healthy : List ℕ) → times b (a ∷ l ++ healthy) ≡ times b (l ++ (healthy ++ a ∷ []))
unfolding count
times-end a b l healthy = omega (
  arith,
  count-append (λ c. c == b) l healthy,
  count-append (λ c. c == b) l (healthy ++ a ∷ []),
  count-append (λ c. c == b) healthy (a ∷ []),
)

check_one-Balances :
    (now done : ℕ) (alive : Bool) (p : DbPool) (a : ℕ) (l healthy : List ℕ)
    → Accounts (a ∷ l ++ healthy) p
    → Balances (check_one now done alive p a l healthy)
check_one-Balances now done alive p a l healthy v =
    let due = is_keepalive_timeout now p.keepalive_sec (p.heap a) in
    if-Balances (due && not alive) _ _
      (discard-Accounts (l ++ healthy) a (changed (set_state keepalive) a p)
        (marked-Accounts (a ∷ l ++ healthy) p p.need_replenish p.stopped _ v))
      (perm-Accounts (a ∷ l ++ healthy) (l ++ (healthy ++ a ∷ [])) _ (λ b. times-end a b l healthy)
        (if-found due done a (a ∷ l ++ healthy) p v))

sweep_one-Balances :
    (now : ℕ) (p : DbPool) (surplus a : ℕ) (l : List ℕ)
    → Accounts (a ∷ l) p
    → Balances (sweep_one now p surplus a l)
sweep_one-Balances now p surplus a l v =
    let out = discard-Accounts l a p v in
    if-Balances (is_life_timeout now p.max_lifetime_sec (p.heap a)) _ _ out (
      if-Balances (is_idle_timeout now p.idle_timeout_sec (p.heap a) && ltb 0 surplus) _ _ out
        (put_idle-Accounts l a p v))

replenish_if-Accounts : (b : Bool) (p : DbPool) → Accounts [] p → Accounts [] (replenish_if b p)
replenish_if-Accounts true p v = replenish-Accounts [] p v
replenish_if-Accounts false p v = v

advance-Balances :
    (now done : ℕ) (alive : Bool) (p : DbPool) (s : Scan)
    → Accounts (hands s) p
    → Balances (advance now done alive p s)
unfolding advance
advance-Balances now done alive p waits v =
    if-Balances p.stopped _ _ v (marked-Accounts [] p false p.stopped p.heap v)
advance-Balances now done alive p (draining l) v = drain_one-Balances p.idle_queue p l refl v
advance-Balances now done alive p (checking [] healthy) v = v
advance-Balances now done alive p (checking (a ∷ l) healthy) v =
    check_one-Balances now done alive p a l healthy v
advance-Balances now done alive p (sweeping surplus []) v =
    let marked = p.need_replenish || ltb p.idle_count p.min_idle in
    replenish_if-Accounts marked (record p { need_replenish = marked })
      (marked-Accounts [] p marked p.stopped p.heap v)
advance-Balances now done alive p (sweeping surplus (a ∷ l)) v =
    sweep_one-Balances now p surplus a l v

module _ (allocate : ℕ → List ℕ → ℕ) (fresh : IsAllocator allocate) where
  act-Balances : (x : Act) (w : Working) → Balances w → Balances (act allocate x w)
  unfolding act
  act-Balances (gets now) w v = get_connection-Accounts (hands w.scan) now w.pool v
  act-Balances (releases now is_valid a) w v = elim (Bool-cases (holds a w.pool.lent)) [
    | inl y ↦ rw y (release-Accounts (hands w.scan) now is_valid a w.pool y v)
    | inr n ↦ rw n v
  ]
  act-Balances (advances now done alive) w v = advance-Balances now done alive w.pool w.scan v
  act-Balances (creates now connects) w v = elim (Bool-cases (ltb 0 w.pool.creations)) [
    | inl y ↦
        rw y
          (create_one-Accounts (hands w.scan) allocate fresh now connects w.pool (ground arith) v)
    | inr n ↦ rw n v
  ]
  act-Balances stops w v =
      marked-Accounts (hands w.scan) w.pool w.pool.need_replenish true w.pool.heap v

  -- Clients get and release connections, tasks create them, the pool is stopped, and the maintenance
  -- thread handles one connection after the other, in any order of these steps, with an allocator
  -- that gives no address in use: a pool whose accounts are right stays so. There are never more
  -- connections, with those being created, than the maximum; every connection of the registry is in
  -- the idle queue, with one client, or in the hands of the maintenance thread, and once only; and
  -- the count of the idle ones, which each of these steps changes with the queue, is the length of
  -- the queue.
  pub acts-Balances : (xs : List Act) (w : Working) → Balances w → Balances (acts allocate xs w)
  unfolding acts
  acts-Balances [] w v = v
  acts-Balances (x ∷ xs) w v = acts-Balances xs (act allocate x w) (act-Balances x w v)
