-- ===== src/Db/Pool.antt =====
-- src/db/DBPool.h, src/db/DBPool.cc: the pool of database connections, its accounts and its
-- maintenance.
-- Each method runs without another thread in between, but for the creation of a connection, which
-- is a task of its own, and for Interleave, where the maintenance thread handles one connection at
-- a time. An operation of the queue and its count are one step. Objects live in a heap by address;
-- the queue, the registry and `lent`, the connections that clients hold, are lists of addresses.
-- Times are nanoseconds of the cached clock; the answers of the database, and the address of a new
-- object, are arguments. The queue is never full, as the bound of the invariant says. Waiting for
-- a connection is a call that is made again, so the count of the waiting threads, its time limit,
-- the interval of the scans and the notifications are left out, as is the log.
pub mod Maintenance
pub mod Account
pub mod Invariant
pub mod History
pub mod Alive
pub mod Shrink
pub mod Interleave
pub mod Alone
pub mod Replenish
mod Tests
use mcp_server_cpp.Prelude.{
  ℕ, zero, suc, ◌+◌, ◌-◌, ◌*◌, ◌/◌, Bool, true, false, not, ◌&&◌, ◌||◌, Option, none, some, List,
  [], ◌∷◌, ◌++◌, length, if◌then◌else◌, ltb, leb, ◌==◌, min, update,
}

pub data ConnState : Type 0 where
  creating idle in_use keepalive broken closing closed : ConnState

pub record DbConnection : Type 0 where
  pub state : ConnState
  pub created_at : ℕ
  pub last_used_at : ℕ
  pub borrowed_at : ℕ

abbrev pub is_in_use : ConnState → Bool
is_in_use in_use = true
is_in_use _ = false

-- `DBPoolConfig`, with zero for a number below zero.
pub record DbPoolConfig : Type 0 where
  pub max_pool_size : ℕ
  pub min_idle : ℕ
  pub idle_timeout_seconds : ℕ
  pub max_life_time_seconds : ℕ
  pub keepalive_seconds : ℕ
  pub borrowed_timeout_seconds : ℕ

pub record DbPool : Type 0 where
  pub max_size : ℕ
  pub min_idle : ℕ
  pub idle_timeout_sec : ℕ
  pub max_lifetime_sec : ℕ
  pub keepalive_sec : ℕ
  pub borrowed_timeout_sec : ℕ
  pub total_conn_count : ℕ
  pub idle_count : ℕ
  pub need_replenish : Bool
  pub stopped : Bool
  pub idle_queue : List ℕ
  pub all_conns : List ℕ
  -- The tasks of the thread pool that have not run yet.
  pub creations : ℕ
  pub lent : List ℕ
  pub heap : ℕ → DbConnection

abbrev pub maximum : ℕ → ℕ → ℕ
maximum a b = if ltb a b then b else a

abbrev pub nowhere : DbConnection
nowhere = record { state = closed; created_at = 0; last_used_at = 0; borrowed_at = 0 }

-- The constructor, before `init`.
unfoldable pub of_config : DbPoolConfig → DbPool
of_config c = record {
  max_size = maximum 1 c.max_pool_size;
  min_idle = min (maximum 0 c.min_idle) (maximum 1 c.max_pool_size);
  idle_timeout_sec = maximum 0 c.idle_timeout_seconds;
  max_lifetime_sec = maximum 1 c.max_life_time_seconds;
  keepalive_sec = maximum 1 c.keepalive_seconds;
  borrowed_timeout_sec = maximum 1 c.borrowed_timeout_seconds;
  total_conn_count = 0;
  idle_count = 0;
  need_replenish = false;
  stopped = false;
  idle_queue = [];
  all_conns = [];
  creations = 0;
  lent = [];
  heap = λ a. nowhere;
}

-- `duration_cast<seconds>(now - since).count() >= seconds`.
abbrev pub has_elapsed : (now since seconds : ℕ) → Bool
has_elapsed now since seconds = leb seconds ((now - since) / 1000000000)

abbrev pub is_idle_timeout : (now seconds : ℕ) → DbConnection → Bool
is_idle_timeout now seconds c = has_elapsed now c.last_used_at seconds

abbrev pub is_life_timeout : (now seconds : ℕ) → DbConnection → Bool
is_life_timeout now seconds c = has_elapsed now c.created_at seconds

abbrev pub is_keepalive_timeout : (now seconds : ℕ) → DbConnection → Bool
is_keepalive_timeout now seconds c = has_elapsed now c.last_used_at seconds

abbrev pub is_borrowed_timeout : (now seconds : ℕ) → DbConnection → Bool
is_borrowed_timeout now seconds c = has_elapsed now c.borrowed_at seconds

-- A member function of the object at an address.
abbrev pub changed : (DbConnection → DbConnection) → ℕ → DbPool → DbPool
changed f a p = record p { heap = update p.heap a (f (p.heap a)) }

abbrev pub set_state : ConnState → DbConnection → DbConnection
set_state s c = record c { state = s }

abbrev pub refresh_last_used_time : ℕ → DbConnection → DbConnection
refresh_last_used_time now c = record c { last_used_at = now }

-- `std::find` and `erase`.
unfoldable pub erase : ℕ → List ℕ → List ℕ
erase a [] = []
erase a (b ∷ l) = let rest = erase a l in if b == a then l else b ∷ rest

unfoldable pub discard : ℕ → DbPool → DbPool
discard a p =
    changed (set_state broken) a
      (record p { total_conn_count = p.total_conn_count - 1; all_conns = erase a p.all_conns })

-- `setState(Idle)`, `enqueueIdle` and the count.
abbrev pub put_idle : ℕ → DbPool → DbPool
put_idle a p =
    changed (set_state idle) a
      (record p { idle_queue = p.idle_queue ++ a ∷ []; idle_count = p.idle_count + 1 })

-- `idleCount_ < minIdle_ && !needReplenish_.exchange(true)`.
unfoldable pub ask_replenish : DbPool → DbPool
ask_replenish p = if ltb p.idle_count p.min_idle then record p { need_replenish = true } else p

abbrev pub lend : (now a : ℕ) → List ℕ → DbPool → DbPool
lend now a rest p =
    changed (λ c. record c { state = in_use; borrowed_at = now }) a
      (record p { idle_queue = rest; idle_count = p.idle_count - 1; lent = a ∷ p.lent })

abbrev pub taken : (now : ℕ) → List ℕ → DbPool → DbPool × Option ℕ
taken now [] p = (p, none)
taken now (a ∷ rest) p = (lend now a rest p, some a)

unfoldable pub take_idle : (now : ℕ) → DbPool → DbPool × Option ℕ
take_idle now p = taken now p.idle_queue p

abbrev pub handed : DbPool × Option ℕ → DbPool × Option ℕ
handed (p, none) = (p, none)
handed (p, some a) = (ask_replenish p, some a)

-- Where there is none the wait ends by the time out or the stop.
unfoldable pub get_connection : (now : ℕ) → DbPool → DbPool × Option ℕ
get_connection now p = handed (take_idle now p)

-- The client gives the connection back, with what `isValid` answers.
unfoldable pub release_connection : (now : ℕ) (is_valid : Bool) (a : ℕ) → DbPool → DbPool
release_connection now is_valid a p =
    let p' = record p { lent = erase a p.lent } in
    ask_replenish (
      if not is_valid || is_life_timeout now p.max_lifetime_sec (p.heap a)
      then discard a p'
      else put_idle a (changed (refresh_last_used_time now) a p'))

-- The new connection at an address, in the registry and the queue.
abbrev pub create_at : (now a : ℕ) → DbPool → DbPool
create_at now a p = put_idle a (
    changed
      (λ c. record { state = creating; created_at = now; last_used_at = now; borrowed_at = 0 }) a
      (record p { all_conns = p.all_conns ++ a ∷ [] }))

-- A task of the thread pool; `connects` is whether the database lets it connect.
unfoldable pub create_one :
    (allocate : ℕ → List ℕ → ℕ) (now : ℕ) (connects : Bool) → DbPool → DbPool
create_one allocate now connects p =
    let p' = record p { creations = p.creations - 1 } in
    if not connects
    then record p' { total_conn_count = p.total_conn_count - 1 }
    else create_at now (allocate p.total_conn_count p.all_conns) p'

unfoldable pub replenish_to_min_idle : DbPool → DbPool
replenish_to_min_idle p =
    let need = p.min_idle - p.idle_count in
    let available = p.max_size - p.total_conn_count in
    let need' = if ltb available need then available else need in
    if leb p.min_idle p.idle_count
    then p
    else if leb need' 0
    then p
    else record p { total_conn_count = p.total_conn_count + need'; creations = p.creations + need' }

-- The loop of `init`, and none where a connection fails: the constructor throws.
unfoldable pub init :
    (allocate : ℕ → List ℕ → ℕ) (now : ℕ) (connects : ℕ → Bool) → ℕ → DbPool → Option DbPool
init allocate now connects zero p = some p
init allocate now connects (suc i) p =
    let a = allocate p.total_conn_count p.all_conns in
    let rest =
      init allocate now connects i
        (create_at now a (record p { total_conn_count = p.total_conn_count + 1 })) in
    if connects i then rest else none
