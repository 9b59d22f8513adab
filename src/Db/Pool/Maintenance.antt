-- ===== src/Db/Pool/Maintenance.antt =====
-- src/db/DBPool.cc: the maintenance thread, the end of the pool, and what happens to a pool in the
-- order in which its threads act.
use mcp_server_cpp.Prelude.{
  ℕ, zero, suc, ◌-◌, Bool, true, false, not, ◌&&◌, ◌||◌, Option, none, List, [], ◌∷◌, length,
  if◌then◌else◌, ltb, ◌==◌,
}
use mcp_server_cpp.Db.Pool.{
  DbPool, keepalive, is_in_use, is_idle_timeout, is_life_timeout, is_keepalive_timeout,
  is_borrowed_timeout, changed, set_state, refresh_last_used_time, discard, put_idle,
  get_connection, release_connection, create_one, replenish_to_min_idle,
}

-- `while (idleQueue_.dequeue(c))`.
unfoldable pub drain : List ℕ → DbPool → DbPool
drain [] p = record p { idle_queue = [] }
drain (a ∷ l) p = drain l (record p { idle_queue = l; idle_count = p.idle_count - 1 })

-- A connection that answers a ping has been used then.
abbrev pub pinged : (now a : ℕ) → DbPool → DbPool
pinged now a p = changed (refresh_last_used_time now) a (changed (set_state keepalive) a p)

-- The first round, over what was drained: the healthy connections, and the pool without the others.
unfoldable pub check_alive : (now : ℕ) (ping : ℕ → Bool) → List ℕ → DbPool → DbPool × List ℕ
check_alive now ping [] p = (p, [])
check_alive now ping (a ∷ l) p =
    let due = is_keepalive_timeout now p.keepalive_sec (p.heap a) in
    let alive = check_alive now ping l (if due then pinged now a p else p) in
    if due && not (ping a)
    then check_alive now ping l (discard a (changed (set_state keepalive) a p))
    else (alive.0, a ∷ alive.1)

-- The second round, over the healthy connections.
unfoldable pub sweep : (now surplus : ℕ) → List ℕ → DbPool → DbPool
sweep now surplus [] p = p
sweep now surplus (a ∷ l) p =
    if is_life_timeout now p.max_lifetime_sec (p.heap a)
    then sweep now surplus l (discard a p)
    else if is_idle_timeout now p.idle_timeout_sec (p.heap a) && ltb 0 surplus
    then sweep now (surplus - 1) l (discard a p)
    else sweep now surplus l (put_idle a p)

-- `keepCount > minIdle_ ? keepCount - minIdle_ : 0`.
abbrev pub surplus_of : List ℕ → DbPool → ℕ
surplus_of healthy p = if ltb p.min_idle (length healthy) then length healthy - p.min_idle else 0

-- The scan where no other thread acts in between and the cached clock does not move within a round:
-- `now` is the time of the first round, `later` that of the second. Db/Pool/Interleave has the scan with
-- a clock that moves and with the other threads in between, and Db/Pool/Alone relates the two.
unfoldable pub scan_connections : (now later : ℕ) (ping : ℕ → Bool) → DbPool → DbPool
scan_connections now later ping p =
    let (p₁, healthy) = check_alive now ping p.idle_queue (drain p.idle_queue p) in
    let p₂ = sweep later (surplus_of healthy p₁) healthy p₁ in
    if ltb p₂.idle_count p₂.min_idle then record p₂ { need_replenish = true } else p₂

-- The connections that are reported as leaked.
unfoldable pub scan_borrowed_leaks : (now : ℕ) → DbPool → List ℕ → List ℕ
scan_borrowed_leaks now p [] = []
scan_borrowed_leaks now p (a ∷ l) =
    let rest = scan_borrowed_leaks now p l in
    if is_in_use (p.heap a).state && is_borrowed_timeout now p.borrowed_timeout_sec (p.heap a)
    then a ∷ rest
    else rest

-- One turn of `maintenanceLoop`.
unfoldable pub maintain : (now later : ℕ) (ping : ℕ → Bool) → DbPool → DbPool
maintain now later ping p =
    let p' = scan_connections now later ping (record p { need_replenish = false }) in
    if p.stopped
    then p
    else if p'.need_replenish || ltb p'.idle_count p'.min_idle
    then replenish_to_min_idle p'
    else p'

-- The tasks that the thread pool still has.
unfoldable pub finish :
    (allocate : ℕ → List ℕ → ℕ) (now : ℕ) (connects : ℕ → Bool) → ℕ → DbPool → DbPool
finish allocate now connects zero p = p
finish allocate now connects (suc n) p =
    finish allocate now connects n (create_one allocate now (connects n) p)

unfoldable pub shutdown :
    (allocate : ℕ → List ℕ → ℕ) (now : ℕ) (connects : ℕ → Bool) → DbPool → DbPool
shutdown allocate now connects p =
    let p' = finish allocate now connects p.creations (record p { stopped = true }) in
    if p.stopped then p else record p' { idle_queue = []; all_conns = [] }

pub record Stats : Type 0 where
  pub total : ℕ
  pub idle : ℕ
  pub in_use : ℕ
  pub max_size : ℕ
  pub min_idle : ℕ

unfoldable pub stats : DbPool → Stats
stats p = record {
  total = p.total_conn_count;
  idle = p.idle_count;
  in_use = if ltb p.idle_count p.total_conn_count then p.total_conn_count - p.idle_count else 0;
  max_size = p.max_size;
  min_idle = p.min_idle;
}

pub data Event : Type 0 where
  gets : (now : ℕ) → Event
  releases : (now : ℕ) (is_valid : Bool) (a : ℕ) → Event
  maintains : (now later : ℕ) (ping : ℕ → Bool) → Event
  creates : (now : ℕ) (connects : Bool) → Event

abbrev pub holds : ℕ → List ℕ → Bool
holds a [] = false
holds a (b ∷ l) = (b == a) || holds a l

-- A client gives back only what it holds, and only a task that is there runs. The connection that
-- is lent is returned.
module _ (allocate : ℕ → List ℕ → ℕ) where
  unfoldable pub step : Event → DbPool → DbPool × Option ℕ
  step (gets now) p = get_connection now p
  step (releases now is_valid a) p =
      (if holds a p.lent then release_connection now is_valid a p else p, none)
  step (maintains now later ping) p = (maintain now later ping p, none)
  step (creates now connects) p =
      (if ltb 0 p.creations then create_one allocate now connects p else p, none)

  unfoldable pub run : List Event → DbPool → DbPool × List (Option ℕ)
  run [] p = (p, [])
  run (e ∷ es) p = let (p', lent) = step e p in let (p'', more) = run es p' in (p'', lent ∷ more)
