-- ===== src/Db/Pool/Tests.antt =====
-- src/db/DBPool.cc: a pool of at most four connections.
use mcp_server_cpp.Prelude.{
  next_free, next_free-fresh, ℕ_discrete, ℕ, ◌+◌, ◌-◌, ◌*◌, ◌≡◌, refl, true, false, none, some,
  List, [], ◌∷◌, ◌==◌, min, arith,
}
use mcp_server_cpp.Db.Pool.{
  DbPool, DbPoolConfig, of_config, get_connection, take_idle, ask_replenish, release_connection,
  discard, erase, create_one, replenish_to_min_idle,
}
use mcp_server_cpp.Db.Pool.Maintenance.{
  Event, gets, releases, maintains, creates, step, run, maintain, scan_connections, drain,
  check_alive, sweep,
}
use mcp_server_cpp.Db.Pool.Account.{times, Accounts}
use mcp_server_cpp.Db.Pool.History.{of_config-Accounts, run-Accounts}
use mcp_server_cpp.Db.Pool.Interleave.{Act, advances, waits, at, acts, Balances, acts-Balances}
use mcp_server_cpp.Db.Pool.Interleave
use mcp_server_cpp.Db.Pool.Replenish.{replenishes, replenishes_lem, min_idle_zero}
use mcp_server_cpp.Db.Pool.Shrink.{scan-keeps}

abbrev of_sizes : (max_size min_idle : ℕ) → DbPoolConfig
of_sizes m n = record {
  max_pool_size = m;
  min_idle = n;
  idle_timeout_seconds = 300;
  max_life_time_seconds = 1800;
  keepalive_seconds = 60;
  borrowed_timeout_seconds = 30;
}

-- Two connections are created, and a client gets one of them.
abbrev events : List Event
events = maintains 10 10 (λ a. true) ∷ creates 20 true ∷ creates 20 true ∷ gets 30 ∷ []

abbrev used : DbPool
used = (run next_free events (of_config (of_sizes 4 2))).0

abbrev later : List Event
later =
    gets 40 ∷ maintains 50 50 (λ a. true) ∷ releases 60 true 1 ∷ gets 70 ∷ releases 80 false 2 ∷ []

run_test : (run next_free later used).1 ≡ some 2 ∷ none ∷ none ∷ some 1 ∷ none ∷ []
unfolding run step of_config maintain scan_connections drain check_alive sweep get_connection
    take_idle ask_replenish release_connection discard erase create_one replenish_to_min_idle
    ℕ_discrete
run_test = refl

used-Balances : Accounts [] (run next_free later used).0
used-Balances = run-Accounts next_free next_free-fresh later used (
    run-Accounts next_free next_free-fresh events (of_config (of_sizes 4 2))
      (of_config-Accounts (of_sizes 4 2)))

-- The maintenance thread takes a connection out of the queue and pings it; meanwhile one is created
-- and a client asks for one.
abbrev meanwhile : List Act
meanwhile =
    advances 90000000000 0 true
    ∷ advances 90000000000 0 true
    ∷ Interleave.creates 90000000001 true
    ∷ advances 90000000002 0 true
    ∷ Interleave.gets 90000000003
    ∷ advances 90000000004 90000000005 false
    ∷ []

acts-Balances_example : Balances (acts next_free meanwhile (at (run next_free later used).0 waits))
acts-Balances_example =
    acts-Balances next_free next_free-fresh meanwhile (at (run next_free later used).0 waits)
      used-Balances

replenishes_example :
    ((replenishes 2 (of_config (of_sizes 9 3))).total_conn_count ≡ min 9 (0 + 2 * (3 - 0)))
    × ((replenishes 2 (of_config (of_sizes 9 3))).creations + 0
        ≡ 0 + (replenishes 2 (of_config (of_sizes 9 3))).total_conn_count)
unfolding of_config
replenishes_example = replenishes_lem 2 (of_config (of_sizes 9 3)) (omega arith)

min_idle_zero_example :
    (run next_free (gets 1 ∷ maintains 2 2 (λ a. true) ∷ gets 3 ∷ []) (of_config (of_sizes 4 0))).1
    ≡ none ∷ none ∷ none ∷ []
unfolding of_config
min_idle_zero_example =
    min_idle_zero next_free (gets 1 ∷ maintains 2 2 (λ a. true) ∷ gets 3 ∷ [])
      (of_config (of_sizes 4 0))
      (record { no_minimum = refl; no_idle = refl; no_lent = refl; no_creations = refl })

scan-keeps_example :
    times 2 (scan_connections 900000000000 900000500000 (λ a. a == 2) used).idle_queue
    ≡ times 2 used.idle_queue
unfolding run step of_config maintain scan_connections drain check_alive sweep get_connection
    take_idle ask_replenish release_connection discard erase create_one replenish_to_min_idle
    ℕ_discrete
scan-keeps_example =
    scan-keeps 900000000000 900000500000 2 (λ a. a == 2) used (omega arith) (omega arith)
      (omega arith) refl refl
