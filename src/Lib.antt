-- ===== src/Lib.antt =====
-- A model of mcp_server-cpp, a C++ server for the Model Context Protocol with its own network library,
-- and proofs about it.
--
-- The program is a stack. src/utils holds queues that threads share. src/net holds an event loop with
-- connections, each with two byte buffers. src/mcp reads JSON-RPC messages from a transport (standard
-- input, or HTTP over src/net), gives each one to the handler of its method, and sends back what the
-- handler answers; handlers find resources by URI templates.
--
-- What is modelled, and where:
-- - Utils/CircularQ: `circular_q` of src/utils/circular_q.h, a ring with one slot more than it holds.
--   The record has the members of the class, and each method is the function of its name. The indexes
--   are `size_t`, that is modulo 2 ^ 64. The contract is a bounded list that gives up its oldest item.
-- - Utils/BlockingQueue: `mpmc_blocking_queue` of src/utils/mpmc_blocking_queue.h on top of the ring.
--   A critical section is one step from a state to a state and a reply; a call that has to wait changes
--   nothing, and replies that it waits. A run is the list of the calls in the order in which the threads
--   take the mutex. The time limit of a wait is that the condition does not hold when it ends. The
--   notifications of the condition variables are left out: the proofs say what a call does once it
--   looks, not that the scheduler wakes it. Utils/BlockingQueue/Spec is the contract.
-- - Utils/ThreadPool: `ThreadPool` of src/utils/thread_pool.cc on top of Utils/BlockingQueue. A worker takes
--   one step at a time, in any order with the others and with the calls from outside.
-- - Utils/BoundedQueue: `mpmc_bounded_queue` of src/utils/mpmc_bounded_queue.h, the queue without locks.
--   Each access of shared memory is one step of one thread, and the steps of the threads follow each
--   other in any order (sequential consistency; the memory orders are left out). Runs are bounded by
--   2 ^ 63 steps, less the capacity, so that no cursor wraps. Utils/BoundedQueue/Invariant says what the
--   sequence numbers mean; Cells, Threads, Owners and Delivery are about one step.
-- - Net/EventLoop: the queue of functors of `EventLoop` in src/net/EventLoop.cc, as a step relation of
--   the thread of the loop, from its construction on, and the threads that leave functors to it.
-- - Net/Timer, Net/TimerList, Net/TimerManager: `Timer`, the ordered set and `TimerManager` of
--   src/net/TimerManager.cc, in the thread of the loop. A failing assert and a dangling address are
--   `none`. Callbacks are lists of the timers that they add and cancel, and readings of the clock are
--   arguments. TimerManager/Reads is one call of `handleRead`, History any sequence of calls.
-- - Db/Pool: `DBPool` of src/db/DBPool.cc over a heap of connections. Each method runs without another
--   thread in between, and the creation of a connection is a task of its own. Db/Pool/Maintenance is the
--   maintenance thread in one piece, and Db/Pool/Interleave the same thread one connection at a time, with
--   the other threads in between and a clock that moves; an operation of the queue and its count stay one
--   step. Alone relates the two. Account and Invariant are about the counts.
-- - Net/Endian: `byteswap` of src/net/base/endian.h, for a number of w bytes, on a little-endian host.
-- - Net/Buffer: `Buffer` of src/net/Buffer.h and Buffer.cc, a vector with a reader and a writer index.
--   The stream is the list of the readable bytes. A read outside the vector is `none`. `readv` is an
--   argument, as what it answers. The vector stays below 2 ^ 63 bytes, which is its largest size.
-- - Mcp/UriTemplate: `UriTemplate` of src/mcp/server/UriTemplate.cc, over bytes. The loop of `parse` runs
--   on fuel, one round more than the template has bytes, which is enough.
-- - Mcp/Json: nlohmann::json is not part of the repository. The record `Json` holds the operations that
--   the code calls, with laws from its documentation; a conversion that throws is `none` there. A number
--   of type `int64_t` comes with a proof that it fits. Json/Build
--   has lemmas for objects written key by key, and Json/Sample is an instance of the record.
-- - Mcp/JsonRpc: the types of src/mcp/json_rpc/JsonRpcTypes.h, a module for each, with `to_json` and
--   `from_json`. `Result` tells a return from an exception.
-- - Mcp/Dispatcher: `MethodDispatcher` of src/mcp/json_rpc/MethodDispatcher.cc. A handler is a function
--   that answers or throws, also what is no `std::exception`; the writer that it gets and the log are left out.
--   Mcp/Dispatcher/Progress is `report_progress` of src/mcp/json_rpc/DefaultRequestContext.cc.
-- - Mcp/Handlers: `McpMethodHandlers` of src/mcp/server with the descriptors of tools, resources and
--   prompts. Handlers.antt has the tables and their registration, Listing the four lists, Calls the
--   methods tools/call, resources/read and prompts/get, Discover server/discover and the constructor,
--   which puts the methods into a dispatcher. Functions that the user of the library gives (executors,
--   readers, renderers) are arguments that may answer or throw. A request does not change the tables.
--   Handlers/Schema puts the validator of Mcp/Validator into tools/call.
-- - Mcp/Server: `McpServer` of src/mcp/McpServer.cc, its registrations and its two starts, without the
--   executor and the HTTP server; and Server/Stdio, the loop of src/mcp/transport/StdioTransport.cc from
--   the lines that are read to those that are written.
-- - Mcp/HttpWriter: `StreamableHttpMessageWriter` of src/mcp/transport, which answers with JSON or opens a
--   stream of events. HttpWriter/Wire says what a client reads.
-- - Mcp/Validator: `InputValidator` of src/mcp/json_rpc/InputValidator.h. The record `Schemas` has what it
--   uses of the JSON library besides `Json`, and regular expressions. A loop into a sub-schema takes one
--   unit of fuel; the fuel is one more than the height of the schema, which is enough: a member of an
--   object is lower, and an item that `items()` gives is no higher, as a primitive gives itself.
--   Mcp/Validator/Conforms says which values conform to a schema, without errors and paths.
-- - Mcp/Subscriptions: `SubscriptionFilter` and `SubscriptionRegistry` of src/mcp/server, with what
--   `notify` writes to which writer, and `handle_subscriptions_listen` of McpMethodHandlers.cc,
--   without the callback that an HTTP stream runs when it closes. A map is a list in the order in which
--   it is iterated.
-- - Prelude: shared operators, lists over the native numbers, counts along a list, and bytes.
--
-- Not modelled: the HTTP transport but for its message writer, HTTP and its parsers (generated by
-- Ragel), the connections, channels and pollers, the logger, the configuration, and what only calls the
-- operating system, MySQL, hiredis, zlib or OpenSSL.
pub mod Prelude
pub mod Mcp
pub mod Db
pub mod Net
pub mod Utils
