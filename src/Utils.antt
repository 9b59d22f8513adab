-- ===== src/Utils.antt =====
-- src/utils: the queues on which the thread pool, the logger and the connection pool stand, and the
-- thread pool.
pub mod BlockingQueue
pub mod BoundedQueue
pub mod CircularQ
pub mod ThreadPool
