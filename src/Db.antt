-- ===== src/Db.antt =====
-- src/db: the pool of database connections.
pub mod Pool
