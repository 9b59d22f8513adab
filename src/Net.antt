-- ===== src/Net.antt =====
-- src/net: the byte buffer of a connection, the byte order of its integers, the timers
-- of a loop, and what wakes it.
pub mod Endian
pub mod Buffer
pub mod Timer
pub mod TimerList
pub mod TimerManager
pub mod EventLoop
