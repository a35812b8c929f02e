-- ===== src/Tests.antt =====
-- The modules on concrete books, engines, risk checks, queues, lines, counters and sockets.
pub mod Books
pub mod Priorities
pub mod Matches
pub mod Engines
pub mod Risks
pub mod Quotes
pub mod Logs
pub mod Queues
pub mod Protocols
pub mod Observed
pub mod Sockets
