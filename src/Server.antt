-- ===== src/Server.antt =====
-- src/server: the thread pool, the connections, and the server's own loop.
pub mod ThreadPool
pub mod Stream
pub mod Connection
pub mod Run
mod Tests
