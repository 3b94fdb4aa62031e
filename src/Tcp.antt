-- ===== src/Tcp.antt =====
-- The network library under mymuduo/tcp.
pub mod Buffer
pub mod Channel
pub mod Connection
pub mod EventLoop
