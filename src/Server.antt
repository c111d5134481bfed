-- ===== src/Server.antt =====
-- pkg/server
pub mod Config
pub mod PubSub
pub mod Source
pub mod Handler
pub mod Http
pub mod Options
