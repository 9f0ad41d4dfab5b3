-- ===== src/Lanhost.antt =====
-- internal/lanhost: the host of a Project on the local network.
pub mod Sql
pub mod Store
pub mod Operations
pub mod Replay
pub mod Remote
pub mod Wire
pub mod Broker
pub mod Server
pub mod Client
