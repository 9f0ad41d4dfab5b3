-- ===== src/Lanhost/Server.antt =====
-- internal/lanhost/server.go: the host's HTTP service.
pub mod Host
pub mod Failures
pub mod Auth
pub mod Invite
pub mod Ask
pub mod Rpc
pub mod Join
pub mod Connection
pub mod Routes
pub mod Permitted
