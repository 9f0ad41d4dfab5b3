-- ===== src/Service.antt =====
-- internal/service: the daemon of a machine, which serves the commands of its local socket.
pub mod Control
pub mod Daemon
pub mod Projects
pub mod Providers
pub mod Agents
pub mod Asking
pub mod Requests
pub mod Endpoints
pub mod Startup
