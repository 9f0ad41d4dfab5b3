-- ===== src/Lanhost/Store.antt =====
-- internal/lanhost/store.go: the host's database.
pub mod Tables
pub mod Projects
pub mod Members
pub mod Invitations
pub mod Agents
pub mod Requests
