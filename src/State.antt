-- ===== src/State.antt =====
-- internal/v2state/state.go: the local state of a machine, on disk and in the keyring.
pub mod Model
pub mod Disk
pub mod Keys
pub mod Profiles
pub mod Agents
