-- ===== src/Protocol.antt =====
-- pkg/protocol/v2: the wire protocol.
pub mod Time
pub mod Platform
pub mod Model
pub mod Signing
pub mod Invitation
