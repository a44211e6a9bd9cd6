-- ===== src/Keyshare.antt =====
-- The keyshare server: its cryptographic core in internal/keysharecore, and the server around it in
-- server/keyshare.
pub mod Secrets
pub mod Core
pub mod Operations
pub mod Padding
pub mod Pin
pub mod Users
pub mod Store
pub mod Handler
pub mod Prove
pub mod Verify
pub mod Register
pub mod Commitments
pub mod SingleUse
pub mod Access
pub mod Blocked
pub mod Examples
