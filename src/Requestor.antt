-- ===== src/Requestor.antt =====
-- The requestor server of server/requestorserver: which requestor sends a request, and what it may ask for.
pub mod Permissions
pub mod Authentication
pub mod Create
pub mod Grants
pub mod Signed
pub mod Revoked
mod Examples
