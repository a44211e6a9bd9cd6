-- ===== src/Session.antt =====
-- The session of the IRMA server: server/irmaserver, from the data of a session up to the requests of
-- the client and the frontend, and the memory store that keeps the sessions.
pub mod Types
pub mod Steps
pub mod Negotiation
pub mod Messages
pub mod Connect
pub mod Respond
pub mod Issuance
pub mod Routes
pub mod Status
pub mod Lifecycle
pub mod Completion
pub mod Commitments
pub mod Serving
pub mod Callbacks
pub mod Access
pub mod Updates
pub mod Transactions
pub mod Once
pub mod Reached
pub mod Store
pub mod Server
mod Examples
