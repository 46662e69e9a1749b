-- ===== src/Gateway.antt =====
-- internal/gateway: the attempts of one chat request.
pub mod Policy
pub mod Errors
pub mod Response
pub mod Attempts
pub mod Attempt
pub mod Streaming
pub mod Chat
pub mod Candidates
pub mod Serve
pub mod Usage
pub mod Control
