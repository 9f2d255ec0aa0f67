-- ===== src/Rpc.antt =====
-- `RPCClient` of src/rpc.rs: the client's side of the protocol with the coordinating servers.
-- `Response` has the answers, `Settings` what they configure, `Servers` the choice of a server,
-- `Client` the requests and retries, `Login` the start of a session and `Calls` the other
-- operations; `Authentic`, `Choice`, `Session` and `Answers` are proofs.
pub mod Response
pub mod Authentic
pub mod Settings
pub mod Servers
pub mod Choice
pub mod Client
pub mod Login
pub mod Calls
pub mod Session
pub mod Answers
mod Tests
