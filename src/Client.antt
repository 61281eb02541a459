-- ===== src/Client.antt =====
-- client/: the connection to one server, and the client that chooses among servers.
pub mod Selector
pub mod Discovery
pub mod XClient
pub mod Call
pub mod Connection
pub mod Connecting
pub mod Heartbeat
