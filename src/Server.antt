-- ===== src/Server.antt =====
-- server/: plugins, the pools of argument values, registered services and the handling of requests.
pub mod Plugin
pub mod Pool
pub mod Handler
pub mod Conn
pub mod Registry
pub mod Lifecycle
pub mod Consul
pub mod Converter
pub mod Gateway
