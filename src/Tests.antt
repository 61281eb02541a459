-- ===== src/Tests.antt =====
-- Runs of the model on concrete inputs, and the theorems at concrete inputs.
mod Wire
mod Calls
mod Requests
mod Rounds
mod Connections
mod Serving
mod Lifecycle
mod Logs
mod Announcements
mod Discoveries
mod Gateways
mod Broadcasts
mod Generator
