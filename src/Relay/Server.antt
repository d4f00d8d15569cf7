-- ===== src/Relay/Server.antt =====
-- sail/relay/server.go: the relay's server, one child module for each of its tasks.
pub mod Verify
pub mod Circuit
pub mod Ring
pub mod Pools
pub mod Payment
pub mod TopUp
pub mod Metering
pub mod Create
pub mod Conn
