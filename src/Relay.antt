-- ===== src/Relay.antt =====
-- sail/relay: what a relay keeps and decides.
pub mod CellQueue
pub mod Quota
pub mod Pricing
pub mod PriceCap
pub mod Spot
pub mod Pairing
pub mod Faucet
pub mod Rewards
pub mod Server
pub mod Exchange
pub mod Datagram
pub mod Watch
pub mod Gossip
pub mod Registry
