-- ===== src/Runs.antt =====
-- Small runs of the code: the theorems at concrete inputs.
mod Toys
mod Wire
mod Relay
mod Market
mod Wallet
mod Server
mod Money
mod Links
