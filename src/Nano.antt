-- ===== src/Nano.antt =====
-- sail/nano: the wallet's view of its account and the blocks it signs.
pub mod State
pub mod Account
