-- ===== src/Perp.antt =====
-- packages/margined_perp: the messages between the contracts.
pub mod Vamm
pub mod Messages
pub mod Pricefeed
pub mod Engine
