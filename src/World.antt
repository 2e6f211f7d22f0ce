-- ===== src/World.antt =====
-- The contracts together on a host: what a transaction does that the margin engine answers by
-- messages to a vAMM and to the token, whose replies it then takes.
pub mod State
pub mod Dispatch
pub mod Pending
pub mod Settled
pub mod Closing
pub mod Opening
pub mod Selling
pub mod Turning
pub mod Reversing
pub mod Markets
pub mod History
pub mod Fixture
mod SaleTests
mod Tests
