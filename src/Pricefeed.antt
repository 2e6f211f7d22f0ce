-- ===== src/Pricefeed.antt =====
-- contracts/margined_pricefeed: the prices that the owner appends, by key.
pub mod State
pub mod Handle
pub mod Query
pub mod Contract
pub mod Rounds
pub mod Log
pub mod Entries
pub mod Refines
pub mod Answers
pub mod Appends
pub mod Previous
pub mod TwapSteps
pub mod Twap
mod Tests
