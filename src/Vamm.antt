-- ===== src/Vamm.antt =====
-- contracts/margined_vamm: the virtual market maker.
pub mod State
pub mod Decimals
pub mod Handle
pub mod Query
pub mod Contract
pub mod Price
pub mod Reserves
pub mod Swap
pub mod Exact
pub mod Removing
pub mod RoundTrip
pub mod Limits
pub mod Fees
pub mod Snapshots
pub mod History
pub mod TwapSteps
pub mod Twap
pub mod ShortTwap
pub mod Configuration
pub mod Ownership
pub mod Invariant
pub mod Market
mod PriceTests
mod Tests
