-- ===== src/Engine.antt =====
-- contracts/margined_engine: the positions of traders, and the swaps that they are opened by.
pub mod State
pub mod Querier
pub mod Utils
pub mod Handle
pub mod Reply
pub mod Query
pub mod Contract
pub mod Closing
pub mod Events
pub mod Positions
pub mod Replies
pub mod Pending
pub mod Orders
pub mod Opening
pub mod Balance
pub mod Access
pub mod Sent
pub mod Asked
pub mod Ordering
pub mod Fixture
mod AccessTests
mod Tests
mod SwapTests
