-- ===== src/Runs.antt =====
-- Tests on concrete states, and the theorems at concrete inputs.
mod EventLog
mod MarketData
mod MemoryPool
pub mod BookSide
mod OrderBook
mod Command
mod OrderIdMap
mod PriceLevel
mod MatchingEngine
