-- ===== src/Lib.antt =====
-- Eigen-Book: a fixed-capacity limit order book.
--
-- The book is a stack of parts, each with its own state. A price level (include/PriceLevel.hpp) is an
-- intrusive queue of orders (include/Order.hpp), which live in the slots of a memory pool
-- (include/MemoryPool.hpp). A side of the book (include/BookSide.hpp) has a level for every price, a bit
-- for every level that holds orders, and the index of the best one. A hash table
-- (include/OrderIdMap.hpp) leads from an order's id to its slot. What an operation does to the book it
-- reports in two rings of fixed capacity: the event log (include/EventLog.hpp) and the market-data log
-- (include/MarketData.hpp), whose events a consumer checks with a gap detector. Commands come in and go
-- to disk in a wire format of 39 bytes (include/Command.hpp). The book (include/OrderBook.hpp) owns two
-- sides, the pool, the id map and the two logs; each of its operations first reserves room in the logs for
-- all that it may report, and only then changes anything. The engine (include/MatchingEngine.hpp) owns a
-- book for every instrument and leads a command to the one it names.
--
-- Files. Types models include/Types.hpp; EventLog, MarketData, MemoryPool, Order, PriceLevel, OrderIdMap,
-- BookSide, OrderBook, MatchingEngine and Command the headers of those names, Wire the two byte cursors of
-- Command.hpp. A C++ method is the function of its name in snake_case, with the object as its first argument and the new
-- object in its result. Ring holds what the two logs share, Prelude the library names, lists over the
-- native numbers, words, bits and integers. Runs holds tests and the theorems at concrete states.
--
-- OrderIdMap: Hash has the hash and the capacities, Lookup the searches, Erase the erases and Erase/Token
-- the tokens. BookSide: Word has the occupancy words as their bits, Dense the class DenseBookSide:
-- Orders its updates, Liquidity and Preflight its dry runs (Available, Walk and Agree say what they find),
-- Search, Best and Marks the best index, and Queues the view of a side as a queue of orders at every price
-- (Settle, Change, Reduce), which rests on the queues of PriceLevel (Fifo, Segment, Append, Remove,
-- Quantity, Frame). Match has match_without_venue and Match/Venue the match of a venue, over the pool, the
-- id map and the logs; Fills, Step and Level are about one level, Trading and Levels about the
-- levels in their order, Priority, Outcome and Predicted about the whole. Market has what the market-data
-- log is told.
--
-- OrderBook: Capacity has the counts of events, Add, Cancel, Modify, Replace and Market the operations,
-- Queries what the book tells of itself, Checksum the hash of its state, and Restore what a snapshot's
-- restore does to it; Bounds, Refused, Cancelled, Queued, Fok and Modified say what they do. A book of the
-- model has dense sides.
--
-- MatchingEngine: the table from ids to instruments and the routing of a command to a book; Setup the
-- construction and insert_instrument, Dispatch the dispatch and its counters, Queries what the engine tells
-- of its books. Lookup and Registered say that a registered instrument is found, Routed what a command
-- leaves alone, Tallied how rejects are counted. A probe has as many steps as the table has slots.
--
-- Machine words are numbers with their bounds as hypotheses where they matter, and the wrap of an addition
-- or a multiplication is written out; a price is an integer. An enumeration has a further constructor for
-- the byte values without a name. Pointers to orders are indices into the memory, pointers to levels are
-- addresses.
--
-- Loops are structural recursions. Where the C++ loop has no counter of its own there is a number of
-- steps: the backward shift of an erase in the id map has as many as the table has slots, and the
-- theorems about it do not say that it ends sooner; a walk over the levels of a side has as many as there
-- are levels, which is enough (BookSide/Dense/Liquidity/Walk); a walk over a level's orders has its order
-- count. A match has as many rounds on a level as it has orders and as many levels as there are, which is
-- enough (BookSide/Dense/Match/Level and Levels).
--
-- Not modelled: the statistics in floating point, the Python bindings and package, the fuzzers,
-- benchmarks, examples and tests; and so far the sparse side of include/BookSide.hpp, the journal and the
-- snapshots.
pub mod Prelude
pub mod Types
pub mod Ring
pub mod EventLog
pub mod MarketData
pub mod MemoryPool
pub mod Order
pub mod PriceLevel
pub mod Wire
pub mod Command
pub mod OrderIdMap
pub mod OrderBook
pub mod BookSide
pub mod MatchingEngine
mod Runs
