-- ===== src/Types.antt =====
-- include/Types.hpp: the identifiers, enumerations and plain structs that the other parts share.
-- OrderId, ParticipantId, Quantity, Timestamp and SequenceNumber are uint64_t, InstrumentId and the
-- counters uint32_t (numbers with their bound stated where it matters), Price is int64_t (an integer).
-- A C++ enumeration holds every value of its underlying byte: `raw` stands for those without a name.
pub mod Enums
pub mod Events
pub mod Config
pub mod Results
