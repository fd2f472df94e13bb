-- ===== src/BookSide.antt =====
-- include/BookSide.hpp: one side of a book. Dense is DenseBookSide, Word its words of occupancy bits.
pub mod Word
pub mod Dense
pub mod Market
