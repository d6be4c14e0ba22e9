-- ===== src/Text.antt =====
-- The members of `std::string` that the sources call: `find`, `substr`, the numeric conversions.
pub mod Find
pub mod Cut
pub mod Chain
pub mod Number
