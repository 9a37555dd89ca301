-- ===== src/Bytes.antt =====
-- Byte arrays: `std::memcpy` of a little-endian value into and out of a `std::vector<uint8_t>`.
-- `none` is an access outside the array, which C++ leaves undefined.
mod Laws
mod Defs
unfoldable pub use Defs.*
pub use Laws.*
