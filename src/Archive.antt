-- ===== src/Archive.antt =====
-- include/target/artifact/archive/ArchiveReader.h and src/target/artifact/archive/ArchiveReader.cpp:
-- the members of an archive of object files.
mod Decimal
mod Reader
pub mod Digits
pub mod Entries
pub mod Laid
unfoldable pub use Decimal.*
unfoldable pub use Reader.*
