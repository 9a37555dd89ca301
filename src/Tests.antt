-- ===== src/Tests.antt =====
-- Concrete inputs: an archive member, artifacts and sections on which the theorems are applied.
mod Data
mod Archives
mod Classes
mod Linking
mod Modules
mod Relocations
mod Blocks
mod Lexing
mod Members
mod Registers
