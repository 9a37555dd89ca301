-- ===== src/Wasm.antt =====
-- include/target/architecture/wasm32/WasmBinary.h: the variable-length numbers of WebAssembly modules.
pub mod Leb128
pub mod RoundTrip
