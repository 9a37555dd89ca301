-- ===== src/Linker/Entry.antt =====
-- InternalLinker::link, the entry point: a `_start` stub behind the text where the program has a
-- `main` and no `_start`, and the entry address.
pub mod Stub
use Prim.Native.Nat.{bit_and, bit_or}
use fyra.Prelude.{
  ℕ, ◌+◌, ◌*◌, ◌/◌, ◌%◌, ◌^◌, String, Bool, true, false, ◌&&◌, ◌||◌, not, Option, none, some, List,
  [], ◌∷◌, ◌++◌, length, take, drop, if◌then◌else◌,
}
use fyra.Prelude.Texts.{lookup, insert}
use fyra.Word.{add64, sub64, low32, div4, sar64}
use fyra.Bytes.{le_bytes}
use fyra.Target.{Arch, Os, x64, aarch64, riscv64, loongarch64, linux, baremetal, same_arch, same_os}
use fyra.Relocation.{jal_immediate}
use fyra.Linker.Image.{
  LinkedImage, LinkedSection, LinkedSymbol, LinkOutputKind, executable, shared_library,
  find_section, find_symbol,
}
use fyra.Linker.Symbols.{holds_any}

-- memcpy of a word into the stub, whose length is fixed
abbrev pub put_word : List ℕ → ℕ → ℕ → List ℕ
put_word bytes offset value = take offset bytes ++ (le_bytes 4 value ++ drop (offset + 4) bytes)

abbrev x64_stub : List ℕ
x64_stub =
    0x31 ∷ 0xED ∷ 0x48 ∷ 0x8B ∷ 0x3C ∷ 0x24 ∷ 0x48 ∷ 0x8D ∷ 0x74 ∷ 0x24 ∷ 0x08 ∷ 0x48 ∷ 0x83 ∷ 0xE4
    ∷ 0xF0 ∷ 0xE8 ∷ 0x00 ∷ 0x00 ∷ 0x00 ∷ 0x00 ∷ 0x48 ∷ 0x89 ∷ 0xC7 ∷ 0xB8 ∷ 0x3C ∷ 0x00 ∷ 0x00
    ∷ 0x00 ∷ 0x0F ∷ 0x05 ∷ []

abbrev aarch64_stub : List ℕ
aarch64_stub =
    0x9F ∷ 0x00 ∷ 0x00 ∷ 0x10 ∷ 0x91 ∷ 0x04 ∷ 0x01 ∷ 0x38 ∷ 0x9F ∷ 0x00 ∷ 0x00 ∷ 0x13 ∷ 0x00 ∷ 0x00
    ∷ 0x00 ∷ 0x94 ∷ 0xD0 ∷ 0x01 ∷ 0x00 ∷ 0xD2 ∷ 0xAA ∷ 0x00 ∷ 0x00 ∷ 0x1E ∷ 0x00 ∷ 0x00 ∷ 0x00
    ∷ 0xD4 ∷ []

abbrev riscv64_stub : List ℕ
riscv64_stub =
    0x85 ∷ 0x13 ∷ 0x02 ∷ 0x10 ∷ 0x85 ∷ 0x93 ∷ 0x41 ∷ 0x10 ∷ 0x1F ∷ 0x13 ∷ 0xF0 ∷ 0xFE ∷ 0x6F ∷ 0x00
    ∷ 0x00 ∷ 0x00 ∷ 0x93 ∷ 0x08 ∷ 0xD0 ∷ 0x05 ∷ 0x85 ∷ 0x13 ∷ 0x05 ∷ 0x00 ∷ 0x73 ∷ 0x00 ∷ 0x00
    ∷ 0x00 ∷ []

abbrev loongarch64_stub : List ℕ
loongarch64_stub =
    0x00 ∷ 0x00 ∷ 0x00 ∷ 0x01 ∷ 0x0C ∷ 0x40 ∷ 0x02 ∷ 0x02 ∷ 0x00 ∷ 0x00 ∷ 0xF0 ∷ 0x03 ∷ 0x00 ∷ 0x00
    ∷ 0x00 ∷ 0x48 ∷ 0x5C ∷ 0x00 ∷ 0x00 ∷ 0x14 ∷ 0x00 ∷ 0x00 ∷ 0x00 ∷ 0x00 ∷ []

-- The stub at an address, with the call of `main` filled in; empty on other architectures.
unfoldable pub start_bytes : Arch → ℕ → ℕ → List ℕ
unfolding le_bytes jal_immediate
start_bytes arch main_addr start_vma =
    let offset = sub64 main_addr (add64 start_vma 12) in
    if same_arch arch x64
    then put_word x64_stub 16 (low32 (sub64 main_addr (add64 start_vma 20)))
    else if same_arch arch aarch64
    then put_word aarch64_stub 12 (bit_or 0x94000000 (bit_and (low32 (div4 offset)) 0x03FFFFFF))
    else if same_arch arch riscv64
    then put_word riscv64_stub 12 (bit_or 0x0000006F (jal_immediate (low32 offset)))
    else if same_arch arch loongarch64
    then put_word loongarch64_stub 12
        (bit_or 0x48000000 (bit_and (low32 (sar64 offset 2)) 0x03FFFFFF))
    else []

abbrev pub is_executable_kind : LinkOutputKind → Bool
is_executable_kind executable = true
is_executable_kind shared_library = false

abbrev pub has_bytes : List ℕ → Bool
has_bytes [] = false
has_bytes (b ∷ bs) = true

-- The address of `main`, or of `$main`.
unfoldable pub main_symbol : LinkedImage → Option LinkedSymbol
main_symbol image =
    if holds_any (find_symbol image "main")
    then find_symbol image "main"
    else find_symbol image "$main"

abbrev pub wants_stub : LinkedImage → Bool
wants_stub image =
    is_executable_kind image.output_kind
    && ((same_os image.os linux || same_os image.os baremetal)
        && not (holds_any (find_symbol image "_start")))

-- The text with bytes behind it, and a symbol at their address.
unfoldable pub append_to_text : LinkedImage → LinkedSection → List ℕ → LinkedSymbol → LinkedImage
append_to_text image text bytes sym = record image {
  sections =
      insert ".text"
        (record text {
          bytes = text.bytes ++ bytes;
          virtual_size = length text.bytes + length bytes;
        })
        image.sections;
  symbols = insert sym.name sym image.symbols;
}

unfoldable pub add_stub : LinkedImage → LinkedSymbol → LinkedSection → LinkedImage
unfolding start_bytes append_to_text
add_stub image main text =
    let start_vma = add64 text.virtual_address (length text.bytes) in
    let bytes = start_bytes image.arch main.virtual_address start_vma in
    if has_bytes bytes
    then append_to_text image text bytes (record {
      name = "_start";
      virtual_address = start_vma;
      size = length bytes;
      is_function = true;
      is_global = true;
      section_name = ".text";
    })
    else image

unfoldable pub add_start : LinkedImage → LinkedImage
unfolding add_stub main_symbol
add_start image =
    if wants_stub image
    then (elim (main_symbol image) [
      | none ↦ image
      | some main ↦ elim (find_section image ".text") [
        | none ↦ image
        | some text ↦ add_stub image main text
      ]
    ])
    else image

-- The default entry name is "main", at address 0.
unfoldable pub set_entry : LinkedImage → LinkedImage
set_entry image = elim (find_symbol image "_start") [
  | some start ↦ record image {
    entry_address = start.virtual_address;
    entry_symbol_name = "_start";
  }
  | none ↦ elim (find_symbol image "main") [
    | some main ↦ record image { entry_address = main.virtual_address; entry_symbol_name = "main" }
    | none ↦ image
  ]
]
