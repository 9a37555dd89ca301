-- ===== src/Archive/Entries.antt =====
-- The entries of an archive, as the file format has them.
use fyra.Prelude.{
  All, ℕ, ◌+◌, ◌%◌, ◌<◌, ◌≤◌, ◌≡◌, true, false, some, List, [], ◌∷◌, ◌++◌, take, drop, length,
  get_elem?,
}
use fyra.Archive.Decimal.{parse_decimal}
use fyra.Archive.Digits.{number, IsDigit}
use fyra.Archive.Reader.{
  Member, ParseResult, parsed, invalid_magic, exceeds_file, outside, out_of_fuel, Reading,
  starts_with, is_long_names, is_symbol_table, member_name,
}

-- The 60 bytes at the offset are in the file and are a header: they end with the two magic bytes.
pub record IsHeader (file : List ℕ) (offset : ℕ) (header : List ℕ) : Type 0 where
  pub room : offset + 60 ≤ length file
  pub stands : header ≡ take 60 (drop offset file)
  pub magic_first : get_elem? header 58 ≡ some 0x60
  pub magic_second : get_elem? header 59 ≡ some 0x0A

-- A field of digits and blanks behind them says the number that the digits write.
abbrev pub Says : List ℕ → ℕ → Type 0
Says field n =
    (c : ℕ) (digits blanks : List ℕ)
    → field ≡ c ∷ (digits ++ blanks)
    → IsDigit c
    → All IsDigit digits
    → All (λ b. b ≡ 32) blanks
    → n ≡ number 0 (c ∷ digits)

-- The size of an entry, from the field of its header.
pub record IsSize (header : List ℕ) (size : ℕ) : Type 0 where
  pub parsed_field : size ≡ parse_decimal (take 10 (drop 48 header))
  pub says : Says (take 10 (drop 48 header)) size

-- A header, and as many bytes behind it in the file as its size field says.
pub record IsEntry (file : List ℕ) (offset : ℕ) (name : List ℕ) (size : ℕ) (content : List ℕ)
    : Type 0 where
  pub header : List ℕ
  pub is_header : IsHeader file offset header
  pub name_field : name ≡ take 16 header
  pub size_field : IsSize header size
  pub inside : offset + 60 + size ≤ length file
  pub bytes : content ≡ take size (drop (offset + 60) file)

-- The entries of a file from an offset to another, one behind the other, each after an odd number of
-- bytes with one byte between; the members are those of the objects, in their order, and a table of
-- long names holds for the entries behind it.
pub data Laid (file : List ℕ) : ℕ → List ℕ → List Member → ℕ → Type 0 where
  no_entry : (offset : ℕ) (table : List ℕ) → Laid file offset table [] offset
  names :
      {offset size : ℕ} {table name content : List ℕ} {ms : List Member} {high : ℕ}
      → IsEntry file offset name size content
      → is_long_names name ≡ true
      → Laid file (offset + 60 + size + size % 2) content ms high
      → Laid file offset table ms high
  symbols :
      {offset size : ℕ} {table name content : List ℕ} {ms : List Member} {high : ℕ}
      → IsEntry file offset name size content
      → is_long_names name ≡ false
      → is_symbol_table name ≡ true
      → Laid file (offset + 60 + size + size % 2) table ms high
      → Laid file offset table ms high
  object :
      {offset size : ℕ} {table name content : List ℕ} {ms : List Member} {high : ℕ} (m : Member)
      → IsEntry file offset name size content
      → is_long_names name ≡ false
      → is_symbol_table name ≡ false
      → m.name ≡ member_name name table
      → m.content ≡ content
      → Laid file (offset + 60 + size + size % 2) table ms high
      → Laid file offset table (m ∷ ms) high

-- No header stands at the offset.
abbrev pub Ends : List ℕ → ℕ → Type 0
Ends file offset = (header : List ℕ) → ¬ (IsHeader file offset header)

-- A header stands at the offset, and its size field says more than the file has behind it.
abbrev pub Exceeds : List ℕ → ℕ → Type 0
Exceeds file offset =
    (header : List ℕ) × (size : ℕ) × IsHeader file offset header
    × IsSize header size
    × (length file < offset + 60 + size)

-- What the loop returns: the members so far, and those of the entries from the offset on.
abbrev pub Reads : (ℕ → Type 0) → List ℕ → Reading → List Member → Type 0
Reads stops file r all =
    (ms : List Member) × (high : ℕ) × (all ≡ r.members ++ ms)
    × Laid file r.offset r.long_names ms high
    × stops high

abbrev pub Whole : List ℕ → Reading → ParseResult → Type 0
Whole file r (parsed all) = Reads (Ends file) file r all
Whole file r invalid_magic = starts_with file "!<arch>\n" ≡ false
Whole file r (exceeds_file all) = Reads (Exceeds file) file r all
Whole file r outside = ⊥
Whole file r out_of_fuel = ⊥
