-- ===== src/Archive/Reader.antt =====
-- ArchiveReader::parse. The artifact that an object reader makes of a member's bytes is not modelled.
use Prim.Native.String.{String}
use fyra.Prelude.{
  ℕ, zero, suc, ◌+◌, ◌%◌, Bool, not, ◌&&◌, ◌||◌, Option, none, some, List, [], ◌∷◌, ◌++◌, ◌==◌, leb,
  ltb, length, take, drop, get_elem?, if◌then◌else◌,
}
use fyra.Lexer.{bytes, same_bytes}
use fyra.Archive.Decimal.{from_chars, parse_decimal}

-- `ArchiveObjectMember`, its name as bytes
pub record Member : Type 0 where
  pub name : List ℕ
  pub content : List ℕ

-- `outMembers` also stands where the reader fails. `outside` is a read outside the vector, which is
-- undefined in the source.
pub data ParseResult : Type 0 where
  parsed : List Member → ParseResult
  invalid_magic : ParseResult
  exceeds_file : List Member → ParseResult
  outside : ParseResult
  out_of_fuel : ParseResult

pub record Reading : Type 0 where
  pub offset : ℕ
  pub long_names : List ℕ
  pub members : List Member

-- The bytes of a range; `none` where it leaves the vector.
abbrev pub slice : List ℕ → ℕ → ℕ → Option (List ℕ)
slice file from size =
    if leb (from + size) (length file) then some (take size (drop from file)) else none

abbrev pub byte_or_zero : Option ℕ → ℕ
byte_or_zero none = 0
byte_or_zero (some b) = b

abbrev pub byte_at : List ℕ → ℕ → ℕ
byte_at file i = byte_or_zero (get_elem? file i)

abbrev pub has_magic : List ℕ → Bool
has_magic header = byte_at header 58 == 0x60 && byte_at header 59 == 0x0A

abbrev pub starts_with : List ℕ → String → Bool
starts_with name prefix = same_bytes (take (length (bytes prefix)) name) (bytes prefix)

abbrev pub is_long_names : List ℕ → Bool
is_long_names name = starts_with name "//              " || starts_with name "// "

abbrev pub is_symbol_table : List ℕ → Bool
is_symbol_table name = starts_with name "/               " || starts_with name "__.SYMDEF"

-- The text before the first character that passes.
abbrev pub before : (ℕ → Bool) → List ℕ → List ℕ
before stops [] = []
before stops (c ∷ cs) = let rest = before stops cs in if stops c then [] else c ∷ rest

abbrev pub at_table : List ℕ → List ℕ → Option ℕ → List ℕ
at_table name table none = name
at_table name table (some from) =
    if ltb from (length table)
    then before (λ c. c == b'/' || c == b'\n') (drop from table)
    else name

-- `/` and a number stand for a name in the table, where there is one.
abbrev pub long_name : List ℕ → List ℕ → List ℕ
long_name [] table = []
long_name (c ∷ cs) table =
    if c == b'/' && not (length table == 0) then at_table (c ∷ cs) table (from_chars cs) else c ∷ cs

abbrev pub last_slash : ℕ → List ℕ → List ℕ
last_slash c [] = if c == b'/' then [] else c ∷ []
last_slash c (d ∷ ds) = c ∷ last_slash d ds

abbrev pub without_slash : List ℕ → List ℕ
without_slash [] = []
without_slash (c ∷ cs) = last_slash c cs

abbrev pub member_name : List ℕ → List ℕ → List ℕ
member_name name table = without_slash (long_name (before (λ c. c == b' ') name) table)

abbrev pub next_offset : ℕ → ℕ → ℕ
next_offset payload size = payload + size + size % 2

abbrev pub keep_names : ℕ → Reading → Option (List ℕ) → Option Reading
keep_names next r none = none
keep_names next r (some table) = some (record r { offset = next; long_names = table })

abbrev pub keep_object : ℕ → List ℕ → Reading → Option (List ℕ) → Option Reading
keep_object next name r none = none
keep_object next name r (some content) =
    let member : Member = record { name = member_name name r.long_names; content = content } in
    some (record r { offset = next; members = r.members ++ (member ∷ []) })

-- The table of long names, a table of symbols or an object.
unfoldable pub read_member : List ℕ → List ℕ → ℕ → Reading → Option Reading
read_member file name size r =
    let payload = r.offset + 60 in
    let next = next_offset payload size in
    if is_long_names name
    then keep_names next r (slice file payload size)
    else if is_symbol_table name
    then some (record r { offset = next })
    else keep_object next name r (slice file payload size)

abbrev pub go_on : (Reading → ParseResult) → Option Reading → ParseResult
go_on rest none = outside
go_on rest (some r) = rest r

-- The body of the loop, where there is room for a header.
unfoldable pub read_header :
    (Reading → ParseResult) → List ℕ → Reading → Option (List ℕ) → ParseResult
unfolding parse_decimal read_member
read_header rest file r none = outside
read_header rest file r (some header) =
    let name = take 16 header in
    let size = parse_decimal (take 10 (drop 48 header)) in
    if has_magic header
    then if leb (r.offset + 60 + size) (length file)
      then go_on rest (read_member file name size r)
      else exceeds_file r.members
    else parsed r.members

unfoldable pub read_members : ℕ → List ℕ → Reading → ParseResult
unfolding read_header
read_members zero file r = out_of_fuel
read_members (suc fuel) file r =
    if leb (r.offset + 60) (length file)
    then read_header (read_members fuel file) file r (slice file r.offset 60)
    else parsed r.members

unfoldable pub parse : List ℕ → ParseResult
unfolding read_members
parse file =
    if starts_with file "!<arch>\n"
    then read_members (suc (length file)) file
        (record { offset = 8; long_names = []; members = [] })
    else invalid_magic
