-- ===== src/Lexer/Scan.antt =====
-- The loops of `getNextToken`. `none` means that the fuel ran out; each turn reads a character.
use fyra.Prelude.{
  ℕ, zero, suc, Bool, true, false, not, ◌&&◌, Option, none, some, List, [], ◌∷◌, ◌++◌, ◌==◌,
  if◌then◌else◌,
}
use fyra.Lexer.Stream.{Lexer, is, advance, byte_of}
use fyra.Lexer.Tokens.{is_space}

unfoldable pub skip_space : ℕ → Lexer → Option Lexer
unfolding advance
skip_space zero lexer = none
skip_space (suc fuel) lexer =
    let rest = skip_space fuel (advance lexer) in
    if is is_space lexer.last_char then rest else some lexer

abbrev pub in_comment : ℕ → Bool
in_comment c = not (c == b'\n') && not (c == b'\r')

-- `do { ... } while`
unfoldable pub skip_comment : ℕ → Lexer → Option Lexer
unfolding advance
skip_comment zero lexer = none
skip_comment (suc fuel) lexer =
    let rest = skip_comment fuel (advance lexer) in
    if is in_comment (advance lexer).last_char then rest else some (advance lexer)

-- While the last character passes, it is added to the text.
unfoldable pub read_while : ℕ → (ℕ → Bool) → List ℕ → Lexer → Option (List ℕ × Lexer)
unfolding advance
read_while zero passes text lexer = none
read_while (suc fuel) passes text lexer =
    let rest = read_while fuel passes (text ++ (byte_of lexer.last_char ∷ [])) (advance lexer) in
    if is passes lexer.last_char then rest else some (text, lexer)

abbrev pub in_string : ℕ → Bool
in_string c = not (c == b'"')

abbrev pub is_backslash : ℕ → Bool
is_backslash c = c == b'\\'

abbrev pub unescape : ℕ → ℕ
unescape c =
    if c == b'n' then b'\n' else (if c == b't' then b'\t' else (if c == b'r' then b'\r' else c))

abbrev pub is_eof : Option ℕ → Bool
is_eof none = true
is_eof (some c) = false

unfoldable pub read_string : ℕ → List ℕ → Lexer → Option (List ℕ × Lexer)
unfolding advance
read_string zero text lexer = none
read_string (suc fuel) text lexer =
    let plain = read_string fuel (text ++ (byte_of lexer.last_char ∷ [])) (advance lexer) in
    let escaped = advance lexer in
    let rest =
      read_string fuel (text ++ (unescape (byte_of escaped.last_char) ∷ [])) (advance escaped) in
    if is in_string lexer.last_char
    then if is is_backslash lexer.last_char
      then if is_eof escaped.last_char then some (text, escaped) else rest
      else plain
    else some (text, lexer)
