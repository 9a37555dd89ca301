-- ===== src/Lexer/Next.antt =====
-- `getNextToken`, one definition for each kind of token, in the order in which they are tried.
use fyra.Prelude.{
  ℕ, zero, suc, Bool, ◌&&◌, ◌||◌, Option, none, some, List, [], ◌∷◌, ◌++◌, ◌==◌, if◌then◌else◌,
}
use fyra.Lexer.Stream.{peek, putback, Lexer, is, get_char, advance, byte_of}
use fyra.Lexer.Tokens.{
  TokenType, Token, is_digit, is_alpha, is_alnum, is_xdigit, bytes, same_bytes, is_keyword, eof,
  identifier, global, temporary, label, type, keyword, number, float_literal, l_curly, r_curly,
  l_paren, r_paren, comma, equal, colon, plus, ellipsis, string_literal, align, extern, unknown,
}
use fyra.Lexer.Scan.{skip_space, skip_comment, read_while, read_string, is_eof}

-- A token and the lexer after it; `none` means that the fuel ran out.
abbrev pub Lexed : Type 0
Lexed = Option (Token × Lexer)

abbrev pub token : TokenType → List ℕ → Lexer → Lexed
token kind text lexer =
    some (record { kind = kind; value = text; line = lexer.current_line }, lexer)

abbrev pub finish : TokenType → Option (List ℕ × Lexer) → Lexed
finish kind none = none
finish kind (some (text, lexer)) = token kind text lexer

abbrev pub then_lex : (Lexer → Lexed) → Option Lexer → Lexed
then_lex next none = none
then_lex next (some lexer) = next lexer

-- `input.peek()`, and the lexer after it
abbrev pub peek_char : Lexer → Option ℕ × Lexer
peek_char lexer = let (c, s) = peek lexer.input in (c, record lexer { input = s })

abbrev pub last_is : ℕ → Lexer → Bool
last_is c lexer = is (λ x. x == c) lexer.last_char

abbrev pub in_float : ℕ → Bool
in_float c = is_digit c || c == b'.'

-- The text so far, the `_` that was seen, and the literal after it.
unfoldable pub lex_float : ℕ → List ℕ → Lexer → Lexed
unfolding advance read_while
lex_float fuel prefix lexer =
    let underscore = advance lexer in
    let text = prefix ++ (byte_of underscore.last_char ∷ []) in
    let first = advance underscore in
    if last_is b'-' first
    then finish float_literal
        (read_while fuel in_float (text ++ (byte_of first.last_char ∷ [])) (advance first))
    else finish float_literal (read_while fuel in_float text first)

abbrev pub in_word : ℕ → Bool
in_word c = is_alnum c || c == b'_' || c == b'.'

-- A keyword's token is built without a line.
abbrev pub classify : Option (List ℕ × Lexer) → Lexed
classify none = none
classify (some (word, lexer)) =
    if same_bytes word (bytes "align")
    then token align word lexer
    else if same_bytes word (bytes "extern")
    then token extern word lexer
    else if is_keyword word
    then some (record { kind = keyword; value = word; line = 0 }, lexer)
    else token identifier word lexer

unfoldable pub lex_word : ℕ → Lexer → Lexed
unfolding advance read_while is_keyword
lex_word fuel lexer =
    classify (read_while fuel in_word (byte_of lexer.last_char ∷ []) (advance lexer))

abbrev pub is_binary : ℕ → Bool
is_binary c = c == b'0' || c == b'1'

abbrev pub is_b : ℕ → Bool
is_b c = c == b'b' || c == b'B'

abbrev pub is_x : ℕ → Bool
is_x c = c == b'x' || c == b'X'

unfoldable pub lex_number : ℕ → Lexer → Lexed
unfolding advance read_while
lex_number fuel lexer =
    let text = byte_of lexer.last_char ∷ [] in
    let next = advance lexer in
    let longer = text ++ (byte_of next.last_char ∷ []) in
    let zero_first = same_bytes text (b'0' ∷ []) in
    if zero_first && is is_b next.last_char
    then finish number (read_while fuel is_binary longer (advance next))
    else if zero_first && is is_x next.last_char
    then finish number (read_while fuel is_xdigit longer (advance next))
    else finish number (read_while fuel is_digit text next)

abbrev pub single_kind : ℕ → TokenType
single_kind c =
    if c == b'{'
    then l_curly
    else if c == b'}'
    then r_curly
    else if c == b'('
    then l_paren
    else if c == b')'
    then r_paren
    else if c == b','
    then comma
    else if c == b'='
    then equal
    else if c == b':'
    then colon
    else if c == b'+'
    then plus
    else unknown

abbrev pub lex_single : Lexer → Lexed
lex_single lexer = let c = byte_of lexer.last_char in token (single_kind c) (c ∷ []) (advance lexer)

-- Three characters are read for an ellipsis; if they are something else, they are lost.
unfoldable pub lex_punctuation : Lexer → Lexed
unfolding advance
lex_punctuation lexer =
    let second = advance lexer in
    let third = advance second in
    let after = advance third in
    let text = byte_of lexer.last_char ∷ byte_of second.last_char ∷ byte_of third.last_char ∷ [] in
    if last_is b'.' lexer
    then if same_bytes text (bytes "...") then token ellipsis text after else lex_single after
    else lex_single lexer

abbrev pub close : Option (List ℕ × Lexer) → Option (List ℕ × Lexer)
close none = none
close (some (text, lexer)) = some (text, if last_is b'"' lexer then advance lexer else lexer)

unfoldable pub lex_string : ℕ → Lexer → Lexed
unfolding advance read_string
lex_string fuel lexer = finish string_literal (close (read_string fuel [] (advance lexer)))

-- Strings, and the test for the end that `peek` may have brought about.
unfoldable pub lex_rest : ℕ → Lexer → Lexed
unfolding lex_punctuation lex_string
lex_rest fuel lexer =
    if last_is b'"' lexer
    then lex_string fuel lexer
    else if is_eof lexer.last_char || lexer.input.eof
    then token eof [] lexer
    else lex_punctuation lexer

abbrev pub is_sigil : ℕ → Bool
is_sigil c = c == b'$' || c == b'%' || c == b'@' || c == b':'

abbrev pub sigil_kind : Option ℕ → TokenType
sigil_kind c =
    if is (λ x. x == b'$') c
    then global
    else if is (λ x. x == b'%') c
    then temporary
    else if is (λ x. x == b'@') c
    then label
    else type

abbrev pub in_name : ℕ → Bool
in_name c = is_alnum c || c == b'_'

-- The name after a sigil.
unfoldable pub lex_name : ℕ → Lexer → Lexed
unfolding advance read_while
lex_name fuel lexer =
    let first = advance lexer in
    finish (sigil_kind lexer.last_char)
      (read_while fuel in_name (byte_of first.last_char ∷ []) (advance first))

-- The character after the sigil is looked at once, and again if it is not alphanumeric.
unfoldable pub lex_sigil : ℕ → Lexer → Lexed
unfolding lex_name lex_rest
lex_sigil fuel lexer =
    let (c, looked) = peek_char lexer in
    let (d, again) = peek_char looked in
    if is is_sigil lexer.last_char
    then if is is_alnum c
      then lex_name fuel looked
      else if is (λ x. x == b'_') d
      then lex_name fuel again
      else lex_rest fuel again
    else lex_rest fuel lexer

-- A digit, or a minus before a digit; only after a minus is the next character looked at.
unfoldable pub lex_signed : ℕ → Lexer → Lexed
unfolding lex_number lex_sigil
lex_signed fuel lexer =
    let (c, looked) = peek_char lexer in
    if is is_digit lexer.last_char
    then lex_number fuel lexer
    else if last_is b'-' lexer
    then if is is_digit c then lex_number fuel looked else lex_sigil fuel looked
    else lex_sigil fuel lexer

unfoldable pub lex_identifier : ℕ → Lexer → Lexed
unfolding lex_word lex_signed
lex_identifier fuel lexer =
    if is is_alpha lexer.last_char || last_is b'_' lexer
    then lex_word fuel lexer
    else lex_signed fuel lexer

abbrev pub put_back : Option ℕ → Lexer → Lexer
put_back c lexer = record lexer { input = putback (byte_of c) lexer.input }

abbrev pub is_width : Option ℕ → Option ℕ → Bool
is_width c1 c2 =
    (is (λ x. x == b'3') c1 && is (λ x. x == b'2') c2)
    || (is (λ x. x == b'6') c1 && is (λ x. x == b'4') c2)

-- `f32_` and `f64_` start a literal; otherwise the two characters after the `f` are put back.
unfoldable pub lex_f : ℕ → Lexer → Lexed
unfolding lex_float lex_identifier
lex_f fuel lexer =
    let (c1, one) = get_char lexer in
    let (c2, two) = get_char one in
    let (c, looked) = peek_char two in
    if last_is b'f' lexer
    then if is_width c1 c2
      then if is (λ x. x == b'_') c
        then lex_float fuel (b'f' ∷ byte_of c1 ∷ byte_of c2 ∷ []) looked
        else lex_identifier fuel (put_back c1 (put_back c2 looked))
      else lex_identifier fuel (put_back c1 (put_back c2 two))
    else lex_identifier fuel lexer

-- `s_` and `d_` start a literal; only after an `s` or a `d` is the next character looked at.
unfoldable pub lex_short_float : ℕ → Lexer → Lexed
unfolding lex_float lex_f
lex_short_float fuel lexer =
    let (c, looked) = peek_char lexer in
    if last_is b's' lexer || last_is b'd' lexer
    then if is (λ x. x == b'_') c
      then lex_float fuel (byte_of lexer.last_char ∷ []) looked
      else lex_f fuel looked
    else lex_f fuel lexer

unfoldable pub lex_token : ℕ → Lexer → Lexed
unfolding lex_short_float
lex_token fuel lexer =
    if is_eof lexer.last_char then token eof [] lexer else lex_short_float fuel lexer

-- At the end after a comment, the tests go on and see it.
unfoldable pub after_comment : (Lexer → Lexed) → ℕ → Lexer → Lexed
unfolding lex_token
after_comment again fuel lexer =
    if is_eof lexer.last_char then lex_token fuel lexer else again lexer

unfoldable pub after_space : (Lexer → Lexed) → ℕ → Lexer → Lexed
unfolding skip_comment after_comment lex_token
after_space again fuel lexer =
    if last_is b'#' lexer
    then then_lex (after_comment again fuel) (skip_comment fuel lexer)
    else lex_token fuel lexer

unfoldable pub get_next_token : ℕ → Lexer → Lexed
unfolding skip_space after_space
get_next_token zero lexer = none
get_next_token (suc fuel) lexer =
    then_lex (after_space (get_next_token fuel) fuel) (skip_space fuel lexer)
