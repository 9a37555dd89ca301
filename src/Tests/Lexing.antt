-- ===== src/Tests/Lexing.antt =====
-- A line of a program.
use fyra.Prelude.{ℕ, ◌≡◌, refl, arith, List, some}
use fyra.Lexer.{initial, bytes, token, sigil_kind, get_next_token}
use fyra.Lexer.Progress.{left}
use fyra.Lexer.Parts.{Lexes}
use fyra.Lexer.Total.{get_next_token-Lexes}
use fyra.Lexer.Names.{ready, get_next_token-name}

abbrev line_text : List ℕ
line_text = bytes "  %x = add %y, 1 # sum"

get_next_token-Lexes_example :
    Lexes (left (initial line_text)) (get_next_token 30 (initial line_text))
get_next_token-Lexes_example = get_next_token-Lexes 30 (initial line_text) (omega arith)

get_next_token-name_example :
    get_next_token 9 (ready b'%' (bytes "x1 = add") 1)
    ≡ token (sigil_kind (some b'%')) (bytes "x1") (ready b' ' (bytes "= add") 1)
get_next_token-name_example =
    get_next_token-name 9 b'%' b'x' (bytes "1") b' ' (bytes "= add") 1 (omega arith) refl refl
      (refl, tt) refl
