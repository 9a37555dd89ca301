-- ===== src/Lexer/Stream.antt =====
-- `std::istream` as the lexer uses it: what is left to read, `eofbit`, and `failbit` or `badbit`. A
-- character that was just read can be put back.
use fyra.Prelude.{
  ℕ, ◌+◌, ◌%◌, ◌^◌, Bool, true, false, not, ◌&&◌, Option, none, some, List, [], ◌∷◌, ◌==◌,
  if◌then◌else◌,
}

pub record Stream : Type 0 where
  pub rest : List ℕ
  pub eof : Bool
  pub fail : Bool

abbrev pub good : Stream → Bool
good s = not s.eof && not s.fail

abbrev pub pop : List ℕ → Stream → Option ℕ × Stream
pop [] s = (none, record s { eof = true; fail = true })
pop (c ∷ cs) s = (some c, record s { rest = cs })

-- `none` is EOF. A stream that is not good fails.
abbrev pub get : Stream → Option ℕ × Stream
get s = if good s then pop s.rest s else (none, record s { fail = true })

abbrev pub head : List ℕ → Stream → Option ℕ × Stream
head [] s = (none, record s { eof = true })
head (c ∷ cs) s = (some c, s)

abbrev pub peek : Stream → Option ℕ × Stream
peek s = if good s then head s.rest s else (none, record s { fail = true })

-- `putback` clears `eofbit` first.
abbrev pub putback : ℕ → Stream → Stream
putback c s =
    if s.fail then record s { eof = false } else record s { eof = false; rest = c ∷ s.rest }

-- `lastChar` and `currentLine`, an `unsigned`
pub record Lexer : Type 0 where
  pub input : Stream
  pub last_char : Option ℕ
  pub current_line : ℕ

abbrev pub initial : List ℕ → Lexer
initial cs = record {
  input = record { rest = cs; eof = false; fail = false };
  last_char = some b' ';
  current_line = 1;
}

-- A predicate on characters; EOF does not pass.
abbrev pub is : (ℕ → Bool) → Option ℕ → Bool
is p none = false
is p (some c) = p c

abbrev pub next_line : Option ℕ → ℕ → ℕ
next_line c line = if is (λ x. x == b'\n') c then (line + 1) % 2 ^ 32 else line

abbrev pub get_char : Lexer → Option ℕ × Lexer
get_char lexer =
    let (c, s) = get lexer.input in
    (c, record lexer { input = s; current_line = next_line c lexer.current_line })

-- `lastChar = getChar()`
unfoldable pub advance : Lexer → Lexer
advance lexer = let (c, after) = get_char lexer in record after { last_char = c }

-- A conversion to `char`: EOF is -1.
abbrev pub byte_of : Option ℕ → ℕ
byte_of none = 255
byte_of (some c) = c
