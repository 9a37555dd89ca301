-- ===== src/Lexer/Parts.antt =====
-- The parts of `getNextToken` that read one kind of token return, and read.
use fyra.Prelude.{
  ℕ, ◌<◌, ◌≤◌, ◌≡◌, refl, arith, ◌⊎◌, inl, inr, Bool, ◌&&◌, some, List, [], ◌∷◌, ◌++◌, Bool-cases,
}
use fyra.Lexer.Stream.{Lexer, is, advance, byte_of}
use fyra.Lexer.Tokens.{
  TokenType, Token, is_digit, is_xdigit, bytes, same_bytes, is_keyword, eof, identifier, number,
  float_literal, align, extern,
}
use fyra.Lexer.Scan.{read_while}
use fyra.Lexer.Next.{
  Lexed, token, finish, last_is, lex_float, in_float, classify, in_word, lex_word, is_binary, is_b,
  is_x, lex_number,
}
use fyra.Lexer.Progress.{held, left, left-advance, read_while-some}

-- There is a token; unless it is the end, fewer than `n` characters are left.
pub record Lexes (n : ℕ) (lexed : Lexed) : Type 0 where
  pub next : Token
  pub after : Lexer
  pub returns : lexed ≡ some (next, after)
  pub reads : (next.kind ≡ eof) ⊎ (left after < n)

-- With the last character in hand, and fuel for what is left.
abbrev pub Total : (ℕ → Lexer → Lexed) → Type 0
Total lex =
    (fuel : ℕ) (lexer : Lexer)
    → left lexer < fuel
    → held lexer.last_char ≡ 1
    → Lexes (left lexer) (lex fuel lexer)

pub Lexes-token :
    (n : ℕ) (kind : TokenType) (text : List ℕ) (lexer : Lexer)
    → left lexer < n
    → Lexes n (token kind text lexer)
Lexes-token n kind text lexer less = record {
  next = _;
  after = lexer;
  returns = refl;
  reads = inr less;
}

pub Lexes-read_while :
    (n fuel : ℕ) (kind : TokenType) (passes : ℕ → Bool) (text : List ℕ) (lexer : Lexer)
    → left lexer < n
    → n ≤ fuel
    → Lexes n (finish kind (read_while fuel passes text lexer))
Lexes-read_while n fuel kind passes text lexer less enough =
    let (word, (after, (e, rest))) =
      read_while-some fuel passes text lexer (omega (arith, less, enough)) in
    rw e (Lexes-token n kind word after (omega (arith, less, rest)))

pub lex_float-Lexes :
    (fuel : ℕ) (prefix : List ℕ) (lexer : Lexer)
    → left lexer < fuel
    → held lexer.last_char ≡ 1
    → Lexes (left lexer) (lex_float fuel prefix lexer)
unfolding lex_float
lex_float-Lexes fuel prefix lexer enough one =
    let a = left-advance lexer in
    let underscore = advance lexer in
    let b = left-advance underscore in
    let first = advance underscore in
    let c = left-advance first in
    let text = prefix ++ (byte_of underscore.last_char ∷ []) in
    elim (Bool-cases (last_is b'-' first)) [
      | inl minus ↦ rw minus (
          Lexes-read_while (left lexer) fuel float_literal in_float
            (text ++ (byte_of first.last_char ∷ [])) (advance first) (omega (arith, a, b, c, one))
            (omega (arith, enough)))
      | inr plain ↦ rw plain (
          Lexes-read_while (left lexer) fuel float_literal in_float text first
            (omega (arith, a, b, one)) (omega (arith, enough)))
    ]

Lexes-classify :
    (n : ℕ) (word : List ℕ) (lexer : Lexer)
    → left lexer < n
    → Lexes n (classify (some (word, lexer)))
Lexes-classify n word lexer less = elim (Bool-cases (same_bytes word (bytes "align"))) [
  | inl e ↦ rw e (Lexes-token n align word lexer less)
  | inr f ↦ elim (Bool-cases (same_bytes word (bytes "extern"))) [
    | inl e ↦ rw (f, e) (Lexes-token n extern word lexer less)
    | inr g ↦ elim (Bool-cases (is_keyword word)) [
      | inl e ↦ rw (f, g, e) (record { next = _; after = lexer; returns = refl; reads = inr less })
      | inr h ↦ rw (f, g, h) (Lexes-token n identifier word lexer less)
    ]
  ]
]

pub lex_word-Total : Total lex_word
unfolding lex_word
lex_word-Total fuel lexer enough one =
    let a = left-advance lexer in
    let (word, (after, (e, rest))) =
      read_while-some fuel in_word (byte_of lexer.last_char ∷ []) (advance lexer)
        (omega (arith, a, enough)) in
    rw e (Lexes-classify (left lexer) word after (omega (arith, a, one, rest)))

pub lex_number-Total : Total lex_number
unfolding lex_number
lex_number-Total fuel lexer enough one =
    let a = left-advance lexer in
    let next = advance lexer in
    let b = left-advance next in
    let text = byte_of lexer.last_char ∷ [] in
    let longer = text ++ (byte_of next.last_char ∷ []) in
    let zero_first = same_bytes text (b'0' ∷ []) in
    elim (Bool-cases (zero_first && is is_b next.last_char)) [
      | inl e ↦ rw e (
          Lexes-read_while (left lexer) fuel number is_binary longer (advance next)
            (omega (arith, a, b, one)) (omega (arith, enough)))
      | inr f ↦ elim (Bool-cases (zero_first && is is_x next.last_char)) [
        | inl e ↦
            rw (f, e)
              (Lexes-read_while (left lexer) fuel number is_xdigit longer (advance next)
                (omega (arith, a, b, one)) (omega (arith, enough)))
        | inr g ↦
            rw (f, g)
              (Lexes-read_while (left lexer) fuel number is_digit text next (omega (arith, a, one))
                (omega (arith, enough)))
      ]
    ]
