-- ===== src/Lexer/Progress.antt =====
-- How much a lexer has before it, and that every step reads.
use fyra.Prelude.{
  ℕ, zero, suc, ◌+◌, ◌<◌, ◌≤◌, ◌≡◌, refl, ap, arith, inl, inr, Bool, true, false, Option, none,
  some, List, [], ◌∷◌, ◌++◌, Bool-cases, length,
}
use fyra.Lexer.Stream.{Stream, get, peek, Lexer, is, get_char, advance, byte_of}
use fyra.Lexer.Tokens.{is_space}
use fyra.Lexer.Scan.{
  in_comment, in_string, is_backslash, unescape, skip_space, skip_comment, read_while, read_string,
  is_eof,
}
use fyra.Lexer.Next.{peek_char, put_back}

abbrev pub held : Option ℕ → ℕ
held none = 0
held (some c) = 1

-- The characters that are not yet in a token: the last one, and those of the stream.
abbrev pub left : Lexer → ℕ
left lexer = held lexer.last_char + length lexer.input.rest

pub held-is : (p : ℕ → Bool) (c : Option ℕ) → is p c ≡ true → held c ≡ 1
held-is p none h = absurd (cc)
held-is p (some c) h = refl

pub held-is_eof : (c : Option ℕ) → is_eof c ≡ false → held c ≡ 1
held-is_eof none h = absurd (cc)
held-is_eof (some c) h = refl

abbrev stream : List ℕ → Bool → Bool → Stream
stream rest eof fail = record { rest = rest; eof = eof; fail = fail }

length-get_parts :
    (rest : List ℕ) (eof fail : Bool)
    → held (get (stream rest eof fail)).0 + length (get (stream rest eof fail)).1.rest ≤ length rest
length-get_parts rest true fail = omega arith
length-get_parts rest false true = omega arith
length-get_parts [] false false = omega arith
length-get_parts (c ∷ rest) false false = omega arith

-- A character that is read leaves the stream.
length-get : (s : Stream) → held (get s).0 + length (get s).1.rest ≤ length s.rest
length-get s = length-get_parts s.rest s.eof s.fail

pub left-advance : (lexer : Lexer) → left (advance lexer) + held lexer.last_char ≤ left lexer
unfolding advance
left-advance lexer = omega (arith, length-get lexer.input)

length-peek_parts : (rest : List ℕ) (eof fail : Bool) → (peek (stream rest eof fail)).1.rest ≡ rest
length-peek_parts rest true fail = refl
length-peek_parts rest false true = refl
length-peek_parts [] false false = refl
length-peek_parts (c ∷ rest) false false = refl

pub left-peek_char : (lexer : Lexer) → left (peek_char lexer).1 ≡ left lexer
left-peek_char lexer =
    let same = length-peek_parts lexer.input.rest lexer.input.eof lexer.input.fail in
    ap (λ rest. held lexer.last_char + length rest) same

pub left-get_char :
    (lexer : Lexer) → left (peek_char (get_char (get_char lexer).1).1).1 ≤ left lexer
left-get_char lexer =
    let one = (get_char lexer).1 in
    let two = (get_char one).1 in
    omega (arith, length-get lexer.input, length-get one.input, left-peek_char two)

-- Of a stream that is read, and read and looked at, two characters are put back or none.
put_back_parts :
    (lexer : Lexer) (rest : List ℕ) (eof fail : Bool)
    → let start : Lexer = record lexer { input = stream rest eof fail } in
      let one = get_char start in
      let two = get_char one.1 in
      (left (put_back one.0 (put_back two.0 two.1)) ≤ left start)
      × (left (put_back one.0 (put_back two.0 (peek_char two.1).1)) ≤ left start)
put_back_parts lexer rest true true = (omega arith, omega arith)
put_back_parts lexer rest true false = (omega arith, omega arith)
put_back_parts lexer rest false true = (omega arith, omega arith)
put_back_parts lexer [] false false = (omega arith, omega arith)
put_back_parts lexer (c ∷ []) false false = (omega arith, omega arith)
put_back_parts lexer (c ∷ d ∷ []) false false = (omega arith, omega arith)
put_back_parts lexer (c ∷ d ∷ e ∷ rest) false false = (omega arith, omega arith)

pub left-put_back :
    (lexer : Lexer)
    → let one = get_char lexer in
      let two = get_char one.1 in
      (left (put_back one.0 (put_back two.0 two.1)) ≤ left lexer)
      × (left (put_back one.0 (put_back two.0 (peek_char two.1).1)) ≤ left lexer)
left-put_back lexer = put_back_parts lexer lexer.input.rest lexer.input.eof lexer.input.fail

-- The loops end, and what is left after them is not more.
pub skip_space-some :
    (fuel : ℕ) (lexer : Lexer)
    → left lexer < fuel
    → (after : Lexer) × ((skip_space fuel lexer ≡ some after) × (left after ≤ left lexer))
unfolding skip_space
skip_space-some zero lexer enough = absurd (omega (arith, enough))
skip_space-some (suc fuel) lexer enough = elim (Bool-cases (is is_space lexer.last_char)) [
  | inr stop ↦ (lexer, (rw stop refl, omega arith))
  | inl on ↦
      let one = held-is is_space lexer.last_char on in
      let read = left-advance lexer in
      let (after, (e, less)) =
        skip_space-some fuel (advance lexer) (omega (arith, one, read, enough)) in
      (after, (rw on e, omega (arith, less, read)))
]

pub read_while-some :
    (fuel : ℕ) (passes : ℕ → Bool) (text : List ℕ) (lexer : Lexer)
    → left lexer < fuel
    → (word : List ℕ) × ((after : Lexer) × ((read_while fuel passes text lexer ≡ some (word, after))
          × (left after ≤ left lexer)))
unfolding read_while
read_while-some zero passes text lexer enough = absurd (omega (arith, enough))
read_while-some (suc fuel) passes text lexer enough =
    elim (Bool-cases (is passes lexer.last_char)) [
      | inr stop ↦ (text, (lexer, (rw stop refl, omega arith)))
      | inl on ↦
          let one = held-is passes lexer.last_char on in
          let read = left-advance lexer in
          let (word, (after, (e, less))) =
            read_while-some fuel passes (text ++ (byte_of lexer.last_char ∷ [])) (advance lexer)
              (omega (arith, one, read, enough)) in
          (word, (after, (rw on e, omega (arith, less, read))))
    ]

pub skip_comment-some :
    (fuel : ℕ) (lexer : Lexer)
    → left lexer < fuel
    → held lexer.last_char ≡ 1
    → (after : Lexer) × ((skip_comment fuel lexer ≡ some after) × (left after < left lexer))
unfolding skip_comment
skip_comment-some zero lexer enough one = absurd (omega (arith, enough))
skip_comment-some (suc fuel) lexer enough one =
    let next = advance lexer in
    let read = left-advance lexer in
    elim (Bool-cases (is in_comment next.last_char)) [
      | inr stop ↦ (next, (rw stop refl, omega (arith, read, one)))
      | inl on ↦
          let (after, (e, less)) =
            skip_comment-some fuel next (omega (arith, one, read, enough))
              (held-is in_comment next.last_char on) in
          (after, (rw on e, omega (arith, less, read)))
    ]

pub read_string-some :
    (fuel : ℕ) (text : List ℕ) (lexer : Lexer)
    → left lexer < fuel
    → (word : List ℕ) × ((after : Lexer) × ((read_string fuel text lexer ≡ some (word, after))
          × (left after ≤ left lexer)))
unfolding read_string
read_string-some zero text lexer enough = absurd (omega (arith, enough))
read_string-some (suc fuel) text lexer enough = elim (Bool-cases (is in_string lexer.last_char)) [
  | inr stop ↦ (text, (lexer, (rw stop refl, omega arith)))
  | inl on ↦
      let one = held-is in_string lexer.last_char on in
      let read = left-advance lexer in
      let next = advance lexer in
      elim (Bool-cases (is is_backslash lexer.last_char)) [
        | inr plain ↦
            let (word, (after, (e, less))) =
              read_string-some fuel (text ++ (byte_of lexer.last_char ∷ [])) next
                (omega (arith, one, read, enough)) in
            (word, (after, (rw (on, plain) e, omega (arith, less, read))))
        | inl escape ↦ elim (Bool-cases (is_eof next.last_char)) [
          | inl end ↦ (text, (next, (rw (on, escape, end) refl, omega (arith, read))))
          | inr more ↦
              let read_more = left-advance next in
              let (word, (after, (e, less))) =
                read_string-some fuel (text ++ (unescape (byte_of next.last_char) ∷ []))
                  (advance next) (omega (arith, one, read, read_more, enough)) in
              (word, (after, (rw (on, escape, more) e, omega (arith, less, read, read_more))))
        ]
      ]
]
