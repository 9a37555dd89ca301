-- ===== src/Lexer/Branches.antt =====
-- `getNextToken` returns, and the calls of it come to the end.
use fyra.Prelude.{ℕ, ◌<◌, ◌≤◌, ◌≡◌, refl, arith, inl, inr, ◌||◌, [], ◌∷◌, ◌==◌, Bool-cases}
use fyra.Lexer.Stream.{Lexer, is, get_char, advance, byte_of}
use fyra.Lexer.Tokens.{is_digit, is_alpha, is_alnum, bytes, same_bytes, string_literal, ellipsis}
use fyra.Lexer.Scan.{is_eof}
use fyra.Lexer.Next.{
  Lexed, peek_char, last_is, lex_float, lex_number, single_kind, lex_single, lex_punctuation,
  lex_string, lex_rest, is_sigil, sigil_kind, in_name, lex_name, lex_sigil, lex_signed,
  lex_identifier, put_back, is_width, lex_f, lex_short_float,
}
use fyra.Lexer.Progress.{
  held, left, left-advance, left-peek_char, left-put_back, left-get_char, read_string-some,
}
use fyra.Lexer.Parts.{
  Lexes, Total, Lexes-token, Lexes-read_while, lex_float-Lexes, lex_word-Total, lex_number-Total,
}

lex_single-Lexes : (n : ℕ) (lexer : Lexer) → left (advance lexer) < n → Lexes n (lex_single lexer)
lex_single-Lexes n lexer less =
    let c = byte_of lexer.last_char in Lexes-token n (single_kind c) (c ∷ []) (advance lexer) less

lex_punctuation-Lexes :
    (lexer : Lexer) → held lexer.last_char ≡ 1 → Lexes (left lexer) (lex_punctuation lexer)
unfolding lex_punctuation
lex_punctuation-Lexes lexer one =
    let a = left-advance lexer in
    let second = advance lexer in
    let b = left-advance second in
    let third = advance second in
    let c = left-advance third in
    let after = advance third in
    let d = left-advance after in
    let text = byte_of lexer.last_char ∷ byte_of second.last_char ∷ byte_of third.last_char ∷ [] in
    elim (Bool-cases (last_is b'.' lexer)) [
      | inr other ↦ rw other (lex_single-Lexes (left lexer) lexer (omega (arith, a, one)))
      | inl dot ↦ elim (Bool-cases (same_bytes text (bytes "..."))) [
        | inl e ↦
            rw (dot, e) (Lexes-token (left lexer) ellipsis text after (omega (arith, a, b, c, one)))
        | inr f ↦ rw (dot, f) (lex_single-Lexes (left lexer) after (omega (arith, a, b, c, d, one)))
      ]
    ]

lex_string-Total : Total lex_string
unfolding lex_string
lex_string-Total fuel lexer enough one =
    let a = left-advance lexer in
    let (text, (after, (e, rest))) =
      read_string-some fuel [] (advance lexer) (omega (arith, a, enough)) in
    let b = left-advance after in
    elim (Bool-cases (last_is b'"' after)) [
      | inl quote ↦
          rw (e, quote)
            (Lexes-token (left lexer) string_literal text (advance after)
              (omega (arith, a, b, one, rest)))
      | inr unclosed ↦
          rw (e, unclosed)
            (Lexes-token (left lexer) string_literal text after (omega (arith, a, one, rest)))
    ]

lex_rest-Total : Total lex_rest
unfolding lex_rest
lex_rest-Total fuel lexer enough one = elim (Bool-cases (last_is b'"' lexer)) [
  | inl quote ↦ rw quote (lex_string-Total fuel lexer enough one)
  | inr f ↦ elim (Bool-cases (is_eof lexer.last_char || lexer.input.eof)) [
    | inl end ↦ rw (f, end) (record { next = _; after = lexer; returns = refl; reads = inl refl })
    | inr more ↦ rw (f, more) (lex_punctuation-Lexes lexer one)
  ]
]

lex_name-Total : Total lex_name
unfolding lex_name
lex_name-Total fuel lexer enough one =
    let a = left-advance lexer in
    let first = advance lexer in
    let b = left-advance first in
    Lexes-read_while (left lexer) fuel (sigil_kind lexer.last_char) in_name
      (byte_of first.last_char ∷ []) (advance first) (omega (arith, a, b, one))
      (omega (arith, enough))

-- A lexer with what another has left.
within :
    (lex : ℕ → Lexer → Lexed) (fuel : ℕ) (lexer other : Lexer)
    → Total lex
    → left other ≤ left lexer
    → left lexer < fuel
    → held other.last_char ≡ 1
    → Lexes (left lexer) (lex fuel other)
within lex fuel lexer other total less enough one =
    let l = total fuel other (omega (arith, less, enough)) one in
    record {
      next = l.next;
      after = l.after;
      returns = l.returns;
      reads = elim l.reads [ inl e ↦ inl e | inr r ↦ inr (omega (arith, less, r)) ];
    }

lex_sigil-Total : Total lex_sigil
unfolding lex_sigil
lex_sigil-Total fuel lexer enough one =
    let looked = peek_char lexer in
    let again = peek_char looked.1 in
    let a = left-peek_char lexer in
    let b = left-peek_char looked.1 in
    elim (Bool-cases (is is_sigil lexer.last_char)) [
      | inr other ↦ rw other (lex_rest-Total fuel lexer enough one)
      | inl sigil ↦ elim (Bool-cases (is is_alnum looked.0)) [
        | inl e ↦
            rw (sigil, e)
              (within lex_name fuel lexer looked.1 lex_name-Total (omega (arith, a)) enough one)
        | inr f ↦ elim (Bool-cases (is (λ x. x == b'_') again.0)) [
          | inl e ↦
              rw (sigil, f, e)
                (within lex_name fuel lexer again.1 lex_name-Total (omega (arith, a, b)) enough one)
          | inr g ↦
              rw (sigil, f, g)
                (within lex_rest fuel lexer again.1 lex_rest-Total (omega (arith, a, b)) enough one)
        ]
      ]
    ]

lex_signed-Total : Total lex_signed
unfolding lex_signed
lex_signed-Total fuel lexer enough one =
    let looked = peek_char lexer in
    let a = left-peek_char lexer in
    elim (Bool-cases (is is_digit lexer.last_char)) [
      | inl e ↦ rw e (lex_number-Total fuel lexer enough one)
      | inr f ↦ elim (Bool-cases (last_is b'-' lexer)) [
        | inr other ↦ rw (f, other) (lex_sigil-Total fuel lexer enough one)
        | inl minus ↦ elim (Bool-cases (is is_digit looked.0)) [
          | inl e ↦
              rw (f, minus, e)
                (within lex_number fuel lexer looked.1 lex_number-Total (omega (arith, a)) enough
                  one)
          | inr g ↦
              rw (f, minus, g)
                (within lex_sigil fuel lexer looked.1 lex_sigil-Total (omega (arith, a)) enough one)
        ]
      ]
    ]

lex_identifier-Total : Total lex_identifier
unfolding lex_identifier
lex_identifier-Total fuel lexer enough one =
    elim (Bool-cases (is is_alpha lexer.last_char || last_is b'_' lexer)) [
      | inl e ↦ rw e (lex_word-Total fuel lexer enough one)
      | inr f ↦ rw f (lex_signed-Total fuel lexer enough one)
    ]

lex_f-Total : Total lex_f
unfolding lex_f
lex_f-Total fuel lexer enough one =
    let first = get_char lexer in
    let second = get_char first.1 in
    let looked = peek_char second.1 in
    let (plain, peeked) = left-put_back lexer in
    let shorter = left-get_char lexer in
    elim (Bool-cases (last_is b'f' lexer)) [
      | inr other ↦ rw other (lex_identifier-Total fuel lexer enough one)
      | inl f ↦ elim (Bool-cases (is_width first.0 second.0)) [
        | inr narrow ↦
            rw (f, narrow)
              (within lex_identifier fuel lexer (put_back first.0 (put_back second.0 second.1))
                lex_identifier-Total plain enough one)
        | inl wide ↦ elim (Bool-cases (is (λ x. x == b'_') looked.0)) [
          | inr g ↦
              rw (f, wide, g)
                (within lex_identifier fuel lexer (put_back first.0 (put_back second.0 looked.1))
                  lex_identifier-Total peeked enough one)
          | inl e ↦
              rw (f, wide, e)
                (within
                  (λ fuel l. lex_float fuel (b'f' ∷ byte_of first.0 ∷ byte_of second.0 ∷ []) l) fuel
                  lexer looked.1
                  (λ fuel l.
                    lex_float-Lexes fuel (b'f' ∷ byte_of first.0 ∷ byte_of second.0 ∷ []) l)
                  shorter enough one)
        ]
      ]
    ]

pub lex_short_float-Total : Total lex_short_float
unfolding lex_short_float
lex_short_float-Total fuel lexer enough one =
    let looked = peek_char lexer in
    let a = left-peek_char lexer in
    let text = byte_of lexer.last_char ∷ [] in
    elim (Bool-cases (last_is b's' lexer || last_is b'd' lexer)) [
      | inr other ↦ rw other (lex_f-Total fuel lexer enough one)
      | inl short ↦ elim (Bool-cases (is (λ x. x == b'_') looked.0)) [
        | inl e ↦
            rw (short, e)
              (within (λ fuel l. lex_float fuel text l) fuel lexer looked.1
                (λ fuel l. lex_float-Lexes fuel text l) (omega (arith, a)) enough one)
        | inr g ↦
            rw (short, g)
              (within lex_f fuel lexer looked.1 lex_f-Total (omega (arith, a)) enough one)
      ]
    ]
