-- ===== src/Lexer/Total.antt =====
-- `getNextToken` returns, and the calls of it come to the end.
use fyra.Prelude.{
  ℕ, zero, suc, ◌+◌, ◌<◌, ◌≤◌, ◌≡◌, refl, sym, arith, inl, inr, Bool, true, false, Option, some, [],
  ◌==◌, if◌then◌else◌,
}
use mathlib.Core.Path.{subst}
use fyra.Lexer.Stream.{Lexer}
use fyra.Lexer.Tokens.{eof}
use fyra.Lexer.Scan.{skip_space, skip_comment, is_eof}
use fyra.Lexer.Next.{
  Lexed, token, lex_short_float, last_is, then_lex, lex_token, after_comment, after_space,
  get_next_token,
}
use fyra.Lexer.Progress.{left, held-is, held-is_eof, skip_space-some, skip_comment-some}
use fyra.Lexer.Parts.{Lexes}
use fyra.Lexer.Branches.{lex_short_float-Total}

Lexes-if :
    (n : ℕ) (b : Bool) (x y : Lexed)
    → (b ≡ true → Lexes n x)
    → (b ≡ false → Lexes n y)
    → Lexes n (if b then x else y)
Lexes-if n true x y f g = f refl
Lexes-if n false x y f g = g refl

lex_token-Lexes :
    (fuel : ℕ) (lexer : Lexer) → left lexer < fuel → Lexes (left lexer) (lex_token fuel lexer)
unfolding lex_token
lex_token-Lexes fuel lexer enough =
    Lexes-if (left lexer) (is_eof lexer.last_char) (token eof [] lexer) (lex_short_float fuel lexer)
      (λ end. record { next = _; after = lexer; returns = refl; reads = inl refl })
      (λ more. lex_short_float-Total fuel lexer enough (held-is_eof lexer.last_char more))

Lexes-mono : (m n : ℕ) (lexed : Lexed) → m ≤ n → Lexes m lexed → Lexes n lexed
Lexes-mono m n lexed less l = record {
  next = l.next;
  after = l.after;
  returns = l.returns;
  reads = elim l.reads [ inl e ↦ inl e | inr r ↦ inr (omega (arith, less, r)) ];
}

then_lex-Lexes :
    (n : ℕ) (next : Lexer → Lexed) (o : Option Lexer) (after : Lexer)
    → o ≡ some after
    → Lexes n (next after)
    → Lexes n (then_lex next o)
then_lex-Lexes n next o after e l = subst (λ o. Lexes n (then_lex next o)) (sym e) l

-- Recursive calls on less return.
abbrev Returns : ℕ → (Lexer → Lexed) → Type 0
Returns n again = (lexer : Lexer) → left lexer < n → Lexes (left lexer) (again lexer)

after_comment-Lexes :
    (n fuel : ℕ) (again : Lexer → Lexed) (lexer : Lexer)
    → Returns n again
    → n ≤ fuel
    → left lexer < n
    → Lexes n (after_comment again fuel lexer)
unfolding after_comment
after_comment-Lexes n fuel again lexer returns enough less =
    Lexes-mono (left lexer) n (after_comment again fuel lexer) (omega (arith, less)) (
      Lexes-if (left lexer) (is_eof lexer.last_char) (lex_token fuel lexer) (again lexer)
        (λ end. lex_token-Lexes fuel lexer (omega (arith, enough, less)))
        (λ more. returns lexer less))

after_space-Lexes :
    (n fuel : ℕ) (again : Lexer → Lexed) (lexer : Lexer)
    → Returns n again
    → n < fuel
    → left lexer ≤ n
    → Lexes n (after_space again fuel lexer)
unfolding after_space
after_space-Lexes n fuel again lexer returns enough less =
    Lexes-if n (last_is b'#' lexer) (then_lex (after_comment again fuel) (skip_comment fuel lexer))
      (lex_token fuel lexer)
      (λ hash.
        let one = held-is (λ x. x == b'#') lexer.last_char hash in
        let (after, (e, shorter)) =
          skip_comment-some fuel lexer (omega (arith, less, enough)) one in
        then_lex-Lexes n (after_comment again fuel) (skip_comment fuel lexer) after e (
          after_comment-Lexes n fuel again after returns (omega (arith, enough))
            (omega (arith, less, shorter))))
      (λ plain.
        Lexes-mono (left lexer) n (lex_token fuel lexer) less
          (lex_token-Lexes fuel lexer (omega (arith, less, enough))))

-- With more fuel than there are characters left, and one more, `getNextToken` returns a token, and
-- unless that is the end of the file it has taken at least one character.
pub get_next_token-Lexes :
    (fuel : ℕ) (lexer : Lexer)
    → left lexer + 1 < fuel
    → Lexes (left lexer) (get_next_token fuel lexer)
unfolding get_next_token
get_next_token-Lexes zero lexer enough = absurd (omega (arith, enough))
get_next_token-Lexes (suc fuel) lexer enough =
    let n = left lexer in
    let (after, (e, less)) = skip_space-some fuel lexer (omega (arith, enough)) in
    then_lex-Lexes n (after_space (get_next_token fuel) fuel) (skip_space fuel lexer) after e (
      after_space-Lexes n fuel (get_next_token fuel) after
        (λ l shorter. get_next_token-Lexes fuel l (omega (arith, shorter, enough)))
        (omega (arith, enough)) less)
