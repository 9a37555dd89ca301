-- ===== src/Lexer/Names.antt =====
-- Names after a sigil, words and decimal numbers are read back as they were written.
use fyra.Prelude.{
  ℕ, zero, suc, ◌+◌, ◌<◌, ◌≡◌, refl, sym, ◌∙◌, ap, arith, inl, inr, Bool, true, false, ◌||◌, some,
  List, [], ◌∷◌, ◌++◌, append_assoc, append-nil, ◌==◌, ==_iff, Bool-cases, length, All,
  if◌then◌else◌,
}
use fyra.Lexer.Stream.{Lexer, advance, next_line}
use fyra.Lexer.Tokens.{is_space, is_digit, is_alpha, is_alnum}
use fyra.Lexer.Scan.{skip_space, read_while}
use fyra.Lexer.Next.{
  token, finish, then_lex, classify, in_word, lex_word, lex_rest, is_sigil, sigil_kind, in_name,
  lex_name, lex_sigil, lex_signed, lex_identifier, lex_f, lex_short_float, lex_token, after_space,
  get_next_token,
}

-- The lexer with characters before it: the first is the last one that was read.
abbrev pub ready : ℕ → List ℕ → ℕ → Lexer
ready c rest line = record {
  input = record { rest = rest; eof = false; fail = false };
  last_char = some c;
  current_line = line;
}

abbrev pub AllPass : (ℕ → Bool) → List ℕ → Type 0
AllPass passes word = All (λ c. passes c ≡ true) word

skip-if {ℓ} : {A : Type ℓ} (b : Bool) (x y : A) → b ≡ false → (if b then x else y) ≡ y
skip-if true x y h = absurd (cc)
skip-if false x y h = refl

take-if {ℓ} : {A : Type ℓ} (b : Bool) (x y : A) → b ≡ true → (if b then x else y) ≡ x
take-if true x y h = refl
take-if false x y h = absurd (cc)

not_newline :
    (passes : ℕ → Bool) (y : ℕ) → passes b'\n' ≡ false → passes y ≡ true → (y == b'\n') ≡ false
not_newline passes y newline h = elim (Bool-cases (y == b'\n')) [
  | inr apart ↦ apart
  | inl same ↦
      let s : y ≡ b'\n' = ground (arith, ==_iff y b'\n') in let h' = rw s at h in absurd (cc)
]

-- A word is read to its end, and the line is the one that its end brings.
read_while-word :
    (fuel : ℕ) (passes : ℕ → Bool) (text : List ℕ) (x : ℕ) (word : List ℕ) (c : ℕ) (rest : List ℕ)
    (line : ℕ)
    → length word + 1 < fuel
    → passes b'\n' ≡ false
    → passes x ≡ true
    → AllPass passes word
    → passes c ≡ false
    → read_while fuel passes text (ready x (word ++ (c ∷ rest)) line)
      ≡ some (text ++ (x ∷ word), ready c rest (next_line (some c) line))
unfolding read_while advance
read_while-word zero passes text x word c rest line enough newline here all stop =
    absurd (omega (arith, enough))
read_while-word (suc zero) passes text x word c rest line enough newline here all stop =
    absurd (omega (arith, enough))
read_while-word (suc (suc fuel)) passes text x [] c rest line enough newline here all stop =
    rw (here, stop) refl
read_while-word (suc (suc fuel)) passes text x (y ∷ word) c rest line enough newline here
      (next, all) stop =
    let same : next_line (some y) line ≡ line =
      skip-if (y == b'\n') _ line (not_newline passes y newline next) in
    let ih =
      read_while-word (suc fuel) passes (text ++ (x ∷ [])) y word c rest line
        (omega (arith, enough)) newline next all stop in
    let l = ready x (y ∷ (word ++ (c ∷ rest))) line in
    take-if (passes x) (read_while (suc fuel) passes (text ++ (x ∷ [])) (advance l))
      (some (text, l)) here
    ∙ ap (λ n. read_while (suc fuel) passes (text ++ (x ∷ [])) (ready y (word ++ (c ∷ rest)) n))
        same
    ∙ ih
    ∙ ap (λ t. some (t, ready c rest (next_line (some c) line)))
        (append_assoc text (x ∷ []) (y ∷ word))

-- The same from the character before the word.
pub read_while-advance :
    (fuel : ℕ) (passes : ℕ → Bool) (text : List ℕ) (x : ℕ) (word : List ℕ) (c : ℕ) (rest : List ℕ)
    (line : ℕ)
    → length word < fuel
    → passes b'\n' ≡ false
    → AllPass passes word
    → passes c ≡ false
    → read_while fuel passes text (advance (ready x (word ++ (c ∷ rest)) line))
      ≡ some (text ++ word, ready c rest (next_line (some c) line))
unfolding read_while advance
read_while-advance zero passes text x word c rest line enough newline all stop =
    absurd (omega (arith, enough))
read_while-advance (suc fuel) passes text x [] c rest line enough newline all stop =
    skip-if (passes c)
      (read_while fuel passes (text ++ (c ∷ [])) (advance (ready c rest (next_line (some c) line))))
      (some (text, ready c rest (next_line (some c) line))) stop
    ∙ ap (λ t. some (t, ready c rest (next_line (some c) line))) (sym (append-nil text))
read_while-advance (suc fuel) passes text x (y ∷ word) c rest line enough newline (next, all) stop =
    let same : next_line (some y) line ≡ line =
      skip-if (y == b'\n') _ line (not_newline passes y newline next) in
    ap (λ n. read_while (suc fuel) passes text (ready y (word ++ (c ∷ rest)) n)) same
    ∙ read_while-word (suc fuel) passes text y word c rest line (omega (arith, enough)) newline next
        all stop

-- Past the tests that a character which starts neither a space nor a comment does not pass.
get_next_token-lex_short_float :
    (fuel c : ℕ) (rest : List ℕ) (line : ℕ)
    → is_space c ≡ false
    → (c == b'#') ≡ false
    → get_next_token (suc (suc fuel)) (ready c rest line)
      ≡ lex_short_float (suc fuel) (ready c rest line)
unfolding get_next_token skip_space after_space lex_token
get_next_token-lex_short_float fuel c rest line space hash =
    let l = ready c rest line in
    let again = get_next_token (suc fuel) in
    ap (then_lex (after_space again (suc fuel)))
      (skip-if (is_space c) (skip_space fuel (advance l)) (some l) space)
    ∙ skip-if (c == b'#') _ (lex_token (suc fuel) l) hash

lex_short_float-lex_identifier :
    (fuel c : ℕ) (rest : List ℕ) (line : ℕ)
    → (c == b's' || c == b'd') ≡ false
    → (c == b'f') ≡ false
    → lex_short_float fuel (ready c rest line) ≡ lex_identifier fuel (ready c rest line)
unfolding lex_short_float lex_f
lex_short_float-lex_identifier fuel c rest line short f =
    skip-if (c == b's' || c == b'd') _ (lex_f fuel (ready c rest line)) short
    ∙ skip-if (c == b'f') _ (lex_identifier fuel (ready c rest line)) f

-- A word reaches the test of its kind.
pub get_next_token-classify :
    (fuel x : ℕ) (word : List ℕ) (c : ℕ) (rest : List ℕ) (line : ℕ)
    → length word + 3 < fuel
    → (is_alpha x || x == b'_') ≡ true
    → (x == b's' || x == b'd' || x == b'f') ≡ false
    → AllPass in_word word
    → in_word c ≡ false
    → get_next_token fuel (ready x (word ++ (c ∷ rest)) line)
      ≡ classify (some (x ∷ word, ready c rest (next_line (some c) line)))
unfolding lex_identifier lex_word
get_next_token-classify zero x word c rest line enough letter plain all stop =
    absurd (omega (arith, enough))
get_next_token-classify (suc zero) x word c rest line enough letter plain all stop =
    absurd (omega (arith, enough))
get_next_token-classify (suc (suc fuel)) x word c rest line enough letter plain all stop =
    let l = ready x (word ++ (c ∷ rest)) line in
    get_next_token-lex_short_float fuel x (word ++ (c ∷ rest)) line (ground (arith, ==_iff x b' '))
      (ground (arith, ==_iff x b'#'))
    ∙ lex_short_float-lex_identifier (suc fuel) x (word ++ (c ∷ rest)) line (ground arith)
        (ground arith)
    ∙ take-if (is_alpha x || x == b'_') (lex_word (suc fuel) l) _ letter
    ∙ ap classify (
        read_while-advance (suc fuel) in_word (x ∷ []) x word c rest line (omega (arith, enough))
          refl all stop)

-- Where a sigil, a letter, digit or underscore, and more of these are followed by another character,
-- the next token has the sigil's kind and the name without the sigil; the lexer stands at that
-- character, with the line that the character brings.
pub get_next_token-name :
    (fuel sigil x : ℕ) (name : List ℕ) (c : ℕ) (rest : List ℕ) (line : ℕ)
    → length name + 3 < fuel
    → is_sigil sigil ≡ true
    → in_name x ≡ true
    → AllPass in_name name
    → in_name c ≡ false
    → get_next_token fuel (ready sigil (x ∷ (name ++ (c ∷ rest))) line)
      ≡ token (sigil_kind (some sigil)) (x ∷ name) (ready c rest (next_line (some c) line))
unfolding lex_identifier lex_signed lex_sigil lex_name
get_next_token-name zero sigil x name c rest line enough is_one first all stop =
    absurd (omega (arith, enough))
get_next_token-name (suc zero) sigil x name c rest line enough is_one first all stop =
    absurd (omega (arith, enough))
get_next_token-name (suc (suc fuel)) sigil x name c rest line enough is_one first all stop =
    let tail = x ∷ (name ++ (c ∷ rest)) in
    let l = ready sigil tail line in
    let same : next_line (some x) line ≡ line =
      skip-if (x == b'\n') _ line (not_newline in_name x refl first) in
    let named : lex_name (suc fuel) l
        ≡ token (sigil_kind (some sigil)) (x ∷ name) (ready c rest (next_line (some c) line)) =
      ap
        (λ n.
          finish (sigil_kind (some sigil))
            (read_while (suc fuel) in_name (x ∷ []) (advance (ready x (name ++ (c ∷ rest)) n))))
        same
      ∙ ap (finish (sigil_kind (some sigil))) (
          read_while-advance (suc fuel) in_name (x ∷ []) x name c rest line (omega (arith, enough))
            refl all stop) in
    get_next_token-lex_short_float fuel sigil tail line (ground (arith, ==_iff sigil b' '))
      (ground (arith, ==_iff sigil b'#'))
    ∙ lex_short_float-lex_identifier (suc fuel) sigil tail line (ground arith) (ground arith)
    ∙ skip-if (is_alpha sigil || sigil == b'_') _ (lex_signed (suc fuel) l) (ground arith)
    ∙ skip-if (is_digit sigil) _ (if sigil == b'-' then _ else lex_sigil (suc fuel) l)
        (ground arith)
    ∙ skip-if (sigil == b'-') _ (lex_sigil (suc fuel) l) (ground arith)
    ∙ take-if (is_sigil sigil)
        (if is_alnum x
          then lex_name (suc fuel) l
          else if x == b'_'
          then lex_name (suc fuel) l
          else lex_rest (suc fuel) l)
        _ is_one
    ∙ elim (Bool-cases (is_alnum x)) [
      | inl e ↦ take-if (is_alnum x) (lex_name (suc fuel) l) _ e
      | inr f ↦
          skip-if (is_alnum x) _
            (if x == b'_' then lex_name (suc fuel) l else lex_rest (suc fuel) l) f
          ∙ take-if (x == b'_') (lex_name (suc fuel) l) _ (ground arith)
    ]
    ∙ named
