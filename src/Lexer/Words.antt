-- ===== src/Lexer/Words.antt =====
-- The tokens of words: keywords, `align`, `extern` and identifiers.
use fyra.Prelude.{ℕ, ◌≡◌, Option, some, List, ◌∷◌}
use fyra.Lexer.Stream.{Lexer}
use fyra.Lexer.Tokens.{Token, identifier, keyword, align, extern, bytes}
use fyra.Lexer.Reserved.{reserved, Among}

-- What is known of the token of a word: it has the word's text; a reserved word is a keyword, without a
-- line; `align` and `extern` have their own kinds, and any other word is an identifier, with the line.
pub record IsWord (word : List ℕ) (line : ℕ) (t : Token) : Type 0 where
  pub value : t.value ≡ word
  pub reserved_word : Among word reserved → (t.kind ≡ keyword) × (t.line ≡ 0)
  pub align_word : word ≡ bytes "align" → (t.kind ≡ align) × (t.line ≡ line)
  pub extern_word : word ≡ bytes "extern" → (t.kind ≡ extern) × (t.line ≡ line)
  pub other_word :
      ¬ (Among word ("align" ∷ "extern" ∷ reserved)) → (t.kind ≡ identifier) × (t.line ≡ line)

-- The token and the lexer after it.
pub record ReadsWord (word : List ℕ) (after : Lexer) (lexed : Option (Token × Lexer)) : Type 0 where
  pub read : Token
  pub lexed_as : lexed ≡ some (read, after)
  pub is_word : IsWord word after.current_line read
