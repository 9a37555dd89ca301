-- ===== src/Tests/Members.antt =====
-- A file with one member of two bytes.
use fyra.Prelude.{ℕ, ◌≡◌, refl, List, [], ◌∷◌}
use fyra.Lexer.{bytes}
use fyra.Archive.{parse, parsed}

abbrev one_member : List ℕ
one_member = bytes "!<arch>\na.o/            0           0     0     000644  2         `\nhi"

one_member_parsed :
    parse one_member ≡ parsed (record { name = bytes "a.o"; content = bytes "hi" } ∷ [])
unfolding parse
one_member_parsed = refl
