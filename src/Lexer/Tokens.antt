-- ===== src/Lexer/Tokens.antt =====
-- Tokens, the keywords, and the classes of characters in the C locale.
use Prim.Native.String.{String}
use Prim.Native.Char.{code}
use fyra.Prelude.{ℕ, Bool, true, false, ◌&&◌, ◌||◌, List, [], ◌∷◌, ◌==◌, leb}

pub data TokenType : Type 0 where
  eof identifier global temporary label type keyword number float_literal : TokenType
  l_curly r_curly l_paren r_paren l_brack r_brack : TokenType
  comma equal colon plus semicolon arrow ellipsis string_literal : TokenType
  align thread section extern unknown : TokenType

-- The text as its bytes.
pub record Token : Type 0 where
  pub kind : TokenType
  pub value : List ℕ
  pub line : ℕ

abbrev pub between : ℕ → ℕ → ℕ → Bool
between low high c = leb low c && leb c high

abbrev pub is_space : ℕ → Bool
is_space c = c == b' ' || between 9 13 c

abbrev pub is_digit : ℕ → Bool
is_digit c = between 48 57 c

abbrev pub is_alpha : ℕ → Bool
is_alpha c = between 65 90 c || between 97 122 c

abbrev pub is_alnum : ℕ → Bool
is_alnum c = is_alpha c || is_digit c

abbrev pub is_xdigit : ℕ → Bool
is_xdigit c = is_digit c || between 65 70 c || between 97 102 c

-- A text of the source, as bytes.
abbrev pub bytes : String → List ℕ
bytes String.[] = []
bytes (String.◌∷◌ c s) = code c ∷ bytes s

abbrev pub same_bytes : List ℕ → List ℕ → Bool
same_bytes [] [] = true
same_bytes [] (y ∷ ys) = false
same_bytes (x ∷ xs) [] = false
same_bytes (x ∷ xs) (y ∷ ys) = x == y && same_bytes xs ys

abbrev pub among : List ℕ → List String → Bool
among word [] = false
among word (s ∷ ss) = same_bytes word (bytes s) || among word ss

abbrev pub keywords : List String
keywords =
    "function" ∷ "export" ∷ "data" ∷ "type" ∷ "global" ∷ "i8" ∷ "i16" ∷ "i32" ∷ "i64" ∷ "u8" ∷ "u16"
    ∷ "u32" ∷ "u64" ∷ "f32" ∷ "f64" ∷ "bool" ∷ "void" ∷ "ret" ∷ "add" ∷ "sub" ∷ "mul" ∷ "div"
    ∷ "udiv" ∷ "rem" ∷ "urem" ∷ "neg" ∷ "copy" ∷ "and" ∷ "or" ∷ "xor" ∷ "shl" ∷ "shr" ∷ "sar"
    ∷ "jmp" ∷ "jnz" ∷ "br" ∷ "cmp" ∷ "alloc" ∷ "alloc4" ∷ "alloc8" ∷ "alloc16" ∷ "store" ∷ "load"
    ∷ "loadub" ∷ "loadsb" ∷ "loaduh" ∷ "loadsh" ∷ "loaduw" ∷ "blit" ∷ "extub" ∷ "extuh" ∷ "extuw"
    ∷ "extsb" ∷ "extsh" ∷ "extsw" ∷ "exts" ∷ "truncd" ∷ "swtof" ∷ "uwtof" ∷ "sltof" ∷ "ultof"
    ∷ "dtosi" ∷ "dtoui" ∷ "stosi" ∷ "stoui" ∷ "cast" ∷ "phi" ∷ "vastart" ∷ "vaarg" ∷ "call" ∷ "hlt"
    ∷ "eq" ∷ "ne" ∷ "slt" ∷ "sle" ∷ "sgt" ∷ "sge" ∷ "ult" ∷ "ule" ∷ "ugt" ∷ "uge" ∷ "lt" ∷ "le"
    ∷ "gt" ∷ "ge" ∷ "co" ∷ "cuo" ∷ "fadd" ∷ "fsub" ∷ "fmul" ∷ "fdiv" ∷ "syscall" ∷ "sys_exit"
    ∷ "sys_execve" ∷ "sys_fork" ∷ "sys_clone" ∷ "sys_wait4" ∷ "sys_kill" ∷ "sys_read" ∷ "sys_write"
    ∷ "sys_openat" ∷ "sys_close" ∷ "sys_lseek" ∷ "sys_mmap" ∷ "sys_munmap" ∷ "sys_mprotect"
    ∷ "sys_brk" ∷ "sys_mkdirat" ∷ "sys_unlinkat" ∷ "sys_renameat" ∷ "sys_getdents64"
    ∷ "sys_clock_gettime" ∷ "sys_nanosleep" ∷ "sys_rt_sigaction" ∷ "sys_rt_sigprocmask"
    ∷ "sys_rt_sigreturn" ∷ "sys_getrandom" ∷ "sys_uname" ∷ "sys_getpid" ∷ "sys_gettid" ∷ []

-- `keywords.count`
unfoldable pub is_keyword : List ℕ → Bool
is_keyword word = among word keywords
