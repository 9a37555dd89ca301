-- ===== src/Lexer/Reserved.antt =====
-- The reserved words of the language, in the order of the alphabet, for the theorems on the lexer.
use Prim.Native.String.{String}
use fyra.Prelude.{
  ℕ, ◌≡◌, refl, arith, inl, inr, ◌⊎◌, ◌↔◌, Bool, true, false, ◌&&◌, List, [], ◌∷◌, ==_iff,
  Bool-cases,
}
use fyra.Lexer.Tokens.{bytes, same_bytes, among, keywords, is_keyword}

abbrev pub reserved : List String
reserved =
    "add" ∷ "alloc" ∷ "alloc16" ∷ "alloc4" ∷ "alloc8" ∷ "and" ∷ "blit" ∷ "bool" ∷ "br" ∷ "call"
    ∷ "cast" ∷ "cmp" ∷ "co" ∷ "copy" ∷ "cuo" ∷ "data" ∷ "div" ∷ "dtosi" ∷ "dtoui" ∷ "eq" ∷ "export"
    ∷ "exts" ∷ "extsb" ∷ "extsh" ∷ "extsw" ∷ "extub" ∷ "extuh" ∷ "extuw" ∷ "f32" ∷ "f64" ∷ "fadd"
    ∷ "fdiv" ∷ "fmul" ∷ "fsub" ∷ "function" ∷ "ge" ∷ "global" ∷ "gt" ∷ "hlt" ∷ "i16" ∷ "i32" ∷ "i64"
    ∷ "i8" ∷ "jmp" ∷ "jnz" ∷ "le" ∷ "load" ∷ "loadsb" ∷ "loadsh" ∷ "loadub" ∷ "loaduh" ∷ "loaduw"
    ∷ "lt" ∷ "mul" ∷ "ne" ∷ "neg" ∷ "or" ∷ "phi" ∷ "rem" ∷ "ret" ∷ "sar" ∷ "sge" ∷ "sgt" ∷ "shl"
    ∷ "shr" ∷ "sle" ∷ "slt" ∷ "sltof" ∷ "store" ∷ "stosi" ∷ "stoui" ∷ "sub" ∷ "swtof" ∷ "sys_brk"
    ∷ "sys_clock_gettime" ∷ "sys_clone" ∷ "sys_close" ∷ "sys_execve" ∷ "sys_exit" ∷ "sys_fork"
    ∷ "sys_getdents64" ∷ "sys_getpid" ∷ "sys_getrandom" ∷ "sys_gettid" ∷ "sys_kill" ∷ "sys_lseek"
    ∷ "sys_mkdirat" ∷ "sys_mmap" ∷ "sys_mprotect" ∷ "sys_munmap" ∷ "sys_nanosleep" ∷ "sys_openat"
    ∷ "sys_read" ∷ "sys_renameat" ∷ "sys_rt_sigaction" ∷ "sys_rt_sigprocmask" ∷ "sys_rt_sigreturn"
    ∷ "sys_uname" ∷ "sys_unlinkat" ∷ "sys_wait4" ∷ "sys_write" ∷ "syscall" ∷ "truncd" ∷ "type"
    ∷ "u16" ∷ "u32" ∷ "u64" ∷ "u8" ∷ "udiv" ∷ "uge" ∷ "ugt" ∷ "ule" ∷ "ult" ∷ "ultof" ∷ "urem"
    ∷ "uwtof" ∷ "vaarg" ∷ "vastart" ∷ "void" ∷ "xor" ∷ []

-- The word is one of these.
abbrev pub Among : List ℕ → List String → Type 0
Among word [] = ⊥
Among word (s ∷ ss) = (word ≡ bytes s) ⊎ Among word ss

pub same_bytes_iff : (xs ys : List ℕ) → (same_bytes xs ys ≡ true) ↔ (xs ≡ ys)
same_bytes_iff [] [] = (λ h. refl, λ e. refl)
same_bytes_iff [] (y ∷ ys) = (λ h. absurd (cc), λ e. absurd (cc))
same_bytes_iff (x ∷ xs) [] = (λ h. absurd (cc), λ e. absurd (cc))
same_bytes_iff (x ∷ xs) (y ∷ ys) =
    let (to, from) = same_bytes_iff xs ys in
    (λ h. ground (arith, ==_iff x y, to), λ e. ground (arith, ==_iff x y, from))

among_iff : (word : List ℕ) (ss : List String) → (among word ss ≡ true) ↔ Among word ss
among_iff word [] = (λ h. absurd (cc), λ e. absurd e)
among_iff word (s ∷ ss) =
    let (to, from) = among_iff word ss in
    let (eq, same) = same_bytes_iff word (bytes s) in
    (
      λ h. elim (Bool-cases (same_bytes word (bytes s))) [
        | inl e ↦ inl (eq e)
        | inr f ↦ inr (to (rw f at h))
      ],
      λ e. elim e [
        | inl here ↦ let h = same here in ground arith
        | inr later ↦ let h = from later in ground arith
      ],
    )

-- Each text of the first list is in the second.
abbrev all_among : List String → List String → Bool
all_among [] other = true
all_among (s ∷ ss) other = among (bytes s) other && all_among ss other

among-all_among :
    (word : List ℕ) (ss other : List String)
    → all_among ss other ≡ true
    → Among word ss
    → among word other ≡ true
among-all_among word [] other all h = absurd h
among-all_among word (s ∷ ss) other all (inl e) = rw e (ground arith)
among-all_among word (s ∷ ss) other all (inr later) =
    among-all_among word ss other (ground arith) later

pub is_keyword-Among : (word : List ℕ) → (is_keyword word ≡ true) ↔ Among word reserved
unfolding is_keyword
is_keyword-Among word = (
  λ h.
      (among_iff word reserved).0
        (among-all_among word keywords reserved refl ((among_iff word keywords).0 h)),
  λ h. among-all_among word reserved keywords refl h,
)

-- A word that is not reserved.
pub Among-apart :
    (word : List ℕ) (s : String)
    → among (bytes s) reserved ≡ false
    → Among word reserved
    → same_bytes word (bytes s) ≡ false
Among-apart word s absent h = elim (Bool-cases (same_bytes word (bytes s))) [
  | inr f ↦ f
  | inl e ↦
      let there = (among_iff word reserved).1 h in
      let same = (same_bytes_iff word (bytes s)).0 e in
      let there' : among (bytes s) reserved ≡ true = rw same at there in absurd (cc)
]
