-- ===== src/Relocation/Writes.antt =====
-- What `evaluate` does to a section: where it writes, what it writes, and when it fails.
use fyra.Prelude.{
  ℕ, ◌+◌, ◌%◌, ◌^◌, ◌≤◌, ◌≡◌, refl, ap, arith, Option, none, some, List, length, take, drop, inl,
  inr, le→leb, Bool-cases,
}
use fyra.Word.{add64, low32, div4, fits_int32}
use fyra.Bytes.{
  le_bytes, of_le, read_bytes, write_bytes, write_bytes_frame, write_bytes_total, length-le_bytes,
  of_le-word,
}
use fyra.Target.{Arch}
use fyra.Relocation.Kind.{
  RelocationKind, absolute, pc_relative, call_relative, branch_relative, unknown,
}
use fyra.Relocation.Encode.{
  patch_adrp, patch_add_immediate, patch_call26, patch_jal, patch_condbr19, patch_branch,
}
use fyra.Relocation.Evaluate.{
  patched, failed, pc_overflow, undefined, written, store, load_insn, patch_insn, delta_of,
  page_delta_of, store_pc32, evaluate_aarch64_pc, evaluate_pc, evaluate_call, evaluate_branch,
  evaluate,
}

-- The bytes that a relocation of each kind may change.
abbrev pub width : RelocationKind → ℕ
width absolute = 8
width _ = 4

-- Two sections that agree outside `n` bytes from `offset`.
pub record AgreeOutside (bytes bytes' : List ℕ) (offset n : ℕ) : Type 0 where
  pub same_length : length bytes' ≡ length bytes
  pub before : take offset bytes' ≡ take offset bytes
  pub after : drop (offset + n) bytes' ≡ drop (offset + n) bytes

store_some :
    (bytes : List ℕ) (offset n value : ℕ) (o : Option (List ℕ)) {bytes' : List ℕ}
    → write_bytes bytes offset (le_bytes n value) ≡ o
    → written o ≡ patched bytes'
    → write_bytes bytes offset (le_bytes n value) ≡ some bytes'
store_some bytes offset n value none e h = cc
store_some bytes offset n value (some b) e h = cc

pub store-AgreeOutside :
    (bytes : List ℕ) (offset n value : ℕ) {bytes' : List ℕ}
    → store bytes offset n value ≡ patched bytes'
    → AgreeOutside bytes bytes' offset n × (read_bytes bytes' offset n ≡ some (le_bytes n value))
unfolding store
store-AgreeOutside bytes offset n value h =
    let (same, before, after, read) =
      write_bytes_frame bytes (le_bytes n value) offset
        (store_some bytes offset n value _ refl h) in
    let e = length-le_bytes n value in
    (record { same_length = same; before = before; after = rw e at after }, rw e at read)

pub load_store :
    (bytes : List ℕ) (offset value : ℕ) {bytes' : List ℕ}
    → store bytes offset 4 value ≡ patched bytes'
    → load_insn bytes' offset ≡ some (value % 2 ^ 32)
unfolding load_insn
load_store bytes offset value h =
    rw ((store-AgreeOutside bytes offset 4 value h).1, load_insn) (ap some (of_le-word value))

pub patch_insn-AgreeOutside :
    (bytes : List ℕ) (offset : ℕ) (change : ℕ → ℕ) (o : Option ℕ) {bytes' : List ℕ}
    → load_insn bytes offset ≡ o
    → patch_insn bytes offset change ≡ patched bytes'
    → (insn : ℕ) × (load_insn bytes offset ≡ some insn)
      × AgreeOutside bytes bytes' offset 4
      × (load_insn bytes' offset ≡ some (change insn % 2 ^ 32))
unfolding patch_insn
patch_insn-AgreeOutside bytes offset change none {bytes'} e h =
    absurd (let f : failed undefined ≡ patched bytes' = rw (e, patch_insn) at h in cc)
patch_insn-AgreeOutside bytes offset change (some insn) {bytes'} e h =
    let s : store bytes offset 4 (change insn) ≡ patched bytes' = rw (e, patch_insn) at h in
    (
      insn,
      e,
      (store-AgreeOutside bytes offset 4 (change insn) s).0,
      load_store bytes offset (change insn) s,
    )

-- With room for four bytes nothing is undefined: every branch reads and writes within the section.
pub store_defined :
    (bytes : List ℕ) (offset n value : ℕ)
    → offset + n ≤ length bytes
    → (bytes' : List ℕ) × (store bytes offset n value ≡ patched bytes')
unfolding store
store_defined bytes offset n value room =
    let (b, e) =
      write_bytes_total bytes (le_bytes n value) offset (rw (length-le_bytes n value) room) in
    (b, rw e)

pub load_insn_defined :
    (bytes : List ℕ) (offset : ℕ)
    → offset + 4 ≤ length bytes
    → (insn : ℕ) × (load_insn bytes offset ≡ some insn)
unfolding load_insn read_bytes
load_insn_defined bytes offset room = (
  of_le (take 4 (drop offset bytes)),
  rw (le→leb (offset + 4) (length bytes) room, load_insn, read_bytes),
)

pub patch_insn_defined :
    (bytes : List ℕ) (offset : ℕ) (change : ℕ → ℕ)
    → offset + 4 ≤ length bytes
    → (bytes' : List ℕ) × (patch_insn bytes offset change ≡ patched bytes')
unfolding patch_insn
patch_insn_defined bytes offset change room =
    let (insn, e) = load_insn_defined bytes offset room in
    let (b, s) = store_defined bytes offset 4 (change insn) room in (b, rw (e, patch_insn) s)

store_frame :
    (bytes : List ℕ) (offset n value : ℕ) {bytes' : List ℕ}
    → store bytes offset n value ≡ patched bytes'
    → AgreeOutside bytes bytes' offset n
store_frame bytes offset n value h = (store-AgreeOutside bytes offset n value h).0

patch_insn_frame :
    (bytes : List ℕ) (offset : ℕ) (change : ℕ → ℕ) {bytes' : List ℕ}
    → patch_insn bytes offset change ≡ patched bytes'
    → AgreeOutside bytes bytes' offset 4
patch_insn_frame bytes offset change h =
    (patch_insn-AgreeOutside bytes offset change (load_insn bytes offset) refl h).2

store_pc32_frame :
    (bytes : List ℕ) (offset delta : ℕ) {bytes' : List ℕ}
    → store_pc32 bytes offset delta ≡ patched bytes'
    → AgreeOutside bytes bytes' offset 4
unfolding store_pc32
store_pc32_frame bytes offset delta {bytes'} h = elim (Bool-cases (fits_int32 delta)) [
  | inl fits ↦ store_frame bytes offset 4 (low32 delta) (rw fits at h)
  | inr over ↦ absurd (let f : failed (pc_overflow delta) ≡ patched bytes' = rw over at h in cc)
]

evaluate_aarch64_pc_frame :
    (symbol place addend : ℕ) (bytes : List ℕ) (offset : ℕ) (o : Option ℕ) {bytes' : List ℕ}
    → evaluate_aarch64_pc symbol place addend bytes offset o ≡ patched bytes'
    → AgreeOutside bytes bytes' offset 4
unfolding evaluate_aarch64_pc
evaluate_aarch64_pc_frame symbol place addend bytes offset none h = absurd (cc)
evaluate_aarch64_pc_frame symbol place addend bytes offset (some insn) {bytes'} h = ground (
  arith,
  store_frame bytes offset 4 (patch_adrp insn (page_delta_of symbol place addend))
      {bytes' = bytes'},
  store_frame bytes offset 4 (patch_add_immediate insn (add64 symbol addend)) {bytes' = bytes'},
  store_pc32_frame bytes offset (delta_of symbol place addend) {bytes' = bytes'},
)

evaluate_pc_frame :
    (symbol place addend : ℕ) (bytes : List ℕ) (offset : ℕ) (arch : Arch) {bytes' : List ℕ}
    → evaluate_pc symbol place addend bytes offset arch ≡ patched bytes'
    → AgreeOutside bytes bytes' offset 4
unfolding evaluate_pc
evaluate_pc_frame symbol place addend bytes offset arch {bytes'} h = ground (
  arith,
  evaluate_aarch64_pc_frame symbol place addend bytes offset (load_insn bytes offset)
      {bytes' = bytes'},
  store_pc32_frame bytes offset (delta_of symbol place addend) {bytes' = bytes'},
)

evaluate_call_frame :
    (delta : ℕ) (bytes : List ℕ) (offset : ℕ) (arch : Arch) {bytes' : List ℕ}
    → evaluate_call delta bytes offset arch ≡ patched bytes'
    → AgreeOutside bytes bytes' offset 4
unfolding evaluate_call
evaluate_call_frame delta bytes offset arch {bytes'} h = ground (
  arith,
  patch_insn_frame bytes offset (λ insn. patch_call26 insn (div4 delta)) {bytes' = bytes'},
  patch_insn_frame bytes offset (λ insn. patch_jal insn (low32 delta)) {bytes' = bytes'},
  store_frame bytes offset 4 (low32 delta) {bytes' = bytes'},
)

evaluate_branch_frame :
    (delta : ℕ) (bytes : List ℕ) (offset : ℕ) (arch : Arch) {bytes' : List ℕ}
    → evaluate_branch delta bytes offset arch ≡ patched bytes'
    → AgreeOutside bytes bytes' offset 4
unfolding evaluate_branch
evaluate_branch_frame delta bytes offset arch {bytes'} h = ground (
  arith,
  patch_insn_frame bytes offset (λ insn. patch_condbr19 insn (div4 delta)) {bytes' = bytes'},
  patch_insn_frame bytes offset (λ insn. patch_branch insn (low32 delta)) {bytes' = bytes'},
  store_frame bytes offset 4 (low32 delta) {bytes' = bytes'},
)

-- A relocation that succeeds keeps the section's length, and changes at most the four bytes (eight,
-- for an absolute one) from its offset.
pub evaluate-AgreeOutside :
    (kind : RelocationKind) (symbol place addend : ℕ) (bytes : List ℕ) (offset : ℕ) (arch : Arch)
    {bytes' : List ℕ}
    → evaluate kind symbol place addend bytes offset arch ≡ patched bytes'
    → AgreeOutside bytes bytes' offset (width kind)
unfolding evaluate
evaluate-AgreeOutside pc_relative symbol place addend bytes offset arch {bytes'} h =
    ground (arith, evaluate_pc_frame symbol place addend bytes offset arch {bytes' = bytes'})
evaluate-AgreeOutside absolute symbol place addend bytes offset arch {bytes'} h =
    ground (arith, store_frame bytes offset 8 (add64 symbol addend) {bytes' = bytes'})
evaluate-AgreeOutside call_relative symbol place addend bytes offset arch {bytes'} h =
    ground (
      arith,
      evaluate_call_frame (delta_of symbol place addend) bytes offset arch {bytes' = bytes'},
    )
evaluate-AgreeOutside branch_relative symbol place addend bytes offset arch {bytes'} h = ground (
  arith,
  evaluate_branch_frame (delta_of symbol place addend) bytes offset arch {bytes' = bytes'},
)
evaluate-AgreeOutside unknown symbol place addend bytes offset arch {bytes'} h = absurd (cc)
