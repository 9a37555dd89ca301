-- ===== src/Bytes/Laws.antt =====
-- Laws of byte runs.
use fyra.Prelude.{
  ℕ, zero, suc, ◌+◌, ◌/◌, ◌%◌, ◌^◌, ◌≤◌, ◌<◌, ◌≡◌, refl, ap, ◌∙◌, arith, some, List, [], ◌∷◌, ◌++◌,
  le→leb, length, take, drop, All, length-append, length-take, length-drop, take-append,
  drop-append, append_assoc,
}
use native.Mathlib.Nat.{pow-suc}
use fyra.Bytes.Defs.{IsByte, le_bytes, of_le, read_bytes, write_bytes}

pub length-le_bytes : (n v : ℕ) → length (le_bytes n v) ≡ n
unfolding le_bytes
length-le_bytes zero v = refl
length-le_bytes (suc n) v = ap suc (length-le_bytes n (v / 256))

pub le_bytes-IsByte : (n v : ℕ) → All IsByte (le_bytes n v)
unfolding le_bytes
le_bytes-IsByte zero v = tt
le_bytes-IsByte (suc n) v = (omega arith, le_bytes-IsByte n (v / 256))

-- A value that fits `n` bytes is read back.
pub of_le-le_bytes : (n v : ℕ) → v < 256 ^ n → of_le (le_bytes n v) ≡ v
unfolding of_le le_bytes
of_le-le_bytes zero v h = omega arith
of_le-le_bytes (suc n) v h =
    omega (arith, pow-suc 256 n, of_le-le_bytes n (v / 256) (omega (arith, pow-suc 256 n)))

pub of_le-lt : (bs : List ℕ) → All IsByte bs → of_le bs < 256 ^ length bs
unfolding of_le
of_le-lt [] h = omega arith
of_le-lt (b ∷ bs) h = omega (arith, pow-suc 256 (length bs), of_le-lt bs h.1)

-- Three runs end to end, cut at the ends of the first and the second.
splice_laws :
    (pre new post : List ℕ) (offset : ℕ)
    → length pre ≡ offset
    → (length (pre ++ (new ++ post)) ≡ offset + length new + length post)
      × (take offset (pre ++ (new ++ post)) ≡ pre)
      × (drop (offset + length new) (pre ++ (new ++ post)) ≡ post)
      × (take (length new) (drop offset (pre ++ (new ++ post))) ≡ new)
splice_laws pre new post offset e = rw (← e) (
  omega (arith, length-append pre (new ++ post), length-append new post),
  take-append pre (new ++ post),
  rw (← append_assoc pre new post, ← length-append pre new) (drop-append (pre ++ new) post),
  rw (drop-append pre (new ++ post)) (take-append new post),
)

write_bytes-some :
    (bytes new : List ℕ) (offset : ℕ) (bytes' : List ℕ)
    → write_bytes bytes offset new ≡ some bytes'
    → (offset + length new ≤ length bytes)
      × (bytes' ≡ take offset bytes ++ (new ++ drop (offset + length new) bytes))
unfolding write_bytes
write_bytes-some bytes new offset bytes' h = ground arith

-- What a successful write leaves: the bytes before, the new ones, and the bytes after.
pub write_bytes_frame :
    (bytes new : List ℕ) (offset : ℕ) {bytes' : List ℕ}
    → write_bytes bytes offset new ≡ some bytes'
    → (length bytes' ≡ length bytes)
      × (take offset bytes' ≡ take offset bytes)
      × (drop (offset + length new) bytes' ≡ drop (offset + length new) bytes)
      × (read_bytes bytes' offset (length new) ≡ some new)
unfolding read_bytes
write_bytes_frame bytes new offset {bytes'} h =
    let (room, e) = write_bytes-some bytes new offset bytes' h in
    let (n, before, after, written) =
      splice_laws (take offset bytes) new (drop (offset + length new) bytes) offset
        (omega (arith, length-take offset bytes)) in
    let size : length bytes' ≡ length bytes =
      ap length e ∙ n ∙ omega (arith, length-drop (offset + length new) bytes) in
    (
      size,
      rw e before,
      rw e after,
      rw (le→leb (offset + length new) (length bytes') (rw size room)) (ap some (rw e written)),
    )

pub write_bytes_total :
    (bytes new : List ℕ) (offset : ℕ)
    → offset + length new ≤ length bytes
    → (bytes' : List ℕ) × (write_bytes bytes offset new ≡ some bytes')
unfolding write_bytes
write_bytes_total bytes new offset h =
    (take offset bytes ++ (new ++ drop (offset + length new) bytes), rw (le→leb _ _ h))

-- The two widths that the program stores, for any value.
pub of_le-word : (v : ℕ) → of_le (le_bytes 4 v) ≡ v % 2 ^ 32
unfolding of_le le_bytes
of_le-word v = omega arith

pub of_le-double : (v : ℕ) → of_le (le_bytes 8 v) ≡ v % 2 ^ 64
unfolding of_le le_bytes
of_le-double v = omega arith
