-- ===== src/Dominance/Fuel.antt =====
-- The fuel of the iteration is enough: each change takes a block from a set.
use fyra.Prelude.{
  ℕ, zero, suc, ◌+◌, ◌*◌, ◌<◌, ◌≤◌, ◌≡◌, refl, arith, inl, inr, Bool, true, false, ◌==◌, ==_iff,
  Bool-cases,
}
use fyra.Dominance.Sets.{has, range}
use fyra.Dominance.Solve.{Problem, DomSets, at, initial_set, initial_sets, meet, new_set}
use fyra.Dominance.Members.{
  has-insert, has-range, range-has, subset-missing, has-subset, at-put, at-initial_sets, has-meet,
  meet-has, meet_source,
}
use fyra.Dominance.Passes.{Changes, changed_sets}

abbrev pub one : Bool → ℕ
one true = 1
one false = 0

-- How many numbers below `n` pass, and a sum over the numbers below `n`.
abbrev pub tally : ℕ → (ℕ → Bool) → ℕ
tally zero f = 0
tally (suc n) f = tally n f + one (f n)

abbrev pub sum : ℕ → (ℕ → ℕ) → ℕ
sum zero f = 0
sum (suc n) f = sum n f + f n

one_mono : (a b : Bool) → (a ≡ true → b ≡ true) → one a ≤ one b
one_mono true true h = omega arith
one_mono true false h = let e = h refl in absurd (cc)
one_mono false b h = omega arith

tally_mono : (n : ℕ) (f g : ℕ → Bool) → ((d : ℕ) → f d ≡ true → g d ≡ true) → tally n f ≤ tally n g
tally_mono zero f g h = omega arith
tally_mono (suc n) f g h = omega (arith, tally_mono n f g h, one_mono (f n) (g n) (h n))

tally-less :
    (n d : ℕ) (f g : ℕ → Bool)
    → ((c : ℕ) → f c ≡ true → g c ≡ true)
    → d < n
    → g d ≡ true
    → f d ≡ false
    → tally n f + 1 ≤ tally n g
tally-less zero d f g h small yes_g no_f = omega arith
tally-less (suc n) d f g h small yes_g no_f = elim (Bool-cases (d == n)) [
  | inl same ↦
      let s : d ≡ n = ground (arith, ==_iff d n) in
      let yes_n : g n ≡ true = rw s at yes_g in
      let no_n : f n ≡ false = rw s at no_f in rw (yes_n, no_n) (omega (arith, tally_mono n f g h))
  | inr apart ↦
      let less : d < n = ground (arith, ==_iff d n) in
      omega (arith, tally-less n d f g h less yes_g no_f, one_mono (f n) (g n) (h n))
]

pub tally-≤ : (n : ℕ) (f : ℕ → Bool) → tally n f ≤ n
tally-≤ zero f = omega arith
tally-≤ (suc n) f = elim (Bool-cases (f n)) [
  | inl e ↦ rw e (omega (arith, tally-≤ n f))
  | inr e ↦ rw e (omega (arith, tally-≤ n f))
]

sum_mono : (n : ℕ) (f g : ℕ → ℕ) → ((b : ℕ) → f b ≤ g b) → sum n f ≤ sum n g
sum_mono zero f g h = omega arith
sum_mono (suc n) f g h = omega (arith, sum_mono n f g h, h n)

sum-less :
    (n b : ℕ) (f g : ℕ → ℕ) → ((c : ℕ) → f c ≤ g c) → b < n → f b + 1 ≤ g b → sum n f + 1 ≤ sum n g
sum-less zero b f g h small less = omega arith
sum-less (suc n) b f g h small less = elim (Bool-cases (b == n)) [
  | inl same ↦
      let s : b ≡ n = ground (arith, ==_iff b n) in
      let less' : f n + 1 ≤ g n = rw s at less in omega (arith, sum_mono n f g h, less')
  | inr apart ↦
      let below : b < n = ground (arith, ==_iff b n) in
      omega (arith, sum-less n b f g h below less, h n)
]

pub sum-≤ : (n m : ℕ) (f : ℕ → ℕ) → ((b : ℕ) → f b ≤ m) → sum n f ≤ n * m
sum-≤ zero m f h = omega arith
sum-≤ (suc n) m f h = grind (arith, sum-≤ n m f h, h n)

-- The blocks in all sets together.
abbrev pub measure : Problem → DomSets → ℕ
measure problem sets = sum problem.size (λ b. tally problem.size (λ d. has d (at sets b)))

-- A change only takes blocks away, and sets only have blocks of the function.
pub record Shrinks (problem : Problem) (sets : DomSets) : Type 0 where
  pub smaller :
      (b d : ℕ)
      → b < problem.size
      → problem.is_root b ≡ false
      → has d (new_set problem sets b) ≡ true
      → has d (at sets b) ≡ true
  pub inside : (b d : ℕ) → has d (at sets b) ≡ true → d < problem.size

-- One set with fewer blocks, and the others as they were.
at-changed_sets :
    (problem : Problem) (sets : DomSets) (b c d : ℕ)
    → b < problem.size
    → Changes problem sets b
    → Shrinks problem sets
    → has d (at (changed_sets problem sets b) c) ≡ true
    → has d (at sets c) ≡ true
at-changed_sets problem sets b c d small (other, differ) shrinks h = elim (Bool-cases (b == c)) [
  | inl same ↦
      let s : b ≡ c = ground (arith, ==_iff b c) in
      let h' : has d (new_set problem sets b) ≡ true =
        rw (at-put b c (new_set problem sets b) sets, same) at h in
      rw (← s) (shrinks.smaller b d small other h')
  | inr apart ↦ rw (at-put b c (new_set problem sets b) sets, apart) at h
]

new_set_mono :
    (problem : Problem) (sets sets' : DomSets) (b d : ℕ)
    → ((c : ℕ) → has d (at sets' c) ≡ true → has d (at sets c) ≡ true)
    → has d (new_set problem sets' b) ≡ true
    → has d (new_set problem sets b) ≡ true
new_set_mono problem sets sets' b d f h =
    let m = meet sets (problem.sources b) in
    let m' = meet sets' (problem.sources b) in
    elim (Bool-cases (b == d)) [
      | inl same ↦ ground (arith, has-insert d b m)
      | inr differ ↦
          let met' : has d m' ≡ true = ground (arith, has-insert d b m') in
          let (p, edge) = meet_source sets' d (problem.sources b) met' in
          let met : has d m ≡ true =
            meet-has sets d p (problem.sources b) edge
              (λ q e. f q (has-meet sets' d q (problem.sources b) met' e)) in
          ground (arith, has-insert d b m)
    ]

pub changed_sets-Shrinks :
    (problem : Problem) (sets : DomSets) (b : ℕ)
    → b < problem.size
    → Changes problem sets b
    → Shrinks problem sets
    → Shrinks problem (changed_sets problem sets b)
changed_sets-Shrinks problem sets b small changes shrinks = record {
  smaller = λ c d small_c other_c h.
      let old =
        new_set_mono problem sets (changed_sets problem sets b) c d
          (λ e. at-changed_sets problem sets b e d small changes shrinks) h in
      elim (Bool-cases (b == c)) [
        | inl same ↦
            let s : b ≡ c = ground (arith, ==_iff b c) in
            rw (at-put b c (new_set problem sets b) sets, same) (rw (s) old)
        | inr apart ↦
            rw (at-put b c (new_set problem sets b) sets, apart)
              (shrinks.smaller c d small_c other_c old)
      ];
  inside = λ c d h. shrinks.inside c d (at-changed_sets problem sets b c d small changes shrinks h);
}

pub measure-changed_sets :
    (problem : Problem) (sets : DomSets) (b : ℕ)
    → b < problem.size
    → Changes problem sets b
    → Shrinks problem sets
    → measure problem (changed_sets problem sets b) + 1 ≤ measure problem sets
measure-changed_sets problem sets b small (other, differ) shrinks =
    let sets' = changed_sets problem sets b in
    let keeps : (c d : ℕ) → has d (at sets' c) ≡ true → has d (at sets c) ≡ true =
      λ c d. at-changed_sets problem sets b c d small (other, differ) shrinks in
    let within =
      has-subset (new_set problem sets b) (at sets b) (λ d. shrinks.smaller b d small other) in
    let (d, (there, not_new)) =
      subset-missing (at sets b) (new_set problem sets b) (ground arith) in
    let gone : has d (at sets' b) ≡ false =
      rw (at-put b b (new_set problem sets b) sets) (ground (arith, ==_iff b b)) in
    sum-less problem.size b (λ c. tally problem.size (λ e. has e (at sets' c)))
      (λ c. tally problem.size (λ e. has e (at sets c)))
      (λ c. tally_mono problem.size (λ e. has e (at sets' c)) (λ e. has e (at sets c)) (keeps c))
      small
      (tally-less problem.size d (λ e. has e (at sets' b)) (λ e. has e (at sets b)) (keeps b)
        (shrinks.inside b d there) there gone)

pub initial_sets-Shrinks :
    (problem : Problem) → Shrinks problem (initial_sets problem (range problem.size))
initial_sets-Shrinks problem =
    let sets = initial_sets problem (range problem.size) in
    let inside : (b d : ℕ) → has d (at sets b) ≡ true → d < problem.size = λ b d h.
      elim (Bool-cases (has b (range problem.size))) [
        | inr large ↦
            let h' = rw (at-initial_sets problem b (range problem.size), large) at h in absurd (cc)
        | inl small ↦
            let h' : has d (initial_set problem b) ≡ true =
              rw (at-initial_sets problem b (range problem.size), small) at h in
            let below = has-range b problem.size small in
            elim (Bool-cases (problem.is_root b)) [
              | inl root ↦ let h'' = rw root at h' in ground (arith, ==_iff b d)
              | inr other ↦ let h'' = rw other at h' in has-range d problem.size h''
            ]
      ] in
    record {
      inside = inside;
      smaller = λ b d small other h.
          let m = meet sets (problem.sources b) in
          let below : d < problem.size = elim (Bool-cases (b == d)) [
            | inl same ↦ ground (arith, ==_iff b d)
            | inr differ ↦
                let met : has d m ≡ true = ground (arith, has-insert d b m) in
                let (p, edge) = meet_source sets d (problem.sources b) met in
                inside p d (has-meet sets d p (problem.sources b) met edge)
          ] in
          rw (at-initial_sets problem b (range problem.size), range-has b problem.size small, other)
            (range-has d problem.size below);
    }
