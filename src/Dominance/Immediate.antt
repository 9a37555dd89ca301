-- ===== src/Dominance/Immediate.antt =====
-- Immediate dominators, against the walks.
use fyra.Prelude.{
  ℕ, zero, suc, ◌≤◌, ◌≡◌, refl, arith, inl, inr, Bool, true, false, some, List, [], ◌∷◌, ◌==◌,
  ==_iff, Bool-cases, length,
}
use fyra.Dominance.Sets.{has}
use fyra.Dominance.Solve.{Problem, DomSets, at}
use fyra.Dominance.Tree.{is_idom, first}
use fyra.Dominance.Walks.{Walk, start, step, Dominates}

-- A walk stopped where it last meets a block.
pub record Stopped (problem : Problem) (c : ℕ) (ps : List ℕ) : Type 0 where
  pub blocks : List ℕ
  pub walk : Walk problem c blocks
  pub part : (d : ℕ) → has d blocks ≡ true → has d ps ≡ true
  pub short : length blocks ≤ length ps

pub stop :
    (problem : Problem) (b c : ℕ) (ps : List ℕ)
    → Walk problem b ps
    → has c ps ≡ true
    → Stopped problem c ps
stop problem b c ps (start r root) h =
    let same : r ≡ c = ground (arith, ==_iff r c) in
    rw (← same)
      (record { blocks = r ∷ []; walk = start r root; part = λ d e. e; short = omega arith })
stop problem b c ps (step p b' ps' walk edge) h = elim (Bool-cases (b == c)) [
  | inl same ↦
      let s : b ≡ c = ground (arith, ==_iff b c) in
      rw (← s) (record {
        blocks = b ∷ ps';
        walk = step p b ps' walk edge;
        part = λ d e. e;
        short = omega arith;
      })
  | inr differ ↦
      let rest = stop problem p c ps' walk (ground arith) in
      record {
        blocks = rest.blocks;
        walk = rest.walk;
        part = λ d e. (let f = rest.part d e in ground arith);
        short = omega (arith, rest.short);
      }
]

pub Dominates-trans :
    (problem : Problem) (a c b : ℕ)
    → Dominates problem a c
    → Dominates problem c b
    → Dominates problem a b
Dominates-trans problem a c b f g ps walk =
    let stopped = stop problem b c ps walk (g ps walk) in
    stopped.part a (f stopped.blocks stopped.walk)

pub Walk-last : (problem : Problem) (b : ℕ) (ps : List ℕ) → Walk problem b ps → has b ps ≡ true
Walk-last problem b ps (start r root) = ground (arith, ==_iff b b)
Walk-last problem b ps (step p b' ps' walk edge) = ground (arith, ==_iff b b)

-- Two blocks do not dominate each other: a walk to one would have a shorter walk to it within.
no_cycle :
    (problem : Problem) (n b c : ℕ) (ps : List ℕ)
    → (b == c) ≡ false
    → Dominates problem b c
    → Dominates problem c b
    → Walk problem b ps
    → length ps ≤ n
    → ⊥
no_cycle problem n b c ps differ f g (start r root) small =
    let h = g (b ∷ []) (start b root) in ground arith
no_cycle problem zero b c ps differ f g (step p b' ps' walk edge) small = omega (arith, small)
no_cycle problem (suc n) b c ps differ f g (step p b' ps' walk edge) small =
    let h = g (b ∷ ps') (step p b ps' walk edge) in
    let at_c = stop problem p c ps' walk (ground arith) in
    let at_b = stop problem c b at_c.blocks at_c.walk (f at_c.blocks at_c.walk) in
    no_cycle problem n b c at_b.blocks differ f g at_b.walk
      (omega (arith, at_b.short, at_c.short, small))

pub Dominates-antisym :
    (problem : Problem) (b c : ℕ) (ps : List ℕ)
    → Walk problem b ps
    → Dominates problem b c
    → Dominates problem c b
    → b ≡ c
Dominates-antisym problem b c ps walk f g = elim (Bool-cases (b == c)) [
  | inl same ↦ ground (arith, ==_iff b c)
  | inr differ ↦ absurd (no_cycle problem (length ps) b c ps differ f g walk (omega arith))
]

pub first-some :
    (passes : ℕ → Bool) (d : ℕ) (ds : List ℕ)
    → first passes ds ≡ some d
    → (has d ds ≡ true) × (passes d ≡ true)
first-some passes d [] h = absurd (cc)
first-some passes d (e ∷ ds) h = elim (Bool-cases (passes e)) [
  | inl good ↦
      let h' : some e ≡ some d = rw good at h in
      let same : e ≡ d = cc in rw (← same) (ground (arith, ==_iff e e), good)
  | inr bad ↦ let (there, good) = first-some passes d ds (rw bad at h) in (ground arith, good)
]

pub some-first :
    (passes : ℕ → Bool) (d : ℕ) (ds : List ℕ)
    → has d ds ≡ true
    → passes d ≡ true
    → ((e : ℕ) → has e ds ≡ true → passes e ≡ true → e ≡ d)
    → first passes ds ≡ some d
some-first passes d [] h good only = absurd (cc)
some-first passes d (e ∷ ds) h good only = elim (Bool-cases (passes e)) [
  | inl there ↦ let same : e ≡ d = only e (ground (arith, ==_iff e e)) there in rw there (cc)
  | inr bad ↦
      let differ : (e == d) ≡ false = elim (Bool-cases (e == d)) [
        | inr apart ↦ apart
        | inl equal ↦
            let s : e ≡ d = ground (arith, ==_iff e d) in let bad' = rw s at bad in absurd (cc)
      ] in
      rw bad (some-first passes d ds (ground arith) good (λ c k. only c (ground arith)))
]

pub is_idom-has :
    (sets : DomSets) (d e : ℕ) (ds : List ℕ)
    → is_idom sets d ds ≡ true
    → has e ds ≡ true
    → (d == e) ≡ false
    → has e (at sets d) ≡ true
is_idom-has sets d e [] h k differ = absurd (cc)
is_idom-has sets d e (c ∷ ds) h k differ = elim (Bool-cases (c == e)) [
  | inl same ↦
      let s : c ≡ e = ground (arith, ==_iff c e) in
      rw (← s) (ground (arith, ==_iff d c, ==_iff d e, s))
  | inr apart ↦ is_idom-has sets d e ds (ground arith) (ground arith) differ
]

pub has-is_idom :
    (sets : DomSets) (d : ℕ) (ds : List ℕ)
    → ((e : ℕ) → has e ds ≡ true → (d == e) ≡ false → has e (at sets d) ≡ true)
    → is_idom sets d ds ≡ true
has-is_idom sets d [] f = refl
has-is_idom sets d (e ∷ ds) f =
    let rest = has-is_idom sets d ds (λ c k. f c (ground arith)) in
    elim (Bool-cases (d == e)) [
      | inl same ↦ ground arith
      | inr differ ↦ let here = f e (ground (arith, ==_iff e e)) differ in ground arith
    ]
