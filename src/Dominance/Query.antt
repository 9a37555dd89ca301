-- ===== src/Dominance/Query.antt =====
-- `dominates` against the walks from the entry.
use fyra.Prelude.{
  ℕ, ◌<◌, ◌≡◌, refl, arith, inl, inr, Bool, true, false, some, List, [], ◌∷◌, ◌++◌, ◌==◌, ==_iff,
  Bool-cases,
}
use fyra.Dominance.Sets.{has}
use fyra.Dominance.Solve.{Graph, Problem, DomSets, at, solve}
use fyra.Dominance.Tree.{strict, dominators}
use fyra.Dominance.Members.{has-erase}
use fyra.Dominance.Walks.{Walk, start, step, Closed, AllReached}
use fyra.Dominance.Correct.{solve-Dominates}
use fyra.Dominance.Run.{ImmediatelyDominates, solve-inside}

-- The last block of a walk that passes a test, and the way from it to the walk's end.
record Nearest (problem : Problem) (passes : ℕ → Bool) (b : ℕ) : Type 0 where
  block : ℕ
  good : passes block ≡ true
  way : List ℕ
  extend : (ws : List ℕ) → Walk problem block ws → Walk problem b (way ++ ws)
  bare : (e : ℕ) → passes e ≡ true → has e way ≡ false

nearest :
    (problem : Problem) (passes : ℕ → Bool) (b c : ℕ) (ps : List ℕ)
    → Walk problem b ps
    → has c ps ≡ true
    → passes c ≡ true
    → Nearest problem passes b
nearest problem passes b c ps (start r root) h good =
    let same : r ≡ c = ground (arith, ==_iff r c) in
    record {
      block = r;
      good = rw same good;
      way = [];
      extend = λ ws walk. walk;
      bare = λ e k. refl;
    }
nearest problem passes b c ps (step p b' ps' walk edge) h good = elim (Bool-cases (passes b)) [
  | inl here ↦ record { block = b; good = here; way = []; extend = λ ws w. w; bare = λ e k. refl }
  | inr other ↦
      let differ : (b == c) ≡ false = elim (Bool-cases (b == c)) [
        | inr apart ↦ apart
        | inl equal ↦
            let s : b ≡ c = ground (arith, ==_iff b c) in let other' = rw s at other in absurd (cc)
      ] in
      let rest = nearest problem passes p c ps' walk (ground arith) good in
      record {
        block = rest.block;
        good = rest.good;
        way = b ∷ rest.way;
        extend = λ ws w. step p b (rest.way ++ ws) (rest.extend ws w) edge;
        bare = λ e k. elim (Bool-cases (b == e)) [
          | inl equal ↦
              let s : b ≡ e = ground (arith, ==_iff b e) in
              let other' = rw s at other in absurd (cc)
          | inr apart ↦ (let f = rest.bare e k in ground arith)
        ];
      }
]

has-append_right :
    (e : ℕ) (xs ys : List ℕ) → has e (xs ++ ys) ≡ true → has e xs ≡ false → has e ys ≡ true
has-append_right e [] ys h k = h
has-append_right e (x ∷ xs) ys h k = has-append_right e xs ys (ground arith) (ground arith)

entry-first : (g : Graph) (b : ℕ) (ps : List ℕ) → Walk (dominators g) b ps → has 0 ps ≡ true
entry-first g b ps (start r root) = ground (arith, ==_iff r 0)
entry-first g b ps (step p b' ps' walk edge) = let rest = entry-first g p ps' walk in ground arith

module _ (g : Graph) (closed : Closed (dominators g)) (reached : AllReached (dominators g))
    (sets : DomSets) (solved : solve (dominators g) ≡ some sets) where
  -- Every block but the entry has an immediate dominator.
  pub has_immediate :
      (b : ℕ) (ps : List ℕ)
      → b < g.size
      → (0 == b) ≡ false
      → Walk (dominators g) b ps
      → (d : ℕ) × ((d < g.size) × ImmediatelyDominates (dominators g) d b)
  has_immediate b ps small inner walk =
      let problem = dominators g in
      let entry : has 0 (at sets b) ≡ true =
        (solve-Dominates problem sets b 0 closed reached small (omega (arith, small)) solved).1
          (entry-first g b) in
      let found =
        nearest problem (λ c. has c (strict sets b)) b 0 ps walk (entry-first g b ps walk)
          ((has-erase 0 b (at sets b)).1 (entry, inner)) in
      let (in_b, differ) = (has-erase found.block b (at sets b)).0 found.good in
      let small_d = solve-inside problem sets b found.block solved in_b in
      (
        found.block,
        (
          small_d,
          record {
            other = differ;
            dominates =
                (solve-Dominates problem sets b found.block closed reached small small_d solved).0
                  in_b;
            closest = λ e small_e apart over ws w.
                let e_in_b =
                  (solve-Dominates problem sets b e closed reached small small_e solved).1 over in
                has-append_right e found.way ws (over (found.way ++ ws) (found.extend ws w))
                  (found.bare e ((has-erase e b (at sets b)).1 (e_in_b, apart)));
          },
        ),
      )
