-- ===== src/Tests/Registers.antt =====
-- Three values, the third of which starts where the first ends.
use fyra.Prelude.{
  ◌==◌, true, ℕ, ◌≤◌, refl, arith, inl, inr, Bool, false, none, some, List, [], ◌∷◌, ltb,
}
use fyra.Regalloc.{Instruction, LiveInterval, linear_scan}
use fyra.Regalloc.Crossing.{run-callee_saved}
use fyra.Regalloc.Run.{run-Located}

abbrev value : ℕ → Instruction
value id = record {
  id = id;
  type = some (record { alignment = 8; size = 8; is_floating_point = false; is_vector = false });
  has_vector_opcode = false;
  operand = none;
}

abbrev interval : ℕ → ℕ → ℕ → LiveInterval
interval id start end = record {
  vreg = value id;
  start = start;
  end = end;
  live_across_call = false;
}

abbrev three_intervals : List LiveInterval
three_intervals = interval 0 0 4 ∷ interval 1 2 6 ∷ interval 2 4 8 ∷ []

abbrev ends_sooner : LiveInterval → LiveInterval → Bool
ends_sooner i j = ltb i.end j.end

run-Located_example : (interval 0 0 4).end ≤ (interval 2 4 8).start
unfolding linear_scan
run-Located_example =
    run-Located ends_sooner none three_intervals (interval 0 0 4) (interval 2 4 8) 0
      (omega arith, (omega arith, (omega arith, tt))) ((refl, (refl, tt)), ((refl, tt), (tt, tt)))
      (inl (refl, inr (inl refl))) refl refl

-- The first value is live across a call.
abbrev crosses : ℕ → Bool
crosses id = id == 0

abbrev across_intervals : List LiveInterval
across_intervals =
    record { vreg = value 0; start = 0; end = 4; live_across_call = true } ∷ interval 1 2 6 ∷ []

run-callee_saved_example : 8 ≤ 8
unfolding linear_scan
run-callee_saved_example =
    run-callee_saved ends_sooner none crosses across_intervals 0 8 (refl, (refl, tt)) refl refl
