-- ===== src/Vm/Run.antt =====
-- The loop of `run_threads` of src/vm.c that runs one thread until it takes a character, ends or
-- matches, and when that loop ends.
pub mod Flags
pub mod Guard
pub mod Led
pub mod Total
pub mod Sound
pub mod Failures
use crex.Base.{ℕ, Option, zero, suc, Bool, true, false, length, ◌==◌}
use crex.Status.{ok, out_of_fuel, ◌>>=◌}
use crex.Vm.{Program, Machine, ThreadStatus, Stepped, step_thread}

-- The test at the end of a round, with the loop's next round.
unfoldable pub run_on : (Machine → Stepped) → ThreadStatus → Machine → Stepped
run_on again ThreadStatus.continue m = again m
run_on again status m = ok (status, m)

-- `alloc` says whether the step with so much fuel left is given a block.
module _ (program : Program) (alloc : ℕ → Bool) (str : ℕ)
    (character prev_character : Option ℕ) where
  -- The loop, on fuel: each round is a step.
  unfoldable pub run_thread : ℕ → Machine → Stepped
  unfolding run_on
  run_thread zero m = out_of_fuel
  run_thread (suc fuel) m = elim (m.thread.instr_pointer == length program.code) [
    | true ↦ ok (ThreadStatus.matched, m)
    | false ↦ step_thread program (alloc fuel) str character prev_character m >>= λ (status, m').
        run_on (λ m''. run_thread fuel m'') status m'
  ]
