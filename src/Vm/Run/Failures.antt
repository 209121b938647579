-- ===== src/Vm/Run/Failures.antt =====
-- The steps of src/vm.c on a thread fail only where an allocation has failed.
use crex.Base.{
  ℕ, zero, suc, ◌≡◌, refl, Bool, true, false, Option, none, some, List, length, drop, ltb, ◌==◌,
  if_both,
}
use crex.Bitmap.{Bitmap}
use crex.Status.{
  Status, ok, ◌>>=◌, nomem, Ends, with_value, with_undefined, with_no_fuel, Ends-bind,
}
use crex.Bytecode.{Opcode, Fetched}
use crex.Vm.{
  Program, Machine, ThreadStatus, Stepped, taking, passing, test_class, jump_to, split_thread,
  test_flag, write_pointer, add_size, run_opcode, run_case, run_fetched, step_thread,
}
use crex.Vm.Run.{run_on, run_thread}

-- The status for want of memory, where not every allocation succeeds.
abbrev pub IsShort : Type 0 → Status → Type 0
IsShort G e = (e ≡ nomem) × ¬ G

module _ (G : Type 0) where
  abbrev pub IsExcused : ThreadStatus → Type 0
  IsExcused ThreadStatus.e_nomem = ¬ G
  IsExcused _ = Unit

  abbrev pub Steps : Stepped → Type 0
  Steps = Ends (λ r. IsExcused r.0) (IsShort G)

  -- A block that is not given.
  abbrev pub IsGiven : Bool → Type 0
  IsGiven b = G → b ≡ true

  pub not_given : (b : Bool) → IsGiven b → b ≡ false → ¬ G
  not_given b h e g = let given = h g in cc

  taking-Steps : (okay : Bool) (m : Machine) → Steps (taking okay m)
  unfolding taking
  taking-Steps true m = with_value tt
  taking-Steps false m = with_value tt

  passing-Steps : (okay : Bool) (m : Machine) → Steps (passing okay m)
  unfolding passing
  passing-Steps true m = with_value tt
  passing-Steps false m = with_value tt

  test_class-Steps :
      (bitmap : Option Bitmap) (character : Option ℕ) (m : Machine)
      → Steps (test_class bitmap character m)
  unfolding test_class
  test_class-Steps none character m = with_undefined
  test_class-Steps (some bitmap) character m = taking-Steps _ m

  split_thread-Steps :
      (a : Bool) (target : ℕ) (m : Machine) → IsGiven a → Steps (split_thread a target m)
  unfolding split_thread
  split_thread-Steps true target m h = with_value tt
  split_thread-Steps false target m h = with_value (not_given false h refl)

  test_flag-Steps : (i : ℕ) (m : Machine) → Steps (test_flag i m)
  unfolding test_flag
  test_flag-Steps i m = if_both Steps _ (passing-Steps _ _) with_undefined

  module _ (program : Program) (str : ℕ) (character prev_character : Option ℕ) where
    run_case-Steps :
        (alloc : Bool) (op : Option Opcode) (i : ℕ) (m : Machine)
        → IsGiven alloc
        → Steps (run_case program alloc str character prev_character op i m)
    unfolding run_case run_opcode
    run_case-Steps alloc none i m h = with_undefined
    run_case-Steps alloc (some Opcode.character) i m h = taking-Steps _ m
    run_case-Steps alloc (some Opcode.char_class) i m h = test_class-Steps _ character m
    run_case-Steps alloc (some Opcode.builtin_char_class) i m h = test_class-Steps _ character m
    run_case-Steps alloc (some Opcode.split_passive) i m h = split_thread-Steps alloc _ m h
    run_case-Steps alloc (some Opcode.split_eager) i m h = split_thread-Steps alloc _ _ h
    run_case-Steps alloc (some Opcode.split_backwards_passive) i m h =
        split_thread-Steps alloc _ m h
    run_case-Steps alloc (some Opcode.split_backwards_eager) i m h = split_thread-Steps alloc _ _ h
    run_case-Steps alloc (some Opcode.test_and_set_flag) i m h = test_flag-Steps i m
    run_case-Steps alloc (some Opcode.jump) i m h =
        passing-Steps true (jump_to (add_size m.thread.instr_pointer i) m)
    run_case-Steps alloc (some Opcode.write_pointer) i m h =
        passing-Steps true (write_pointer i str m)
    run_case-Steps alloc (some _) i m h = passing-Steps _ m

    run_fetched-Steps :
        (alloc : Bool) (rest : List ℕ) (f : Option Fetched) (m : Machine)
        → IsGiven alloc
        → Steps (run_fetched program alloc str character prev_character rest f m)
    unfolding run_fetched
    run_fetched-Steps alloc rest none m h = with_undefined
    run_fetched-Steps alloc rest (some f) m h =
        if_both Steps (ltb (length rest) (f.next)) with_undefined
          (run_case-Steps alloc _ (f.operand) _ h)

    step_thread-Steps :
        (alloc : Bool) (m : Machine)
        → IsGiven alloc
        → Steps (step_thread program alloc str character prev_character m)
    unfolding step_thread
    step_thread-Steps alloc m h =
        run_fetched-Steps alloc (drop m.thread.instr_pointer program.code) _ m h

    run_on-Steps :
        (again : Machine → Stepped) (s : ThreadStatus) (m : Machine)
        → IsExcused s
        → Steps (again m)
        → Steps (run_on again s m)
    unfolding run_on
    run_on-Steps again ThreadStatus.continue m e h = h
    run_on-Steps again ThreadStatus.rejected m e h = with_value tt
    run_on-Steps again ThreadStatus.matched m e h = with_value tt
    run_on-Steps again ThreadStatus.done m e h = with_value tt
    run_on-Steps again ThreadStatus.e_nomem m e h = with_value e

    pub run_thread-Steps :
        (alloc : ℕ → Bool) (fuel : ℕ) (m : Machine)
        → ((i : ℕ) → IsGiven (alloc i))
        → Steps (run_thread program alloc str character prev_character fuel m)
    unfolding run_thread
    run_thread-Steps alloc zero m h = with_no_fuel
    run_thread-Steps alloc (suc fuel) m h =
        go (λ m'. run_thread-Steps alloc fuel m' h) (m.thread.instr_pointer == length program.code)
      where
        go :
            ((m' : Machine) → Steps (run_thread program alloc str character prev_character fuel m'))
            → (t : Bool)
            → Steps (elim t [
              | true ↦ ok (ThreadStatus.matched, m)
              | false ↦
                  step_thread program (alloc fuel) str character prev_character m
                  >>= λ (status, m').
                      run_on
                        (λ m''. run_thread program alloc str character prev_character fuel m'')
                        status
                        m'
            ])
        go ih true = with_value tt
        go ih false =
            Ends-bind (step_thread-Steps (alloc fuel) m (h fuel))
              (λ r e. run_on-Steps _ r.0 r.1 e (ih r.1))
