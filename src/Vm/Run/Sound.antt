-- ===== src/Vm/Run/Sound.antt =====
-- What `step_thread` of src/vm.c relies on so that it stays within its arrays.
use crex.Base.{
  zero, suc, ◌∷◌, ℕ, ◌/◌, ◌≤◌, ◌<◌, ◌≡◌, Bool, true, false, Option, some, List, [], length, drop,
  get_elem?, arith, ltb,
}
use crex.Bitmap.{Bitmap}
use crex.CharClass.{builtin_classes}
use crex.Status.{IsDefined, value}
use crex.Bytecode.{Opcode, Fetched, fetch}
use crex.Bytecode.Limits.{Limits, Within}
use crex.Vm.{
  Program, Machine, opcodes, taking, passing, test_class, split_thread, test_flag, jump_to,
  run_opcode, run_case, run_fetched, step_thread,
}

-- The indices that a program has, with so many bytes of flags.
abbrev pub limits_of : Program → ℕ → Limits
limits_of program size = record {
  classes = λ n. n < length program.classes;
  builtins = λ n. n < length builtin_classes;
  flags = λ n. n / 8 < size;
}

-- An instruction lies within the rest of the code, and its operand within the limits.
pub record IsInstr (limits : Limits) (rest : List ℕ) : Type 0 where
  pub fetched : Fetched
  pub opcode : Opcode
  pub is_fetched : fetch rest ≡ some fetched
  pub inside : fetched.next ≤ length rest
  pub is_opcode : get_elem? opcodes fetched.opcode ≡ some opcode
  pub within : Within limits opcode fetched.operand

-- Instructions start within the code, and each of them is one.
pub record IsSound (program : Program) (starts : ℕ → Bool) (size : ℕ) : Type 0 where
  pub ahead : (a : ℕ) → starts a ≡ true → a ≤ length program.code
  pub instrs :
      (a : ℕ)
      → starts a ≡ true
      → a < length program.code
      → IsInstr (limits_of program size) (drop a program.code)

test_class-IsDefined :
    (classes : List Bitmap) (n : ℕ) (character : Option ℕ) (m : Machine)
    → n < length classes
    → IsDefined (test_class (get_elem? classes n) character m)
unfolding test_class taking
test_class-IsDefined [] n character m h = absurd (omega arith)
test_class-IsDefined (c ∷ classes) zero character m h = value
test_class-IsDefined (c ∷ classes) (suc n) character m h =
    test_class-IsDefined classes n character m (omega arith)

split_thread-IsDefined :
    (alloc : Bool) (target : ℕ) (m : Machine) → IsDefined (split_thread alloc target m)
unfolding split_thread
split_thread-IsDefined true target m = value
split_thread-IsDefined false target m = value

module _ (program : Program) (alloc : Bool) (str : ℕ) (character prev_character : Option ℕ)
    (size : ℕ) where
  run_opcode-IsDefined :
      (op : Opcode) (n : ℕ) (m : Machine)
      → Within (limits_of program size) op n
      → length m.flags ≡ size
      → IsDefined (run_opcode program alloc str character prev_character op n m)
  unfolding run_opcode taking passing test_flag
  run_opcode-IsDefined Opcode.char_class n m h e =
      test_class-IsDefined program.classes n character m h
  run_opcode-IsDefined Opcode.builtin_char_class n m h e =
      test_class-IsDefined builtin_classes n character m h
  run_opcode-IsDefined Opcode.split_passive n m h e = split_thread-IsDefined alloc _ m
  run_opcode-IsDefined Opcode.split_eager n m h e = split_thread-IsDefined alloc _ _
  run_opcode-IsDefined Opcode.split_backwards_passive n m h e = split_thread-IsDefined alloc _ m
  run_opcode-IsDefined Opcode.split_backwards_eager n m h e = split_thread-IsDefined alloc _ _
  run_opcode-IsDefined Opcode.test_and_set_flag n m h e =
      let below : ltb (n / 8) (length m.flags) ≡ true = ground arith in rw below value
  run_opcode-IsDefined _ n m h e = value

  run_fetched-IsDefined :
      (rest : List ℕ) (m : Machine)
      → IsInstr (limits_of program size) rest
      → length m.flags ≡ size
      → IsDefined (run_fetched program alloc str character prev_character rest (fetch rest) m)
  unfolding run_fetched run_case
  run_fetched-IsDefined rest m i e =
      let fits : ltb (length rest) i.fetched.next ≡ false = ground (arith, i.inside) in
      rw i.is_fetched (
        rw fits (
          rw i.is_opcode
            (run_opcode-IsDefined i.opcode i.fetched.operand (jump_to _ m) i.within e)))

  -- A step at an instruction reads and writes nothing out of bounds.
  pub step_thread-IsDefined :
      (starts : ℕ → Bool) (m : Machine)
      → IsSound program starts size
      → starts m.thread.instr_pointer ≡ true
      → m.thread.instr_pointer < length program.code
      → length m.flags ≡ size
      → IsDefined (step_thread program alloc str character prev_character m)
  unfolding step_thread
  step_thread-IsDefined starts m s h l e =
      run_fetched-IsDefined (drop m.thread.instr_pointer program.code) m
        (s.instrs m.thread.instr_pointer h l) e
