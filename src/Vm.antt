-- ===== src/Vm.antt =====
-- The machine of src/vm.c: `step_thread`, which runs one instruction of a thread. The threads that
-- are linked behind the running one by `NEXT` are a list in that order. The flag `alloc` says
-- whether `vm_alloc` gives a block, should the step ask for one.
pub mod Step
pub mod Moves
pub mod Threads
pub mod Run
pub mod Match
use crex.Base.{
  ℕ, ◌+◌, ◌-◌, ◌*◌, ◌/◌, ◌%◌, ◌^◌, Bool, true, false, not, xor, ◌&&◌, ◌||◌, Option, none, some,
  List, [], ◌∷◌, drop, length, get_elem?, set, ltb, ◌==◌, if◌then◌else◌,
}
use crex.Bitmap.{Bitmap, bitmap_test, bitmap_test_and_set}
use crex.CharClass.{builtin_classes, bcc_word, builtin_class}
use crex.Status.{Result, ok, undefined}
use crex.Bytecode.{Opcode, Fetched, fetch}

-- A position of the subject, or `NULL`.
abbrev pub Pointer : Type 0
Pointer = Option ℕ

-- `INSTR_POINTER` and `POINTER_BUFFER` of a thread.
pub record Thread : Type 0 where
  pub instr_pointer : ℕ
  pub pointers : List Pointer

-- What does not change while the machine runs.
pub record Program : Type 0 where
  pub code : List ℕ
  pub classes : List Bitmap

-- The running thread, the threads behind it, and the flags.
pub record Machine : Type 0 where
  pub thread : Thread
  pub successors : List Thread
  pub flags : Bitmap

-- `thread_status_t`, of which `TS_MATCHED` is given by the caller only.
pub data ThreadStatus : Type 0 where
  continue rejected matched done e_nomem : ThreadStatus

abbrev pub Stepped : Type 0
Stepped = Result (ThreadStatus × Machine)

-- The additions and subtractions of `size_t`.
abbrev pub add_size : ℕ → ℕ → ℕ
add_size a b = (a + b) % 2 ^ 64

abbrev pub sub_size : ℕ → ℕ → ℕ
sub_size a b = (a + (2 ^ 64 - b)) % 2 ^ 64

-- `(size_t)character == operand`; `none` is -1.
unfoldable pub is_character : Option ℕ → ℕ → Bool
is_character none operand = (2 ^ 64 - 1) == operand
is_character (some c) operand = c == operand

-- `character != -1 && bitmap_test(bitmap, character)`
unfoldable pub in_class : Bitmap → Option ℕ → Bool
in_class bitmap none = false
in_class bitmap (some c) = bitmap_test bitmap c

-- The results of an okay and of a failed test: `TS_DONE` takes the character, `TS_CONTINUE` does not.
unfoldable pub taking : Bool → Machine → Stepped
taking okay m = ok (if okay then ThreadStatus.done else ThreadStatus.rejected, m)

unfoldable pub passing : Bool → Machine → Stepped
passing okay m = ok (if okay then ThreadStatus.continue else ThreadStatus.rejected, m)

-- The test of a class of an array, which is out of bounds with `none`.
unfoldable pub test_class : Option Bitmap → Option ℕ → Machine → Stepped
unfolding taking in_class
test_class none character m = undefined
test_class (some bitmap) character m = taking (in_class bitmap character) m

unfoldable pub is_newline : Option ℕ → Bool
is_newline none = false
is_newline (some c) = c == b'\n'

unfoldable pub is_end : Option ℕ → Bool
is_end none = true
is_end (some _) = false

-- The opcodes by their values; the switch has no other case.
unfoldable pub opcodes : List Opcode
opcodes =
    Opcode.character ∷ Opcode.char_class ∷ Opcode.builtin_char_class ∷ Opcode.anchor_bof
    ∷ Opcode.anchor_bol ∷ Opcode.anchor_eof ∷ Opcode.anchor_eol ∷ Opcode.anchor_word_boundary
    ∷ Opcode.anchor_not_word_boundary ∷ Opcode.jump ∷ Opcode.split_passive ∷ Opcode.split_eager
    ∷ Opcode.split_backwards_passive ∷ Opcode.split_backwards_eager ∷ Opcode.write_pointer
    ∷ Opcode.test_and_set_flag ∷ []

-- `case VM_ANCHOR_WORD_BOUNDARY`; the flag is set for `VM_ANCHOR_NOT_WORD_BOUNDARY`.
unfoldable pub at_boundary : Bool → Option ℕ → Option ℕ → Bool
unfolding in_class
at_boundary negated character prev_character =
    xor
      (xor (in_class (builtin_class bcc_word) prev_character)
        (in_class (builtin_class bcc_word) character))
      negated

abbrev pub jump_to : ℕ → Machine → Machine
jump_to target m = record m { thread = record (m.thread) { instr_pointer = target } }

-- `split_thread`: a copy of the running thread, right behind it.
unfoldable pub split_thread : Bool → ℕ → Machine → Stepped
split_thread true split_pointer m = ok (
  ThreadStatus.continue,
  record m { successors = record (m.thread) { instr_pointer = split_pointer } ∷ m.successors },
)
split_thread false split_pointer m = ok (ThreadStatus.e_nomem, m)

-- `case VM_WRITE_POINTER`
unfoldable pub write_pointer : ℕ → ℕ → Machine → Machine
write_pointer operand str m =
    if ltb operand (length (m.thread.pointers))
    then record m {
      thread = record (m.thread) { pointers = set (m.thread.pointers) operand (some str) };
    }
    else m

-- `case VM_TEST_AND_SET_FLAG`; the flags of the program are within the bitmap.
unfoldable pub test_flag : ℕ → Machine → Stepped
unfolding passing
test_flag operand m =
    let (old, flags) = bitmap_test_and_set (m.flags) operand in
    if ltb (operand / 8) (length (m.flags))
    then passing (not old) (record m { flags = flags })
    else undefined

-- The switch of `step_thread`; the instruction pointer is already behind the instruction.
module _ (program : Program) (alloc : Bool) (str : ℕ) (character prev_character : Option ℕ) where
  unfoldable pub run_opcode : Opcode → ℕ → Machine → Stepped
  unfolding taking passing test_class is_newline is_end at_boundary split_thread write_pointer
      test_flag
  run_opcode Opcode.character n m = taking (is_character character n) m
  run_opcode Opcode.char_class n m = test_class (get_elem? (program.classes) n) character m
  run_opcode Opcode.builtin_char_class n m = test_class (get_elem? builtin_classes n) character m
  run_opcode Opcode.anchor_bof n m = passing (is_end prev_character) m
  run_opcode Opcode.anchor_bol n m = passing (is_end prev_character || is_newline prev_character) m
  run_opcode Opcode.anchor_eof n m = passing (is_end character) m
  run_opcode Opcode.anchor_eol n m = passing (is_end character || is_newline character) m
  run_opcode Opcode.anchor_word_boundary n m =
      passing (at_boundary false character prev_character) m
  run_opcode Opcode.anchor_not_word_boundary n m =
      passing (at_boundary true character prev_character) m
  run_opcode Opcode.jump n m = passing true (jump_to (add_size (m.thread.instr_pointer) n) m)
  run_opcode Opcode.split_passive n m = split_thread alloc (add_size (m.thread.instr_pointer) n) m
  run_opcode Opcode.split_eager n m =
      split_thread alloc (m.thread.instr_pointer) (jump_to (add_size (m.thread.instr_pointer) n) m)
  run_opcode Opcode.split_backwards_passive n m =
      split_thread alloc (sub_size (m.thread.instr_pointer) n) m
  run_opcode Opcode.split_backwards_eager n m =
      split_thread alloc (m.thread.instr_pointer) (jump_to (sub_size (m.thread.instr_pointer) n) m)
  run_opcode Opcode.write_pointer n m = passing true (write_pointer n str m)
  run_opcode Opcode.test_and_set_flag n m = test_flag n m

  unfoldable pub run_case : Option Opcode → ℕ → Machine → Stepped
  unfolding run_opcode
  run_case none n m = undefined
  run_case (some op) n m = run_opcode op n m

  -- Behind the fetch from the rest of the code; an operand past its end is out of bounds.
  unfoldable pub run_fetched : List ℕ → Option Fetched → Machine → Stepped
  unfolding run_case opcodes
  run_fetched rest none m = undefined
  run_fetched rest (some f) m =
      if ltb (length rest) (f.next)
      then undefined
      else run_case (get_elem? opcodes (f.opcode)) (f.operand)
          (jump_to (m.thread.instr_pointer + f.next) m)

  unfoldable pub step_thread : Machine → Stepped
  unfolding run_fetched fetch
  step_thread m =
      let rest = drop (m.thread.instr_pointer) (program.code) in run_fetched rest (fetch rest) m
