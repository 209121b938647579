-- ===== src/Vm/Step.antt =====
-- One step of the machine of src/vm.c on the code that src/bytecode-compiler.c emits.
use crex.Base.{
  ℕ, ◌+◌, ◌-◌, ◌^◌, ◌≤◌, ◌<◌, ◌≡◌, refl, ◌∙◌, Bool, true, false, if◌then◌else◌, xor, ◌||◌, Option,
  none, some, List, [], ◌∷◌, ◌++◌, drop, length, length-append, get_elem?, ltb, arith,
}
use crex.Serialization.RoundTrip.{IsSize}
use crex.Ctype.{is_word}
use crex.CharClass.{bcc_word, builtin_class}
use crex.CharClass.Meaning.{describes, builtin_class-describes}
use crex.Status.{ok}
use crex.Bytecode.{Opcode, code_of, emit_bytecode}
use crex.Bytecode.Fetch.{length-emit_bytecode, fetch-emit_bytecode}
use crex.Vm.{
  Thread, Program, Machine, ThreadStatus, in_class, opcodes, at_boundary, jump_to, split_thread,
  run_opcode, run_case, run_fetched, step_thread, add_size, sub_size,
}

pub drop-append : (before rest : List ℕ) → drop (length before) (before ++ rest) ≡ rest
drop-append [] rest = refl
drop-append (b ∷ before) rest = drop-append before rest

pub opcode_at : (op : Opcode) → get_elem? opcodes (code_of op) ≡ some op
unfolding opcodes code_of
opcode_at Opcode.character = refl
opcode_at Opcode.char_class = refl
opcode_at Opcode.builtin_char_class = refl
opcode_at Opcode.anchor_bof = refl
opcode_at Opcode.anchor_bol = refl
opcode_at Opcode.anchor_eof = refl
opcode_at Opcode.anchor_eol = refl
opcode_at Opcode.anchor_word_boundary = refl
opcode_at Opcode.anchor_not_word_boundary = refl
opcode_at Opcode.jump = refl
opcode_at Opcode.split_passive = refl
opcode_at Opcode.split_eager = refl
opcode_at Opcode.split_backwards_passive = refl
opcode_at Opcode.split_backwards_eager = refl
opcode_at Opcode.write_pointer = refl
opcode_at Opcode.test_and_set_flag = refl

-- A step at an instruction that the compiler emitted, wherever it stands in the code, runs the
-- instruction's opcode on its operand, with the instruction pointer behind the instruction. The
-- operand has to fit its size.
pub step_thread-emit_bytecode :
    (program : Program) (alloc : Bool) (str : ℕ) (character prev_character : Option ℕ) (m : Machine)
    (before after : List ℕ) (op : Opcode) (n s : ℕ)
    → IsSize s
    → n < 256 ^ s
    → program.code ≡ before ++ (emit_bytecode (code_of op) n s ++ after)
    → m.thread.instr_pointer ≡ length before
    → step_thread program alloc str character prev_character m
      ≡ run_opcode program alloc str character prev_character op n
          (jump_to (length before + (1 + s)) m)
unfolding step_thread run_fetched run_case
step_thread-emit_bytecode program alloc str character prev_character m before after op n s k h code
      at =
    let instruction = emit_bytecode (code_of op) n s ++ after in
    let inside : ltb (length instruction) (1 + s) ≡ false = ground (
      arith,
      length-append (emit_bytecode (code_of op) n s) after,
      length-emit_bytecode (code_of op) n s k,
    ) in
    rw
      (
        code,
        at,
        drop-append before instruction,
        fetch-emit_bytecode op n s after k h,
        inside,
        opcode_at op,
      )
      refl

-- Whether a character is one of a word; the end of the subject is not.
pub is_word_at : Option ℕ → Bool
is_word_at none = false
is_word_at (some c) = is_word c

-- A character of the subject, or its end.
abbrev pub IsCharacter : Option ℕ → Type 0
IsCharacter none = Unit
IsCharacter (some c) = c < 256

-- The description of one class, with what those behind it add.
alone : (b : Bool) → (b || false || false || false || false || false) ≡ b
alone true = refl
alone false = refl

in_class-word : (c : Option ℕ) → IsCharacter c → in_class (builtin_class bcc_word) c ≡ is_word_at c
unfolding in_class is_word_at describes
in_class-word none h = refl
in_class-word (some c) h = builtin_class-describes bcc_word c (omega arith) h ∙ alone (is_word c)

-- The word-boundary anchor, which looks both characters up in the table of classes, holds where
-- exactly one of the two is a letter, a digit or `_`; its negation holds elsewhere.
pub at_boundary-is_word :
    (negated : Bool) (character prev_character : Option ℕ)
    → IsCharacter character
    → IsCharacter prev_character
    → at_boundary negated character prev_character
      ≡ xor (xor (is_word_at prev_character) (is_word_at character)) negated
unfolding at_boundary
at_boundary-is_word negated character prev_character h k =
    rw (in_class-word character h, in_class-word prev_character k) refl

-- The instructions that split a thread, with an operand, behind which this address stands. A
-- backwards split leads to no address below 0.
pub data IsSplit (n next : ℕ) : Opcode → Type 0 where
  passive : IsSplit n next Opcode.split_passive
  eager : IsSplit n next Opcode.split_eager
  backwards_passive : n ≤ next → IsSplit n next Opcode.split_backwards_passive
  backwards_eager : n ≤ next → IsSplit n next Opcode.split_backwards_eager

-- Where a split's threads go on, in the order of their priority, from behind the instruction.
pub split_targets : Opcode → ℕ → ℕ → List ℕ
split_targets Opcode.split_passive n next = next ∷ (next + n) ∷ []
split_targets Opcode.split_eager n next = (next + n) ∷ next ∷ []
split_targets Opcode.split_backwards_passive n next = next ∷ (next - n) ∷ []
split_targets Opcode.split_backwards_eager n next = (next - n) ∷ next ∷ []
split_targets _ n next = []

-- These threads, one behind the other, at these addresses and else as `t`.
pub threads_at : Thread → List ℕ → List Thread
threads_at t [] = []
threads_at t (target ∷ targets) = record t { instr_pointer = target } ∷ threads_at t targets

-- Where a block is given, a split puts two threads in the place of the running one, the first of which
-- goes on running. They differ in their addresses only, and stand before all other threads, in the
-- order of their priority. Where none is given, the step reports that there is no memory, and no thread
-- is added. The flags are left alone. The operand has at most 32 bits, the address behind the instruction
-- is below 2 ^ 63, and a backwards split leads to no address below 0.
pub run_opcode-IsSplit :
    (program : Program) (alloc : Bool) (str : ℕ) (character prev_character : Option ℕ) (m : Machine)
    (op : Opcode) (n : ℕ)
    → IsSplit n (m.thread.instr_pointer) op
    → n < 2 ^ 32
    → m.thread.instr_pointer < 2 ^ 63
    → (m' : Machine) × (run_opcode program alloc str character prev_character op n m
        ≡ ok (if alloc then ThreadStatus.continue else ThreadStatus.e_nomem, m'))
      × ((if alloc then m'.thread ∷ m'.successors else m'.successors) ≡ (
          if alloc
          then threads_at (m.thread) (split_targets op n (m.thread.instr_pointer)) ++ m.successors
          else m.successors))
      × (m'.flags ≡ m.flags)
unfolding run_opcode split_thread threads_at split_targets
run_opcode-IsSplit program true str character prev_character m _ n passive h bound =
    let target : add_size (m.thread.instr_pointer) n ≡ m.thread.instr_pointer + n = omega arith in
    (_, refl, rw target refl, refl)
run_opcode-IsSplit program false str character prev_character m _ n passive h bound =
    (_, refl, refl, refl)
run_opcode-IsSplit program true str character prev_character m _ n eager h bound =
    let target : add_size (m.thread.instr_pointer) n ≡ m.thread.instr_pointer + n = omega arith in
    (_, refl, rw target refl, refl)
run_opcode-IsSplit program false str character prev_character m _ n eager h bound =
    (_, refl, refl, refl)
run_opcode-IsSplit program true str character prev_character m _ n (backwards_passive k) h bound =
    let target : sub_size (m.thread.instr_pointer) n ≡ m.thread.instr_pointer - n = omega arith in
    (_, refl, rw target refl, refl)
run_opcode-IsSplit program false str character prev_character m _ n (backwards_passive k) h bound =
    (_, refl, refl, refl)
run_opcode-IsSplit program true str character prev_character m _ n (backwards_eager k) h bound =
    let target : sub_size (m.thread.instr_pointer) n ≡ m.thread.instr_pointer - n = omega arith in
    (_, refl, rw target refl, refl)
run_opcode-IsSplit program false str character prev_character m _ n (backwards_eager k) h bound =
    (_, refl, refl, refl)
