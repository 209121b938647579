-- ===== src/Bytecode.antt =====
-- The instructions of src/vm.h, `emit_bytecode` of src/bytecode-compiler.c, which writes one, and
-- the head of `step_thread` of src/vm.c, which reads one back.
pub mod Fetch
pub mod Limits
use crex.Base.{ℕ, ◌+◌, ◌*◌, ◌/◌, ◌%◌, List, [], ◌∷◌, bit_or, drop, Option, none, some}
use crex.Serialization.{serialize_operand, deserialize_operand}

pub data Opcode : Type 0 where
  character char_class builtin_char_class : Opcode
  anchor_bof anchor_bol anchor_eof anchor_eol : Opcode
  anchor_word_boundary anchor_not_word_boundary : Opcode
  jump split_passive split_eager split_backwards_passive split_backwards_eager : Opcode
  write_pointer test_and_set_flag : Opcode

-- The values of the enumeration.
unfoldable pub code_of : Opcode → ℕ
code_of character = 0
code_of char_class = 1
code_of builtin_char_class = 2
code_of anchor_bof = 3
code_of anchor_bol = 4
code_of anchor_eof = 5
code_of anchor_eol = 6
code_of anchor_word_boundary = 7
code_of anchor_not_word_boundary = 8
code_of jump = 9
code_of split_passive = 10
code_of split_eager = 11
code_of split_backwards_passive = 12
code_of split_backwards_eager = 13
code_of write_pointer = 14
code_of test_and_set_flag = 15

-- `VM_OPCODE` and `VM_OPERAND_SIZE`: the low five bits of a byte and the others.
abbrev pub vm_opcode : ℕ → ℕ
vm_opcode byte = byte % 32

abbrev pub vm_operand_size : ℕ → ℕ
vm_operand_size byte = byte / 32

-- An opcode, the size of its operand in the upper bits, and the operand.
unfoldable pub emit_bytecode : ℕ → ℕ → ℕ → List ℕ
emit_bytecode opcode operand operand_size =
    (bit_or opcode (operand_size * 32) % 256) ∷ serialize_operand operand operand_size

-- The opcode and the operand of the instruction that begins here, and the address behind it,
-- counted from here.
pub record Fetched : Type 0 where
  pub opcode : ℕ
  pub operand : ℕ
  pub next : ℕ

-- The head of `step_thread`; `none` at the end of the code.
unfoldable pub fetch : List ℕ → Option Fetched
fetch [] = none
fetch (byte ∷ code) = some (record {
  opcode = vm_opcode byte;
  operand = deserialize_operand code (vm_operand_size byte);
  next = 1 + vm_operand_size byte;
})
