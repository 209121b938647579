-- ===== src/Bytecode/Limits.antt =====
-- The operands that `step_thread` of src/vm.c uses as an index without a test.
use crex.Base.{ℕ}
use crex.Bytecode.{Opcode}

-- The indices that are allowed.
pub record Limits : Type 1 where
  pub classes : ℕ → Type 0
  pub builtins : ℕ → Type 0
  pub flags : ℕ → Type 0

abbrev pub Within : Limits → Opcode → ℕ → Type 0
Within limits Opcode.char_class n = limits.classes n
Within limits Opcode.builtin_char_class n = limits.builtins n
Within limits Opcode.test_and_set_flag n = limits.flags n
Within limits _ n = Unit
