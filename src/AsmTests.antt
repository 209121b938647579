-- ===== src/AsmTests.antt =====
-- The theorems on machine code at concrete inputs.
use crex.Assembler.Labels.{finalize_assembler}
use crex.Assembler.Labels.Spans.{AllShorter}
use crex.Assembler.Labels.Pass.{resolve_assembler_labels-AllShorter}
use crex.Base.{
  ℕ, zero, suc, ◌≡◌, ◌≢◌, refl, subst, ◌∙◌, true, false, none, some, [], ◌∷◌, replicate, get_elem?,
  arith,
}
use crex.Status.{ok, Yields, Ensures}
use crex.X64.{Memory, memory, Immediate, encode_mod_reg_rm_m, indirect_reg, r12}
use crex.X64.Decode.{read_operand}
use crex.X64.Bits.{positive}
use crex.X64.RoundTrip.{IsMemory}
use crex.X64.Whole.{
  opcode, addressable, IsReadBack, encode_instruction-read, encode_mod_reg_rm_m_unreadable,
}
use crex.Assembler.{
  UseType, LabelUse, Assembler, Mapped, create_assembler, create_label, jmp_label, emit_instruction,
  define_label, use_label, reserve_assembler_space, grow_assembler, push_label_use, write_at,
}
use crex.Assembler.Room.{IsSound}
use crex.Assembler.Emission.{Emitted, Emitted-IsSound, created, instruction, label, jumped, defined}
use crex.Assembler.Labels.{resolve_assembler_labels}
use crex.Assembler.Labels.Layout.{Defined}
use crex.Assembler.Correct.{IsComplete, IsFinal, Emitted-IsFinal}

-- `jmp label; ret; label:`, step by step.
abbrev one_label : Assembler
one_label = record {
  size = 0;
  capacity = 0;
  code = [];
  n_labels = 1;
  uses = [];
  uses_capacity = 0;
  page_size = 16;
}

abbrev jump_use : LabelUse
jump_use = record {
  type = UseType.jmp;
  reg = 0;
  is_short = false;
  jcc_type = 0;
  offset = 0;
  label = 0;
}

abbrev definition_use : LabelUse
definition_use = record {
  type = UseType.definition;
  reg = 0;
  is_short = false;
  jcc_type = 0;
  offset = 6;
  label = 0;
}

abbrev with_jump : Assembler
with_jump = record {
  size = 5;
  capacity = 16;
  code = replicate 16 0;
  n_labels = 1;
  uses = jump_use ∷ [];
  uses_capacity = 4;
  page_size = 16;
}

abbrev with_return : Assembler
with_return = record with_jump { size = 6; code = 0 ∷ 0 ∷ 0 ∷ 0 ∷ 0 ∷ 0xc3 ∷ replicate 10 0 }

abbrev with_label : Assembler
with_label = record with_return { uses = jump_use ∷ definition_use ∷ [] }

one_label_lem : (create_label (create_assembler 16)).1 ≡ one_label
unfolding create_label create_assembler
one_label_lem = refl

with_jump_lem : jmp_label Mapped.adjacent true one_label 0 ≡ ok with_jump
unfolding jmp_label use_label reserve_assembler_space grow_assembler push_label_use
with_jump_lem = refl

with_return_lem : emit_instruction Mapped.failed with_jump 1 (0xc3 ∷ []) ≡ ok with_return
unfolding emit_instruction reserve_assembler_space write_at
with_return_lem = refl

with_label_lem : define_label true with_return 0 ≡ ok with_label
unfolding define_label push_label_use
with_label_lem = refl

with_label-Emitted : Emitted 16 with_label
with_label-Emitted =
    defined true 0
      (instruction Mapped.failed 1 (0xc3 ∷ [])
        (jumped Mapped.adjacent true 0 (label created one_label_lem) (omega arith) with_jump_lem)
        (omega arith) (omega arith) with_return_lem)
      (omega arith) with_label_lem

jmp_apart : UseType.jmp ≢ UseType.definition
jmp_apart e = cc

the_definition : Defined with_label.uses 1 0
the_definition = record {
  definition = definition_use;
  is_definition = record { found = refl; defines = refl; labelled = refl };
}

with_label-Defined :
    (i : ℕ) (u : LabelUse)
    → get_elem? with_label.uses i ≡ some u
    → Defined with_label.uses 1 u.label
with_label-Defined zero u e =
    let same_use : jump_use ≡ u = cc in
    subst (λ (v : LabelUse). Defined with_label.uses 1 v.label) same_use the_definition
with_label-Defined (suc zero) u e =
    let same_use : definition_use ≡ u = cc in
    subst (λ (v : LabelUse). Defined with_label.uses 1 v.label) same_use the_definition
with_label-Defined (suc (suc i)) u e = absurd cc

with_label-once :
    (i : ℕ) (u : LabelUse)
    → get_elem? with_label.uses i ≡ some u
    → u.type ≡ UseType.definition
    → 1 ≡ i
with_label-once zero u e t =
    let same_type : UseType.jmp ≡ u.type = cc in absurd (jmp_apart (same_type ∙ t))
with_label-once (suc zero) u e t = refl
with_label-once (suc (suc i)) u e t = absurd cc

with_label-IsComplete : IsComplete with_label.uses (λ _. 1)
with_label-IsComplete = record { defined = with_label-Defined; once = with_label-once }

Emitted-IsSound_example : IsSound with_label
Emitted-IsSound_example = Emitted-IsSound 16 with_label (λ _. omega arith) with_label-Emitted

Emitted-IsFinal_example :
    Yields (IsFinal with_label (λ _. 1)) (finalize_assembler true true (λ _. 7) with_label)
Emitted-IsFinal_example =
    Emitted-IsFinal 16 with_label (λ _. 7) (λ _. 1) (λ _. omega arith) with_label-Emitted
      with_label-IsComplete (omega arith) (omega arith)

resolve_assembler_labels-AllShorter_example :
    Ensures
      (λ (asm' : Assembler). AllShorter with_label.uses asm'.uses)
      (resolve_assembler_labels true (λ _. 7) with_label)
resolve_assembler_labels-AllShorter_example =
    resolve_assembler_labels-AllShorter true (λ _. 7) with_label

-- `mov rax, [rbp + r9 * 4]`, which needs a SIB byte and a displacement of zero.
abbrev indexed : Memory
indexed = record {
  rip_relative = false;
  base = 5;
  has_index = true;
  scale = 2;
  index = 9;
  displacement = 0;
}

abbrev no_immediate : Immediate
no_immediate = record { is_unsigned = false; value = 0; size = 0 }

indexed-IsMemory : IsMemory indexed
indexed-IsMemory = record {
  base = omega arith;
  scale = omega arith;
  index = omega arith;
  not_rsp = λ e. omega arith;
  displacement = positive (omega arith);
  not_r12 = λ e f. omega arith;
}

encode_instruction-read_example :
    IsReadBack false false 1 (0x8b ∷ []) false 0 no_immediate (0xc3 ∷ []) (memory indexed)
encode_instruction-read_example =
    encode_instruction-read false false 1 (0x8b ∷ []) false 0 no_immediate (0xc3 ∷ []) (omega arith)
      (opcode (omega arith)) (omega arith) (λ e. absurd cc) (λ e. absurd cc) (memory indexed)
      (addressable indexed-IsMemory)

encode_mod_reg_rm_m_unreadable_example :
    read_operand 0 0 1 (encode_mod_reg_rm_m 2 (indirect_reg r12 8)) ≡ none
encode_mod_reg_rm_m_unreadable_example = encode_mod_reg_rm_m_unreadable 2 8 (omega arith)
