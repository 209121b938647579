-- ===== src/Assembler.antt =====
-- src/assembler.c: a buffer of machine code that grows, and the uses of labels in it.
pub mod Labels
pub mod Writes
pub mod Room
pub mod Emission
pub mod Correct
use crex.Base.{
  ℕ, ◌+◌, ◌-◌, ◌*◌, ◌^◌, Bool, true, false, List, [], ◌∷◌, ◌++◌, length, replicate, set, take, drop,
  ltb, ◌==◌, if◌then◌else◌,
}
use crex.Status.{Result, ok, err, undefined, ◌>>=◌, nomem}

-- `label_use_type_t`
pub data UseType : Type 0 where
  call definition jcc jmp lea : UseType

-- `label_use_t`
pub record LabelUse : Type 0 where
  pub type : UseType
  pub reg : ℕ
  pub is_short : Bool
  pub jcc_type : ℕ
  pub offset : ℕ
  pub label : ℕ

-- `assembler_t`, with the bytes of its mapping. The array of uses has room for `uses_capacity`.
pub record Assembler : Type 0 where
  pub size : ℕ
  pub capacity : ℕ
  pub code : List ℕ
  pub n_labels : ℕ
  pub uses : List LabelUse
  pub uses_capacity : ℕ
  pub page_size : ℕ

-- `create_assembler`, with what `sysconf` gives for the size of a page; `none` stands for no positive
-- number.
unfoldable pub create_assembler : ℕ → Assembler
create_assembler page_size = record {
  size = 0;
  capacity = 0;
  code = [];
  n_labels = 0;
  uses = [];
  uses_capacity = 0;
  page_size = if page_size == 0 then 4096 else page_size;
}

-- What the calls of `mmap` in `grow_assembler` give: nothing, a mapping behind the old one, one
-- elsewhere and then a new one, or one elsewhere and then nothing.
pub data Mapped : Type 0 where
  failed adjacent moved lost : Mapped

-- The bytes from a position on are written one by one.
unfoldable pub write_at : List ℕ → ℕ → List ℕ → List ℕ
write_at memory at [] = memory
write_at memory at (b ∷ bytes) = write_at (set memory at b) (at + 1) bytes

-- `grow_assembler`. The new pages are zero. A second call of `mmap` that fails is not noticed, since
-- the test is of the first: the code is then copied to no mapping.
unfoldable pub grow_assembler : Mapped → Assembler → Result Assembler
grow_assembler mapped asm =
    let capacity = 2 * asm.capacity + asm.page_size in
    elim mapped [
      | failed ↦ err nomem
      | adjacent ↦ ok (record asm {
        capacity = capacity;
        code = asm.code ++ replicate (capacity - asm.capacity) 0;
      })
      | moved ↦ ok (record asm {
        capacity = capacity;
        code = write_at (replicate capacity 0) 0 (take asm.size asm.code);
      })
      | lost ↦ undefined
    ]

-- `reserve_assembler_space`, which grows the buffer at most once.
unfoldable pub reserve_assembler_space : Mapped → Assembler → ℕ → Result Assembler
reserve_assembler_space mapped asm size =
    if ltb asm.capacity (asm.size + size) then grow_assembler mapped asm else ok asm

-- What a generated function does around the bytes of its instruction, for which it reserves so many.
unfoldable pub emit_instruction : Mapped → Assembler → ℕ → List ℕ → Result Assembler
emit_instruction mapped asm max_size bytes = reserve_assembler_space mapped asm max_size >>= λ asm'.
    ok (record asm' { code = write_at asm'.code asm'.size bytes; size = asm'.size + length bytes })

-- `create_label`: the label, and the assembler that counts it.
unfoldable pub create_label : Assembler → ℕ × Assembler
create_label asm = (asm.n_labels, record asm { n_labels = asm.n_labels + 1 })

-- `push_label_use`, with the use that the caller writes into the place. `room` says whether a larger
-- array is given.
unfoldable pub push_label_use : Bool → Assembler → LabelUse → Result Assembler
push_label_use room asm use_ =
    if length asm.uses == asm.uses_capacity
    then (if room
        then ok
            (record asm { uses = asm.uses ++ use_ ∷ []; uses_capacity = 2 * asm.uses_capacity + 4 })
        else err nomem)
    else ok (record asm { uses = asm.uses ++ use_ ∷ [] })

unfoldable pub define_label : Bool → Assembler → ℕ → Result Assembler
define_label room asm label = push_label_use room asm (record {
  type = UseType.definition;
  reg = 0;
  is_short = false;
  jcc_type = 0;
  offset = asm.size;
  label = label;
})

-- The common part of the functions that use a label in an instruction of so many bytes.
unfoldable pub use_label : Mapped → Bool → Assembler → ℕ → UseType → ℕ → ℕ → ℕ → Result Assembler
use_label mapped room asm size type reg jcc_type label =
    reserve_assembler_space mapped asm size >>= λ asm'.
    push_label_use room asm' (record {
      type = type;
      reg = reg;
      is_short = false;
      jcc_type = jcc_type;
      offset = asm'.size;
      label = label;
    })
    >>= λ asm''. ok (record asm'' { size = asm''.size + size })

unfoldable pub call_label : Mapped → Bool → Assembler → ℕ → Result Assembler
call_label mapped room asm label = use_label mapped room asm 5 UseType.call 0 0 label

unfoldable pub jmp_label : Mapped → Bool → Assembler → ℕ → Result Assembler
jmp_label mapped room asm label = use_label mapped room asm 5 UseType.jmp 0 0 label

unfoldable pub lea64_reg_label : Mapped → Bool → Assembler → ℕ → ℕ → Result Assembler
lea64_reg_label mapped room asm reg label = use_label mapped room asm 7 UseType.lea reg 0 label

unfoldable pub jcc_label : Mapped → Bool → Assembler → ℕ → ℕ → Result Assembler
jcc_label mapped room asm jcc_type label = use_label mapped room asm 6 UseType.jcc 0 jcc_type label
