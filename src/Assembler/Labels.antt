-- ===== src/Assembler/Labels.antt =====
-- `resolve_assembler_labels` of src/assembler.c: jumps are shortened in passes over the uses of
-- labels, and then the code is moved together and the instructions with labels are written into it.
pub mod Spans
pub mod Layout
pub mod Pass
pub mod Spots
pub mod Visit
pub mod Advance
pub mod Whole
pub mod Settled
pub mod Start
pub mod Moves
pub mod Jumps
pub mod Found
pub mod Reach
pub mod Resolve
use crex.Base.{
  ℕ, zero, suc, ◌+◌, ◌-◌, ◌*◌, ◌/◌, ◌%◌, ◌^◌, Bool, true, false, ◌||◌, Option, none, some, List, [],
  ◌∷◌, ◌++◌, length, get_elem?, set, take, drop, ltb, leb, ◌==◌, if◌then◌else◌,
}
use crex.Status.{Result, ok, err, undefined, out_of_fuel, ◌>>=◌, nomem}
use crex.Vm.{sub_size}
use crex.Vector.{fresh}
use crex.X64.{rbp, rex, mod_reg_rm, is_byte, copy_displacement}
use crex.Assembler.{UseType, LabelUse, Assembler, write_at}

-- `(long)difference <= bound`
unfoldable pub long_leb : ℕ → ℕ → Bool
long_leb difference bound = leb (2 ^ 63) difference || leb difference bound

-- `DISPLACEMENT_IS_REPRESENTABLE`
unfoldable pub is_representable : ℕ → ℕ → Bool
is_representable origin target =
    if leb origin target
    then long_leb (target - origin) 2147483647
    else long_leb (origin - target - 1) 2147483647

-- The first loop: the values of the labels are the offsets of their definitions.
unfoldable pub define_values : List ℕ → List LabelUse → List ℕ
define_values values [] = values
define_values values (u ∷ uses) = elim u.type [
  | UseType.definition ↦ define_values (set values u.label u.offset) uses
  | UseType.call ↦ define_values values uses
  | UseType.jcc ↦ define_values values uses
  | UseType.jmp ↦ define_values values uses
  | UseType.lea ↦ define_values values uses
]

-- A use, the shrinkage behind it, and the values of the labels.
abbrev pub Visited : Type 0
Visited = Result (LabelUse × (ℕ × List ℕ))

-- A branch that is not short yet, with the value of its label: it becomes short where its displacement
-- as a short branch has eight bits.
unfoldable pub shorten : ℕ → ℕ → List ℕ → LabelUse → ℕ → ℕ → Visited
shorten gain shrinkage values u origin target =
    let target' = if ltb origin target then target - gain else target in
    if is_representable origin target'
    then (if is_byte (sub_size target' origin)
        then ok (record u { is_short = true }, (shrinkage + gain, values))
        else ok (u, (shrinkage, values)))
    else err nomem

unfoldable pub shrink_branch : ℕ → ℕ → List ℕ → LabelUse → Visited
shrink_branch gain shrinkage values u =
    if u.is_short then ok (u, (shrinkage + gain, values)) else elim (get_elem? values u.label) [
      | none ↦ undefined
      | some target ↦ shorten gain shrinkage values u (sub_size u.offset shrinkage + 2) target
    ]

-- The switch on the type of a use, with the shrinkage before it.
unfoldable pub shrink_use : UseType → ℕ → List ℕ → LabelUse → Visited
shrink_use UseType.definition shrinkage values u = ok (
  u,
  (shrinkage, if shrinkage == 0 then values else set values u.label (sub_size u.offset shrinkage)),
)
shrink_use UseType.jcc shrinkage values u = shrink_branch 4 shrinkage values u
shrink_use UseType.jmp shrinkage values u = shrink_branch 3 shrinkage values u
shrink_use UseType.lea shrinkage values u = ok (u, (shrinkage, values))
shrink_use UseType.call shrinkage values u = ok (u, (shrinkage, values))

-- A pass over the uses: those behind it, with the shrinkage of all, and the values.
unfoldable pub shrink_pass : ℕ → List ℕ → List LabelUse → Result (List LabelUse × (ℕ × List ℕ))
shrink_pass shrinkage values [] = ok ([], (shrinkage, values))
shrink_pass shrinkage values (u ∷ uses) =
    shrink_use u.type shrinkage values u >>= λ (u', (shrinkage', values')).
    shrink_pass shrinkage' values' uses >>= λ (uses', r). ok (u' ∷ uses', r)

-- The passes, on fuel, until one yields nothing.
unfoldable pub shrink_loop : ℕ → ℕ → List ℕ → List LabelUse → Result (List LabelUse × List ℕ)
shrink_loop zero prev_shrinkage values uses = out_of_fuel
shrink_loop (suc fuel) prev_shrinkage values uses =
    shrink_pass 0 values uses >>= λ (uses', (shrinkage, values')).
    elim (shrinkage == prev_shrinkage) [
      | true ↦ ok (uses', values')
      | false ↦ shrink_loop fuel shrinkage values' uses'
    ]

-- The bytes that are reserved for a use, `reserved_size`.
unfoldable pub reserved_size : UseType → ℕ
reserved_size UseType.definition = 0
reserved_size UseType.call = 5
reserved_size UseType.jcc = 6
reserved_size UseType.jmp = 5
reserved_size UseType.lea = 7

-- The instruction of a use at a position, with the value of its label.
unfoldable pub encode_use : UseType → LabelUse → ℕ → ℕ → List ℕ
encode_use UseType.definition u code target = []
encode_use UseType.call u code target = 0xe8 ∷ copy_displacement (sub_size target (code + 5)) 4
encode_use UseType.jcc u code target =
    if u.is_short
    then (0x70 + u.jcc_type) ∷ copy_displacement (sub_size target (code + 2)) 1
    else 0x0f ∷ (0x80 + u.jcc_type) ∷ copy_displacement (sub_size target (code + 6)) 4
encode_use UseType.jmp u code target =
    if u.is_short
    then 0xeb ∷ copy_displacement (sub_size target (code + 2)) 1
    else 0xe9 ∷ copy_displacement (sub_size target (code + 5)) 4
encode_use UseType.lea u code target =
    rex 1 (u.reg / 8) 0 0
    ∷ 0x8d
    ∷ mod_reg_rm 0 (u.reg % 8) rbp
    ∷ copy_displacement (sub_size target (code + 7)) 4

-- The offset of the next use, or the size of the code behind the last.
unfoldable pub next_offset : ℕ → List LabelUse → ℕ
next_offset size [] = size
next_offset size (u ∷ uses) = u.offset

-- The last loop, with the memory and the position `code` in it: the instruction of each use is written,
-- and the code up to the next use is moved behind it.
unfoldable pub write_uses : ℕ → List ℕ → List LabelUse → List ℕ → ℕ → Result (List ℕ × ℕ)
write_uses size values [] memory code = ok (memory, code)
write_uses size values (u ∷ uses) memory code = elim (get_elem? values u.label) [
  | none ↦ undefined
  | some target ↦
      let bytes = encode_use u.type u code target in
      let memory' = write_at memory code bytes in
      let begin_ = u.offset + reserved_size u.type in
      let moved = next_offset size uses - begin_ in
      write_uses size values uses
        (write_at memory' (code + length bytes) (take moved (drop begin_ memory')))
        (code + length bytes + moved)
]

-- What is done behind the passes; `uses[0]` is read whether or not there is one.
unfoldable pub move_code : Assembler → List LabelUse → List ℕ → Result Assembler
move_code asm [] values = undefined
move_code asm (u ∷ uses) values =
    write_uses asm.size values (u ∷ uses) asm.code u.offset >>= λ (code, size).
    ok (record asm { uses = u ∷ uses; code = code; size = size })

-- `resolve_assembler_labels`. `room` says whether the array of the values is given, and `stale` what it
-- holds; each pass but the last shortens a branch.
unfoldable pub resolve_assembler_labels : Bool → (ℕ → ℕ) → Assembler → Result Assembler
resolve_assembler_labels room stale asm =
    if room
    then (shrink_loop (suc (length asm.uses)) 0 (define_values (fresh stale asm.n_labels) asm.uses)
          asm.uses
        >>= λ (uses, values). move_code asm uses values)
    else err nomem

-- `finalize_assembler`: the mapping without the pages that the code does not reach, and the size of the
-- code. `protected` says whether `mprotect` succeeds.
unfoldable pub finalize_assembler : Bool → Bool → (ℕ → ℕ) → Assembler → Result (List ℕ × ℕ)
finalize_assembler room protected stale asm = resolve_assembler_labels room stale asm >>= λ asm'.
    let unused_size = asm'.page_size * ((asm'.capacity - asm'.size) / asm'.page_size) in
    if protected then ok (take (asm'.capacity - unused_size) asm'.code, asm'.size) else err nomem
