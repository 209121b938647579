-- ===== src/Compiler.antt =====
-- src/bytecode-compiler.c: `compile_parsetree` for each type of tree. A call appends its code to a
-- vector, so it returns the bytes appended, and the flags counted so far. `ALLOC` succeeds.
pub mod Bounds
pub mod Targets
pub mod Flags
pub mod Layout
pub mod Laid
pub mod Linked
pub mod Guarded
pub mod Sound
use crex.Base.{
  ℕ, zero, suc, ◌+◌, ◌-◌, ◌*◌, ◌%◌, ◌^◌, Bool, true, false, List, [], ◌∷◌, ◌++◌, length, leb, ◌==◌,
  if◌then◌else◌,
}
use crex.Serialization.{size_for_operand}
use crex.Bytecode.{Opcode, code_of, emit_bytecode}
use crex.Lexer.Token.{AnchorType, repetition_infinity}
use crex.Parser.Tree.{Parsetree, Parsetrees, non_capturing_group}

abbrev pub emit : Opcode → ℕ → ℕ → List ℕ
emit opcode operand size = emit_bytecode (code_of opcode) operand size

-- An instruction with the least operand size.
abbrev pub emit_least : Opcode → ℕ → List ℕ
emit_least opcode operand = emit opcode operand (size_for_operand operand)

-- `VM_ANCHOR_BOF + tree->data.anchor_type`
unfoldable pub anchor_code : AnchorType → ℕ
unfolding code_of
anchor_code AnchorType.bof = code_of Opcode.anchor_bof + 0
anchor_code AnchorType.bol = code_of Opcode.anchor_bof + 1
anchor_code AnchorType.eof = code_of Opcode.anchor_bof + 2
anchor_code AnchorType.eol = code_of Opcode.anchor_bof + 3
anchor_code AnchorType.word_boundary = code_of Opcode.anchor_bof + 4
anchor_code AnchorType.not_word_boundary = code_of Opcode.anchor_bof + 5

-- `case PT_ALTERNATION`, with the code of both sides.
unfoldable pub compile_alternation : List ℕ → List ℕ → ℕ → List ℕ
compile_alternation left right flag =
    let jump_delta = length right in
    let split_delta = length left + 1 + size_for_operand jump_delta in
    emit_least Opcode.split_passive split_delta
    ++ (left
        ++ (emit_least Opcode.jump jump_delta
            ++ (right ++ emit_least Opcode.test_and_set_flag flag)))

-- The `max_size` that is reserved for it.
unfoldable pub alternation_room : ℕ → ℕ → ℕ
alternation_room left_size right_size =
    ((1 + 4) + left_size + (1 + 4) + right_size + (1 + 4)) % 2 ^ 64

-- `emit_bytecode_copy`, so many times.
unfoldable pub copies : ℕ → List ℕ → List ℕ
copies zero child = []
copies (suc n) child = child ++ copies n child

-- The loop that finds the size of the trailing split's operand: the delta counts the operand itself.
unfoldable pub trailing_split_size : ℕ → ℕ
trailing_split_size base =
    if leb (size_for_operand (base + (1 + 1))) 1
    then 1
    else if leb (size_for_operand (base + (1 + 2))) 2
    then 2
    else 4

abbrev pub leading_split : Bool → Opcode
leading_split true = Opcode.split_eager
leading_split false = Opcode.split_passive

abbrev pub trailing_split : Bool → Opcode
trailing_split true = Opcode.split_backwards_passive
trailing_split false = Opcode.split_backwards_eager

-- The code behind the copies of an unbounded repetition, with its two flags.
unfoldable pub compile_unbounded : Bool → List ℕ → ℕ → List ℕ
compile_unbounded lazy child n_flags =
    let child_flag = n_flags in
    let end_flag = n_flags + 1 in
    let base = 1 + size_for_operand child_flag + length child in
    let delta_size = trailing_split_size base in
    let trailing_split_delta = base + (1 + delta_size) in
    let leading_split_delta = base + (1 + delta_size) in
    emit_least (leading_split lazy) leading_split_delta
    ++ (emit_least Opcode.test_and_set_flag child_flag
        ++ (child
            ++ (emit (trailing_split lazy) trailing_split_delta delta_size
                ++ emit_least Opcode.test_and_set_flag end_flag)))

-- The optional copies of a bounded repetition, each behind a split to the end. The source fills them
-- in from the last to the first.
unfoldable pub optional_copies : Bool → List ℕ → ℕ → List ℕ
optional_copies lazy child zero = []
optional_copies lazy child (suc n) =
    let skipped = child ++ optional_copies lazy child n in
    emit_least (leading_split lazy) (length skipped) ++ skipped

unfoldable pub compile_bounded : Bool → List ℕ → ℕ → ℕ → List ℕ
unfolding optional_copies
compile_bounded lazy child rounds flag =
    optional_copies lazy child rounds ++ emit_least Opcode.test_and_set_flag flag

-- The `max_size` of a repetition before it wraps, and as a `size_t`.
unfoldable pub repetition_size : ℕ → ℕ → ℕ → ℕ
repetition_size lower upper child_size =
    if upper == repetition_infinity
    then lower * child_size + ((1 + 4) + (1 + 4) + child_size + (1 + 4) + (1 + 4))
    else lower * child_size + ((upper - lower) * ((1 + 4) + child_size) + (1 + 4))

unfoldable pub repetition_room : ℕ → ℕ → ℕ → ℕ
unfolding repetition_size
repetition_room lower upper child_size = repetition_size lower upper child_size % 2 ^ 64

-- `case PT_GREEDY_REPETITION` and `case PT_LAZY_REPETITION`, with the child's code.
unfoldable pub compile_repetition : Bool → ℕ → ℕ → List ℕ → ℕ → List ℕ × ℕ
unfolding copies compile_unbounded compile_bounded
compile_repetition lazy lower upper child n_flags =
    if upper == repetition_infinity
    then (copies lower child ++ compile_unbounded lazy child n_flags, n_flags + 2)
    else (copies lower child ++ compile_bounded lazy child (upper - lower) n_flags, n_flags + 1)

-- `case PT_GROUP`, with the child's code.
unfoldable pub compile_group : ℕ → List ℕ → List ℕ
compile_group index child =
    if index == non_capturing_group
    then child
    else emit_least Opcode.write_pointer (2 * index)
      ++ (child ++ emit_least Opcode.write_pointer (2 * index + 1))

unfoldable mutual
  pub compile_parsetree : Parsetree → ℕ → List ℕ × ℕ
  compile_parsetree Parsetree.empty n = ([], n)
  compile_parsetree (Parsetree.character c) n = (emit Opcode.character c 1, n)
  compile_parsetree (Parsetree.char_class index) n = (emit_least Opcode.char_class index, n)
  compile_parsetree (Parsetree.builtin_char_class index) n =
      (emit_least Opcode.builtin_char_class index, n)
  compile_parsetree (Parsetree.anchor type) n = (emit_bytecode (anchor_code type) 0 0, n)
  compile_parsetree (Parsetree.concatenation trees) n = compile_concatenation trees n
  compile_parsetree (Parsetree.alternation left right) n =
      let (left_code, n₁) = compile_parsetree left n in
      let (right_code, n₂) = compile_parsetree right n₁ in
      (compile_alternation left_code right_code n₂, n₂ + 1)
  compile_parsetree (Parsetree.greedy_repetition lower upper child) n =
      let (code, n₁) = compile_parsetree child n in compile_repetition false lower upper code n₁
  compile_parsetree (Parsetree.lazy_repetition lower upper child) n =
      let (code, n₁) = compile_parsetree child n in compile_repetition true lower upper code n₁
  compile_parsetree (Parsetree.group index child) n =
      let (code, n₁) = compile_parsetree child n in (compile_group index code, n₁)

  -- The loop over a concatenation.
  pub compile_concatenation : Parsetrees → ℕ → List ℕ × ℕ
  compile_concatenation Parsetrees.none_yet n = ([], n)
  compile_concatenation (Parsetrees.push trees tree) n =
      let (code, n₁) = compile_concatenation trees n in
      let (last, n₂) = compile_parsetree tree n₁ in (code ++ last, n₂)

-- `compile_to_bytecode`: the code and the number of flags.
unfoldable pub compile_to_bytecode : Parsetree → List ℕ × ℕ
unfolding compile_parsetree
compile_to_bytecode tree = compile_parsetree tree 0
