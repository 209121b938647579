-- ===== src/Tests.antt =====
-- The theorems at concrete inputs: patterns, tokens, code and bitmaps.
use crex.Base.{
  ℕ, ◌+◌, ◌*◌, ◌^◌, ◌≤◌, ◌<◌, ◌≡◌, refl, min, true, false, xor, ◌||◌, none, some, List, [], ◌∷◌,
  ◌++◌, length, replicate, Bool, all_below, ◌==◌, Suffix, arith,
}
use crex.Bitmap.{bitmap_set, bitmap_test, bitmap_test_and_set, bitmap_size_for_bits}
use crex.Bitmap.Laws.{bitmap_test_and_set_lem, bitmap_size_for_bits_bounds}
use crex.CharClass.{char_class_size, builtin_class}
use crex.CharClass.Meaning.{describes, builtin_class-describes}
use crex.Serialization.{
  size_for_operand, serialize_operand, deserialize_operand, serialize_operand_le,
  deserialize_operand_le,
}
use crex.Serialization.RoundTrip.{
  IsSize, size_1, size_2, size_4, size_for_operand_least, deserialize_operand-serialize_operand,
  serialize_operand_le-eq-serialize_operand, deserialize_operand_le-serialize_operand_le,
}
use crex.Status.{Reports, unmatched_close_paren, ok, Ensures, Safely}
use crex.Vm.{opcodes, Program, Machine, ThreadStatus, at_boundary, jump_to, run_opcode, step_thread}
use crex.Vm.Moves.{Moves}
use crex.Parser.Refused.{accepts}
use crex.Vm.Run.{run_thread}
use crex.Vm.Run.Flags.{unset}
use crex.Vm.Run.Guard.{
  is_flag, fetches_flag, guards, guards_ahead, guards_back, guards_fetched, is_guarded,
}
use crex.Vm.Run.Total.{Stopped, run_thread-Stopped}
use crex.Vm.Step.{
  backwards_eager, split_targets, threads_at, is_word_at, step_thread-emit_bytecode,
  at_boundary-is_word, run_opcode-IsSplit,
}
use crex.Lexer.Token.{TokenType, AnchorType, Token, CharClasses, repetition_infinity}
use crex.Lexer.Escape.{str_to_size}
use crex.Lexer.ClassLexer.{Scan, push_char}
use crex.Lexer.Ranges.{added, push_char-added}
use crex.Lexer.Lex.{intern_class, lex}
use crex.Lexer.Total.{lex-Ensures}
use crex.Lexer.WellFormed.{IsToken, AllBytes, lex-IsToken}
use crex.Lexer.Table.{IsTable, Extends, lex-IsTable}
use crex.Lexer.Intern.{class_of, class_of-intern_class}
use crex.Lexer.Numbers.{decimal, str_to_size-eq-min}
use crex.Parser.Parse.{initial, parse_token, parse}
use crex.Parser.Yield.{item_of, groups_after, render, binaries, yield}
use crex.Parser.Correct.{IsParser, Reads, parse_token-Reads}
use crex.Parser.Whole.{Describes, parse-Ensures}
use crex.Bytecode.{Opcode, code_of, emit_bytecode, fetch}
use crex.Bytecode.Fetch.{fetch-emit_bytecode}
use crex.Parser.Tree.{Parsetree}
use crex.Compiler.Flags.{flags_of, compile_to_bytecode-flags_of}
use crex.Compiler.{
  compile_to_bytecode, emit, emit_least, compile_alternation, alternation_room, compile_unbounded,
  leading_split, trailing_split, trailing_split_size, compile_repetition, repetition_size,
  repetition_room,
}
use crex.Compiler.Bounds.{
  compile_alternation-le, compile_repetition-le, compile_repetition_overruns,
}
use crex.Compiler.Targets.{compile_alternation-targets, compile_unbounded-targets}
use crex.Compiler.Guarded.{starts_of, compile_to_bytecode-is_guarded}
use crex.Vm.Match.{Vm, run_threads}
use crex.Vm.Match.Total.{Visits, run_threads-Visits}
use crex.Executor.{Regex}
use crex.Vector.{Vector, vector_pop, vector_reserve, vector_push}
use crex.Vector.Contents.{
  IsVector, IsPopped, Reserves, Pushes, vector_pop-IsPopped, vector_reserve-Reserves,
  vector_push-Pushes,
}
use crex.Regex.{compile_tree}
use crex.Parser.Within.{TreeWithin}
use crex.Parser.Classes.{table_limits, parse-TreeWithin}

abbrev stale_token : Token
stale_token = record {
  type = TokenType.character;
  character = 0;
  char_class_index = 0;
  anchor_type = AnchorType.bof;
  lower_bound = 0;
  upper_bound = 0;
}

abbrev no_classes : CharClasses
no_classes = record { entries = []; capacity = 0 }

no_classes-IsTable : IsTable no_classes
no_classes-IsTable = record { distinct = tt; own = tt; fits = omega arith }

-- `a|(b*)`
abbrev group_pattern : List ℕ
group_pattern = b'a' ∷ b'|' ∷ b'(' ∷ b'b' ∷ b'*' ∷ b')' ∷ []

-- What follows the bracket of `[^a-c]d`.
abbrev class_rest : List ℕ
class_rest = b'^' ∷ b'a' ∷ b'-' ∷ b'c' ∷ b']' ∷ b'd' ∷ []

class_rest-AllBytes : AllBytes (b'[' ∷ class_rest)
class_rest-AllBytes = ground arith

parse-Ensures_example :
    Ensures
      (Describes (λ _. stale_token) (λ _. true) group_pattern no_classes)
      (parse (λ _. stale_token) (λ _. true) no_classes group_pattern)
parse-Ensures_example = parse-Ensures (λ _. stale_token) (λ _. true) no_classes group_pattern

initial-IsParser : IsParser initial []
unfolding render binaries yield
initial-IsParser = record { below = tt; holds = (refl, refl) }

parse_token-Reads_example :
    Reports
      (λ p'.
        Reads initial [] initial-IsParser 2 (item_of TokenType.open_paren 1 stale_token) p'
        × (accepts TokenType.open_paren [] ≡ true))
      (λ e. (e ≡ unmatched_close_paren) × (accepts TokenType.open_paren [] ≡ false))
      (parse_token TokenType.open_paren initial stale_token)
unfolding groups_after
parse_token-Reads_example =
    parse_token-Reads initial [] initial-IsParser TokenType.open_paren stale_token

lex-Ensures_example :
    Ensures (λ r. Suffix r.1 class_rest) (lex true no_classes stale_token (b'[' ∷ class_rest))
lex-Ensures_example = lex-Ensures true no_classes stale_token b'[' class_rest

lex-IsToken_example :
    Ensures
      (λ r. IsToken (length r.2.entries) r.0)
      (lex true no_classes stale_token (b'[' ∷ class_rest))
lex-IsToken_example =
    lex-IsToken true no_classes stale_token b'[' class_rest (omega arith) class_rest-AllBytes

lex-IsTable_example :
    Ensures
      (λ r. IsTable r.2 × Extends no_classes r.2)
      (lex true no_classes stale_token (b'[' ∷ class_rest))
lex-IsTable_example = lex-IsTable true no_classes stale_token b'[' class_rest no_classes-IsTable

abbrev only_a : List ℕ
only_a = bitmap_set (replicate 32 0) b'a'

class_of-intern_class_example :
    class_of
      (intern_class no_classes stale_token only_a).0.type
      (intern_class no_classes stale_token only_a).0
      (intern_class no_classes stale_token only_a).1
    ≡ only_a
class_of-intern_class_example = class_of-intern_class no_classes stale_token only_a

-- The code of `a` and of `b`.
abbrev code_a : List ℕ
code_a = emit Opcode.character b'a' 1

abbrev code_b : List ℕ
code_b = emit Opcode.character b'b' 1

compile_alternation-targets_example :
    (skipped : List ℕ) × (skipped ≡ code_a ++ emit_least Opcode.jump (length code_b))
    × (compile_alternation code_a code_b 0
        ≡ emit_least Opcode.split_passive (length skipped)
          ++ (skipped ++ (code_b ++ emit_least Opcode.test_and_set_flag 0)))
compile_alternation-targets_example = compile_alternation-targets code_a code_b 0

compile_unbounded-targets_example :
    (loop : List ℕ) × (size : ℕ) × (compile_unbounded false code_a 0
      ≡ emit_least (leading_split false) (length loop)
        ++ (loop ++ emit_least Opcode.test_and_set_flag (0 + 1)))
    × (loop
        ≡ emit_least Opcode.test_and_set_flag 0
          ++ (code_a ++ emit (trailing_split false) (length loop) size))
    × IsSize size
    × (length code_a + 10 < 2 ^ 32 → length loop < 256 ^ size)
compile_unbounded-targets_example = compile_unbounded-targets false code_a 0

-- The code of `[a]{2,3}` and of a character that is repeated 2 ^ 63 times.
compile_repetition-le_example :
    length (compile_repetition false 2 3 code_a 0).0 ≤ repetition_room 2 3 (length code_a)
unfolding repetition_size emit_bytecode serialize_operand
compile_repetition-le_example = compile_repetition-le false 2 3 code_a 0 (omega arith)

compile_repetition_overruns_example :
    repetition_room (2 ^ 63) (2 ^ 63) (length code_a)
    < length (compile_repetition false (2 ^ 63) (2 ^ 63) code_a 0).0
unfolding emit_bytecode serialize_operand
compile_repetition_overruns_example =
    compile_repetition_overruns false (2 ^ 63) (2 ^ 63) code_a 0 (omega arith)

compile_alternation-le_example :
    length (compile_alternation code_a code_b 0) ≤ alternation_room (length code_a) (length code_b)
unfolding emit_bytecode serialize_operand
compile_alternation-le_example = compile_alternation-le code_a code_b 0 (omega arith)

fetch-emit_bytecode_example :
    fetch (emit_bytecode (code_of Opcode.jump) 300 2 ++ code_a)
    ≡ some (record { opcode = code_of Opcode.jump; operand = 300; next = 1 + 2 })
fetch-emit_bytecode_example = fetch-emit_bytecode Opcode.jump 300 2 code_a size_2 (omega arith)

str_to_size-eq-min_example :
    str_to_size (b'4' ∷ b'2' ∷ []) ≡ min (decimal 0 (b'4' ∷ b'2' ∷ [])) repetition_infinity
str_to_size-eq-min_example = str_to_size-eq-min (b'4' ∷ b'2' ∷ []) (refl, (refl, tt))

builtin_class-describes_example : bitmap_test (builtin_class 5) b'7' ≡ describes 5 b'7'
builtin_class-describes_example = builtin_class-describes 5 b'7' (omega arith) (omega arith)

size_for_operand_least_example :
    (300 < 256 ^ size_for_operand 300) × (300 < 256 ^ 4 → size_for_operand 300 ≤ 4)
size_for_operand_least_example = size_for_operand_least 300 4 (omega arith) size_4

deserialize_operand-serialize_operand_example :
    deserialize_operand (serialize_operand 0x12345678 4 ++ 7 ∷ []) 4 ≡ 0x12345678
deserialize_operand-serialize_operand_example =
    deserialize_operand-serialize_operand 0x12345678 4 (7 ∷ []) size_4 (omega arith)

serialize_operand_le-eq-serialize_operand_example :
    serialize_operand_le 0x1234 2 ≡ serialize_operand 0x1234 2
serialize_operand_le-eq-serialize_operand_example =
    serialize_operand_le-eq-serialize_operand 0x1234 2 size_2

deserialize_operand_le-serialize_operand_le_example :
    deserialize_operand_le (serialize_operand_le 0x12345678 4 ++ 7 ∷ []) 4 ≡ 0x12345678
deserialize_operand_le-serialize_operand_le_example =
    deserialize_operand_le-serialize_operand_le 0x12345678 4 (7 ∷ []) size_4 (omega arith)

abbrev two_bytes : List ℕ
two_bytes = 1 ∷ 128 ∷ []

bitmap_test_and_set_lem_example :
    ((bitmap_test_and_set two_bytes 3).0 ≡ bitmap_test two_bytes 3)
    × (bitmap_test (bitmap_test_and_set two_bytes 3).1 4 ≡ ((3 == 4) || bitmap_test two_bytes 4))
bitmap_test_and_set_lem_example = bitmap_test_and_set_lem two_bytes 3 4 (omega arith)

bitmap_size_for_bits_bounds_example :
    (9 ≤ 8 * bitmap_size_for_bits 9) × (8 * bitmap_size_for_bits 9 < 9 + 8)
bitmap_size_for_bits_bounds_example = bitmap_size_for_bits_bounds 9 (omega arith)

-- The code of `a` and of the end of an unbounded loop over it.
abbrev loop_program : Program
loop_program = record {
  code = code_a ++ (emit_bytecode (code_of Opcode.split_backwards_eager) 2 1 ++ []);
  classes = [];
}

abbrev at_split : Machine
at_split = record {
  thread = record { instr_pointer = 2; pointers = none ∷ none ∷ [] };
  successors = [];
  flags = 0 ∷ [];
}

step_thread-emit_bytecode_example :
    step_thread loop_program true 5 (some b'a') none at_split
    ≡ run_opcode loop_program true 5
        (some b'a')
        none
        Opcode.split_backwards_eager
        2
        (jump_to (length code_a + (1 + 1)) at_split)
unfolding emit_bytecode serialize_operand
step_thread-emit_bytecode_example =
    step_thread-emit_bytecode loop_program true 5 (some b'a') none at_split code_a []
      Opcode.split_backwards_eager 2 1 size_1 (omega arith) refl refl

at_boundary-is_word_example :
    at_boundary false (some b'a') none ≡ xor (xor (is_word_at none) (is_word_at (some b'a'))) false
at_boundary-is_word_example = at_boundary-is_word false (some b'a') none (omega arith) tt

run_opcode-IsSplit_example :
    (m' : Machine) × (run_opcode loop_program true 5
        (some b'a')
        none
        Opcode.split_backwards_eager
        2
        at_split
      ≡ ok (ThreadStatus.continue, m'))
    × (m'.thread ∷ m'.successors
        ≡ threads_at
            (at_split.thread)
            (split_targets Opcode.split_backwards_eager 2 (at_split.thread.instr_pointer))
          ++ at_split.successors)
    × (m'.flags ≡ at_split.flags)
run_opcode-IsSplit_example =
    run_opcode-IsSplit loop_program true 5 (some b'a') none at_split Opcode.split_backwards_eager 2
      (backwards_eager (omega arith)) (omega arith) (omega arith)

-- The loop of `a*`: a flag, the character and the split back to the flag.
abbrev star_program : Program
star_program = record { code = 15 ∷ 32 ∷ b'a' ∷ 45 ∷ 5 ∷ []; classes = [] }

abbrev star_starts : ℕ → Bool
star_starts a = a == 0 || a == 1 || a == 3 || a == 5

star_guarded : is_guarded star_program star_starts ≡ true
unfolding is_guarded guards_fetched guards guards_ahead guards_back fetches_flag is_flag opcodes
    fetch deserialize_operand all_below
star_guarded = refl

abbrev at_flag : Machine
at_flag = record {
  thread = record { instr_pointer = 0; pointers = [] };
  successors = [];
  flags = 0 ∷ [];
}

run_thread-Stopped_example :
    Stopped star_program star_starts
      (run_thread star_program (λ _. true) 7 (some b'a') (some b'a') 71 at_flag)
unfolding unset bitmap_test
run_thread-Stopped_example =
    run_thread-Stopped star_program star_starts (λ _. true) 7 (some b'a') (some b'a') star_guarded
      71 at_flag refl (omega arith)

-- A thread that waits at the character.
abbrev star_vm : Vm
star_vm = record {
  n_pointers = 2;
  threads = record { instr_pointer = 1; pointers = some 6 ∷ none ∷ [] } ∷ [];
  matched_thread = none;
  flags = 1 ∷ [];
}

-- `a|b*`
abbrev small_tree : Parsetree
small_tree =
    Parsetree.alternation (Parsetree.character b'a')
      (Parsetree.greedy_repetition 0 repetition_infinity (Parsetree.character b'b'))

compile_to_bytecode-flags_of_example : (compile_to_bytecode small_tree).1 ≡ flags_of small_tree
compile_to_bytecode-flags_of_example = compile_to_bytecode-flags_of small_tree

-- Behind `a-` of a class.
abbrev range_scan : Scan
range_scan = record {
  bitmap = only_a;
  prev_character = some b'a';
  is_range = true;
  token = stale_token;
}

only_a_size : length only_a ≡ char_class_size
unfolding bitmap_set
only_a_size = refl

push_char-added_example :
    Ensures
      (λ s'. bitmap_test s'.bitmap b'b' ≡ (
        added range_scan.is_range range_scan.prev_character b'c' b'b' || bitmap_test only_a b'b'))
      (push_char range_scan b'c')
push_char-added_example = push_char-added range_scan b'c' b'b' only_a_size (omega arith)

run_threads-Visits_example :
    Ensures
      (Visits star_program star_starts star_guarded star_vm)
      (run_threads star_program (λ _ _. true) true 7 (some b'a') (some b'b') star_vm)
run_threads-Visits_example =
    run_threads-Visits star_program star_starts star_guarded (λ _ _. true) true 7 (some b'a')
      (some b'b') refl star_vm (refl, tt)

abbrev star_regex : Regex
star_regex = record { n_capturing_groups = 1; n_flags = 1; program = star_program }

small_tree-short : length (compile_to_bytecode small_tree).0 < 2 ^ 32
unfolding compile_to_bytecode compile_alternation emit_bytecode serialize_operand size_for_operand
    compile_repetition trailing_split_size
small_tree-short = omega arith

compile_to_bytecode-is_guarded_example :
    (starts_of small_tree 0 ≡ true)
    × (is_guarded
          (record { code = (compile_to_bytecode small_tree).0; classes = [] })
          (starts_of small_tree)
        ≡ true)
compile_to_bytecode-is_guarded_example =
    compile_to_bytecode-is_guarded small_tree [] small_tree-short

-- `a|b*`, and its regex.
abbrev small_pattern : List ℕ
small_pattern = b'a' ∷ b'|' ∷ b'b' ∷ b'*' ∷ []

abbrev small_regex : Regex
small_regex = compile_tree (Parsetree.group 0 small_tree, 1, no_classes)

parse-TreeWithin_example :
    Ensures
      (λ (tree, _, cs). TreeWithin (table_limits (length cs.entries)) tree)
      (parse (λ _. stale_token) (λ _. true) no_classes (b'[' ∷ b'a' ∷ b']' ∷ b'b' ∷ []))
parse-TreeWithin_example =
    parse-TreeWithin (λ _. stale_token) (λ _. true) (λ _. omega arith) no_classes
      (b'[' ∷ b'a' ∷ b']' ∷ b'b' ∷ []) no_classes-IsTable
      (omega arith, (omega arith, (omega arith, (omega arith, tt))))

-- Two elements in an array with room for two.
abbrev full_vector : Vector ℕ
full_vector = record { size = 2; capacity = 2; cells = 5 ∷ 6 ∷ [] }

full_vector-IsVector : IsVector full_vector
full_vector-IsVector = record { fits = omega arith; sized = refl }

vector_push-Pushes_example :
    Pushes 8 16 (omega arith) true full_vector 7 (vector_push 8 16 true (λ _. 0) full_vector 7)
vector_push-Pushes_example =
    vector_push-Pushes 8 16 (omega arith) true (λ _. 0) full_vector 7 full_vector-IsVector
      (omega arith)

vector_reserve-Reserves_example :
    Reserves 0 1 (omega arith) false full_vector 9 (vector_reserve 0 1 false (λ _. 0) full_vector 9)
vector_reserve-Reserves_example =
    vector_reserve-Reserves 0 1 (omega arith) false (λ _. 0) full_vector 9 full_vector-IsVector
      (omega arith)

vector_pop-IsPopped_example : Safely (IsPopped full_vector) (vector_pop full_vector)
vector_pop-IsPopped_example = vector_pop-IsPopped full_vector full_vector-IsVector (omega arith)
