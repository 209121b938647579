-- ===== src/Lib.antt =====
-- libcrex, a regular expression library in C: from the bytes of a pattern to the steps of the
-- machine that runs its bytecode.
--
-- A pattern is read by the lexer one token at a time (src/lexer.c), parsed by operator precedence
-- into a tree (src/parser.c), and compiled to bytecode (src/bytecode-compiler.c), whose
-- instructions carry operands of 0, 1, 2 or 4 bytes (src/serialization.c). A machine of threads runs
-- the bytecode over a subject (src/vm.c). Sets of characters, and the flags of the machine, are
-- bitmaps (src/crex.c). The stacks of the parser and the code of the compiler are arrays that grow
-- (src/vector.c). For native code there is an assembler (src/assembler.c), which keeps a buffer of
-- machine code and the uses of labels in it, over the encodings of single instructions
-- (src/x64-encoding.c, and the template x64/instruction.erb.c of their functions).
--
-- The files, each with its proofs in the modules below it:
--   Bitmap         `bitmap_set` to `bitmap_size_for_bits` of src/crex.c
--   CharClass      the table of built-in classes of src/crex.c, against the ranges of Ctype
--   Serialization  src/serialization.c
--   Status         `crex_status_t` of include/crex.h, and the chains of fallible calls
--   Lexer          src/lexer.c and src/lexer.h: Token, Escape (`lex_escape_code`, `str_to_size`),
--                  ClassLexer (the loop of `lex_char_class`), Lex (`lex_char_class`, `lex`)
--   Parser         src/parser.c: Tree, Reduce (`parser_pop_operator`, `parser_push_operator` and the
--                  loops that pop), Parse (`parse`); Yield says what the parser should do,
--                  and Refused what it refuses
--   Bytecode       the opcodes of src/vm.h, `emit_bytecode`, and the fetch of `step_thread`
--   Compiler       `compile_parsetree` of src/bytecode-compiler.c, one function per type of tree; in
--                  Layout to Sound its code is a list of instructions whose jumps are followed
--   Vm             `step_thread` of src/vm.c; Run has the loop of `run_threads` over one thread,
--                  and in Guard what that loop relies on in the code; Moves says which pointers a step
--                  writes; Match has `run_threads` and
--                  `on_match`, and in Weights the measure by which its loop ends
--   Executor       `execute_regex` of src/executor.c and `create_vm` of src/vm.c
--   Regex          `crex_compile_with_allocator` of src/crex.c without native code, and its searches;
--                  in Safe the parts are put together, and in Strings what ends with a terminator
--   Vector         src/vector.c, whose arrays grow; in Contents they are lists
--   X64            src/x64-encoding.c and x64/instruction.erb.c; Decode reads instructions as the
--                  processor does
--   Assembler      src/assembler.c: the buffer and the functions that use labels; Labels has
--                  `resolve_assembler_labels` and `finalize_assembler`, in Spans to Start the passes, in
--                  Moves and Found the code that is moved, in Jumps and Reach how the processor reads
--                  it; Room, Emission and Correct are about the operations together
--   Base, Ctype    shared helpers; Tests and AsmTests have the theorems at
--                  concrete inputs
--
-- Conventions. A byte is a number below 256, a `size_t` a number with its wrap-around written out
-- where it can wrap, a pointer into the pattern the list of the bytes from it to the end, and a
-- pointer to memory that a function fills the list of the bytes it writes. The host is
-- little-endian, and <ctype.h> is that of the C locale. A result may be `undefined`, which is
-- behaviour that C does not define, such as a read past the end of an array; a theorem excludes it or
-- says what holds of a result that is a value. To clear no bytes does nothing here, also where the C code
-- calls `memset` with a null pointer for it.
--
-- Fuel. The loops of the lexer and of the parser take a byte in each round and have as much fuel as
-- there are bytes left, in a class one more, so that they never run out. The machine's loop over a
-- thread takes a step in each round; a thread goes back through the code only from a flag that it
-- sets, so enough fuel is the length of the code for each flag that is not set. The loop over the
-- threads has as much fuel as its threads weigh, each by the splits that may lie ahead of it, and as
-- the flags weigh that are not set; a visit makes them lighter. The loop over the subject takes a
-- character in each round. Each pass over the uses of labels but the last makes a branch short, and
-- gets fuel for one more than there are uses.
--
-- Allocation. A flag says whether the lexer's buffer is given, and another whether a thread's
-- block is. The allocations of the parser and of the compiler succeed, and their vectors are lists:
-- what they do when memory runs out is not modelled. Nor are the blocks of the machine's buffer (its
-- threads are a list, and flags say whether a block is given), the creation of contexts, the
-- choice of instructions for native code (src/native-compiler.c) with their opcodes (a parameter of
-- the encodings), the release of the assembler's mappings, the debugging output and the tools. What
-- `mmap` gives is a parameter; a `long` is its 64 bits, and memory that is reserved in a mapping but
-- not written keeps what it held.
pub mod Base
pub mod Bitmap
pub mod Ctype
pub mod CharClass
pub mod Serialization
pub mod Status
pub mod Lexer
pub mod Parser
pub mod Bytecode
pub mod Compiler
pub mod Vm
pub mod Executor
pub mod Regex
pub mod X64
pub mod Assembler
pub mod AsmTests
pub mod Vector
pub mod Tests
