-- ===== src/Compiler/Bounds.antt =====
-- The room that src/bytecode-compiler.c reserves for the code of a tree, against the code.
use crex.Base.{
  ℕ, zero, suc, ◌+◌, ◌-◌, ◌*◌, ◌%◌, ◌^◌, ◌≤◌, ◌<◌, ◌≡◌, refl, inl, inr, Bool, true, false, List, [],
  ◌∷◌, ◌++◌, length, length-append, Bool-cases, ◌==◌, if◌then◌else◌, if_both, arith,
}
use crex.Serialization.{size_for_operand}
use crex.Serialization.RoundTrip.{IsSize, size_1, size_2, size_4, size_for_operand-IsSize}
use crex.Bytecode.{Opcode, code_of}
use crex.Bytecode.Fetch.{length-emit_bytecode, IsSize-le}
use crex.Lexer.Token.{repetition_infinity}
use crex.Compiler.{
  emit, emit_least, compile_alternation, alternation_room, copies, trailing_split_size,
  trailing_split, compile_unbounded, optional_copies, compile_bounded, repetition_size,
  repetition_room, compile_repetition,
}

pub length-emit : (op : Opcode) (n s : ℕ) → IsSize s → length (emit op n s) ≡ 1 + s
length-emit op n s k = length-emit_bytecode (code_of op) n s k

pub length-emit_least : (op : Opcode) (n : ℕ) → length (emit_least op n) ≡ 1 + size_for_operand n
length-emit_least op n = length-emit op n (size_for_operand n) (size_for_operand-IsSize n)

pub size_for_operand-le : (n : ℕ) → size_for_operand n ≤ 4
size_for_operand-le n = IsSize-le _ (size_for_operand-IsSize n)

pub emit_least-le : (op : Opcode) (n : ℕ) → length (emit_least op n) ≤ 5
emit_least-le op n = omega (arith, length-emit_least op n, size_for_operand-le n)

pub trailing_split_size-IsSize : (base : ℕ) → IsSize (trailing_split_size base)
unfolding trailing_split_size
trailing_split_size-IsSize base = if_both IsSize _ size_1 (if_both IsSize _ size_2 size_4)

pub bytes-append : (xs ys : List ℕ) → length (xs ++ ys) ≡ length xs + length ys
bytes-append xs ys = length-append xs ys

-- What `omega` needs of emitted code.
pub ruleset sizes = (arith, bytes-append, emit_least-le)

length-copies : (n : ℕ) (child : List ℕ) → length (copies n child) ≡ n * length child
unfolding copies
length-copies zero child = omega arith
length-copies (suc n) child = omega (sizes, length-copies n child)

-- The code of an alternation fits the room that is reserved for it, unless that wraps.
pub compile_alternation-le :
    (left right : List ℕ) (flag : ℕ)
    → length left + length right + 15 < 2 ^ 64
    → length (compile_alternation left right flag) ≤ alternation_room (length left) (length right)
unfolding compile_alternation alternation_room
compile_alternation-le left right flag h = omega sizes

length-optional_copies :
    (lazy : Bool) (child : List ℕ) (n : ℕ)
    → length (optional_copies lazy child n) ≤ n * (5 + length child)
unfolding optional_copies
length-optional_copies lazy child zero = omega arith
length-optional_copies lazy child (suc n) = omega (sizes, length-optional_copies lazy child n)

length-compile_bounded :
    (lazy : Bool) (child : List ℕ) (rounds flag : ℕ)
    → length (compile_bounded lazy child rounds flag) ≤ rounds * (5 + length child) + 5
unfolding compile_bounded
length-compile_bounded lazy child rounds flag =
    omega (sizes, length-optional_copies lazy child rounds)

length-compile_unbounded :
    (lazy : Bool) (child : List ℕ) (flag : ℕ)
    → length (compile_unbounded lazy child flag) ≤ length child + 20
unfolding compile_unbounded
length-compile_unbounded lazy child flag =
    let base = 1 + size_for_operand flag + length child in
    let size = trailing_split_size-IsSize base in
    omega (
      sizes,
      length-emit (trailing_split lazy) (base + (1 + trailing_split_size base))
          (trailing_split_size base) size,
      IsSize-le (trailing_split_size base) size,
    )

-- The code of a repetition is at least its copies and at most what is computed for it.
pub compile_repetition-bounds :
    (lazy : Bool) (lower upper : ℕ) (child : List ℕ) (flag : ℕ)
    → (lower * length child ≤ length (compile_repetition lazy lower upper child flag).0)
      × (length (compile_repetition lazy lower upper child flag).0
          ≤ repetition_size lower upper (length child))
unfolding compile_repetition repetition_size
compile_repetition-bounds lazy lower upper child flag =
    elim (Bool-cases (upper == repetition_infinity)) [
      | inl e ↦ rw e (
        omega (sizes, length-copies lower child),
        omega (sizes, length-copies lower child, length-compile_unbounded lazy child flag),
      )
      | inr e ↦ rw e (
        omega (sizes, length-copies lower child),
        omega (
          sizes,
          length-copies lower child,
          length-compile_bounded lazy child (upper - lower) flag,
        ),
      )
    ]

-- The code of a repetition fits the room that is reserved for it, unless the room wraps as a
-- `size_t`.
pub compile_repetition-le :
    (lazy : Bool) (lower upper : ℕ) (child : List ℕ) (flag : ℕ)
    → repetition_size lower upper (length child) < 2 ^ 64
    → length (compile_repetition lazy lower upper child flag).0
      ≤ repetition_room lower upper (length child)
unfolding repetition_room
compile_repetition-le lazy lower upper child flag h =
    omega (arith, compile_repetition-bounds lazy lower upper child flag)

-- Where the copies of the child alone take 2 ^ 64 bytes or more, less room is reserved than the code
-- takes: the code is written past the end of the buffer.
pub compile_repetition_overruns :
    (lazy : Bool) (lower upper : ℕ) (child : List ℕ) (flag : ℕ)
    → 2 ^ 64 ≤ lower * length child
    → repetition_room lower upper (length child)
      < length (compile_repetition lazy lower upper child flag).0
unfolding repetition_room
compile_repetition_overruns lazy lower upper child flag h =
    omega (arith, compile_repetition-bounds lazy lower upper child flag)
