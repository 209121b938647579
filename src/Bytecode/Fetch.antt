-- ===== src/Bytecode/Fetch.antt =====
-- An instruction that the compiler writes is the one that the machine reads.
use crex.Base.{
  ℕ, ◌+◌, ◌*◌, ◌/◌, ◌%◌, ◌^◌, ◌≤◌, ◌<◌, ◌≡◌, refl, List, ◌++◌, bit_or, bit_or_disjoint, length,
  some, arith,
}
use crex.Serialization.{serialize_operand, deserialize_operand}
use crex.Serialization.RoundTrip.{
  IsSize, size_0, size_1, size_2, size_4, length-serialize_operand,
  deserialize_operand-serialize_operand,
}
use crex.Bytecode.{Opcode, code_of, emit_bytecode, fetch}

code_of-lt : (op : Opcode) → code_of op < 32
unfolding code_of
code_of-lt Opcode.character = omega arith
code_of-lt _ = omega arith

head_byte : (code s : ℕ) → code < 32 → IsSize s → bit_or code (s * 32) % 256 ≡ code + s * 32
head_byte code s h size_0 = omega (arith, bit_or_disjoint 5 code 0 h)
head_byte code s h size_1 = omega (arith, bit_or_disjoint 5 code 1 h)
head_byte code s h size_2 = omega (arith, bit_or_disjoint 5 code 2 h)
head_byte code s h size_4 = omega (arith, bit_or_disjoint 5 code 4 h)

pub length-emit_bytecode : (code n s : ℕ) → IsSize s → length (emit_bytecode code n s) ≡ 1 + s
unfolding emit_bytecode
length-emit_bytecode code n s k = omega (arith, length-serialize_operand n s k)

pub IsSize-le : (s : ℕ) → IsSize s → s ≤ 4
IsSize-le s size_0 = omega arith
IsSize-le s size_1 = omega arith
IsSize-le s size_2 = omega arith
IsSize-le s size_4 = omega arith

-- Whatever the operand, the opcode and the address behind the instruction are read.
pub fetch-emitted :
    (op : Opcode) (n s : ℕ) (rest : List ℕ)
    → IsSize s
    → fetch (emit_bytecode (code_of op) n s ++ rest)
      ≡ some (record {
        opcode = code_of op;
        operand = deserialize_operand (serialize_operand n s ++ rest) s;
        next = 1 + s;
      })
unfolding fetch emit_bytecode
fetch-emitted op n s rest k =
    let small = code_of-lt op in
    let size : (code_of op + s * 32) / 32 ≡ s = omega arith in
    let low : (code_of op + s * 32) % 32 ≡ code_of op = omega arith in
    rw (head_byte (code_of op) s small k) (rw (size, low) refl)

-- The machine fetches from an emitted instruction, whatever code follows it, its opcode, its
-- operand and the address behind it. The operand has to fit its size.
pub fetch-emit_bytecode :
    (op : Opcode) (n s : ℕ) (rest : List ℕ)
    → IsSize s
    → n < 256 ^ s
    → fetch (emit_bytecode (code_of op) n s ++ rest)
      ≡ some (record { opcode = code_of op; operand = n; next = 1 + s })
fetch-emit_bytecode op n s rest k h =
    rw (fetch-emitted op n s rest k) (rw (deserialize_operand-serialize_operand n s rest k h) refl)
