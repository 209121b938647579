-- ===== src/Serialization/RoundTrip.antt =====
-- The operands of src/serialization.c read back as they were written, in the least size that fits.
use crex.Base.{
  ℕ, ◌/◌, ◌%◌, ◌^◌, ◌≤◌, ◌<◌, ◌≡◌, refl, inl, inr, List, ◌++◌, length, ◌==◌, leb, arith,
  bit_or_disjoint, Bool-cases,
}
use crex.Serialization.{
  size_for_operand, serialize_operand, deserialize_operand, serialize_operand_le,
  deserialize_operand_le,
}

-- The sizes that an instruction has.
pub data IsSize : ℕ → Type 0 where
  size_0 : IsSize 0
  size_1 : IsSize 1
  size_2 : IsSize 2
  size_4 : IsSize 4

pub size_for_operand-IsSize : (n : ℕ) → IsSize (size_for_operand n)
unfolding size_for_operand
size_for_operand-IsSize n = elim (Bool-cases (n == 0)) [
  | inl e ↦ rw e size_0
  | inr e ↦ rw e (elim (Bool-cases (leb n 0xff)) [
    | inl e ↦ rw e size_1
    | inr e ↦ rw e (elim (Bool-cases (leb n 0xffff)) [ inl e ↦ rw e size_2 | inr e ↦ rw e size_4 ])
  ])
]

-- For a 32-bit operand, `size_for_operand` is the least size that holds it: the operand fits, and
-- it fits no smaller size.
pub size_for_operand_least :
    (n s : ℕ)
    → n < 2 ^ 32
    → IsSize s
    → (n < 256 ^ size_for_operand n) × (n < 256 ^ s → size_for_operand n ≤ s)
unfolding size_for_operand
size_for_operand_least n s h size_0 = ground arith
size_for_operand_least n s h size_1 = ground arith
size_for_operand_least n s h size_2 = ground arith
size_for_operand_least n s h size_4 = ground arith

pub length-serialize_operand : (n s : ℕ) → IsSize s → length (serialize_operand n s) ≡ s
unfolding serialize_operand
length-serialize_operand n s size_0 = refl
length-serialize_operand n s size_1 = refl
length-serialize_operand n s size_2 = refl
length-serialize_operand n s size_4 = refl

-- Reading the bytes of an operand that fits, whatever follows them, gives the operand.
pub deserialize_operand-serialize_operand :
    (n s : ℕ) (rest : List ℕ)
    → IsSize s
    → n < 256 ^ s
    → deserialize_operand (serialize_operand n s ++ rest) s ≡ n
unfolding serialize_operand deserialize_operand
deserialize_operand-serialize_operand n s rest size_0 h = omega arith
deserialize_operand-serialize_operand n s rest size_1 h = omega arith
deserialize_operand-serialize_operand n s rest size_2 h = omega arith
deserialize_operand-serialize_operand n s rest size_4 h = omega arith

-- The portable writer, on a little-endian host, writes the bytes that the plain one writes.
pub serialize_operand_le-eq-serialize_operand :
    (n s : ℕ) → IsSize s → serialize_operand_le n s ≡ serialize_operand n s
unfolding serialize_operand serialize_operand_le
serialize_operand_le-eq-serialize_operand n s size_0 = refl
serialize_operand_le-eq-serialize_operand n s size_1 = refl
serialize_operand_le-eq-serialize_operand n s size_2 = ground arith
serialize_operand_le-eq-serialize_operand n s size_4 = ground arith

-- The portable reader gives back what the portable writer wrote, which joins the bytes by `|`.
pub deserialize_operand_le-serialize_operand_le :
    (n s : ℕ) (rest : List ℕ)
    → IsSize s
    → n < 256 ^ s
    → deserialize_operand_le (serialize_operand_le n s ++ rest) s ≡ n
unfolding serialize_operand_le deserialize_operand_le
deserialize_operand_le-serialize_operand_le n s rest size_0 h = omega arith
deserialize_operand_le-serialize_operand_le n s rest size_1 h = omega arith
deserialize_operand_le-serialize_operand_le n s rest size_2 h =
    omega (arith, bit_or_disjoint 8 (n % 256) (n / 256 % 256) (omega arith))
deserialize_operand_le-serialize_operand_le n s rest size_4 h =
    let low_2 = bit_or_disjoint 8 (n % 256) (n / 256 % 256) (omega arith) in
    let low_3 = bit_or_disjoint 16 (n % 65536) (n / 65536 % 256) (omega arith) in
    let low_4 = bit_or_disjoint 24 (n % 16777216) (n / 16777216 % 256) (omega arith) in
    ground (arith, low_2, low_3, low_4)
