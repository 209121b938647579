-- ===== src/Serialization.antt =====
-- src/serialization.c: operands of the bytecode as 0, 1, 2 or 4 bytes. A destination is the list of
-- the bytes written, a source the list of bytes from the pointer on, read as 0 past its end. The
-- host is little-endian, as x86-64 is: `memcpy` of an integer copies its bytes lowest first. Shifts
-- and masks are written as `/` and `%`. A size that the source's `assert` excludes writes nothing.
pub mod RoundTrip
use crex.Base.{
  ℕ, suc, ◌+◌, bit_or, ◌*◌, ◌/◌, ◌%◌, ◌^◌, ◌<◌, List, [], ◌∷◌, ◌++◌, get_or, leb, ◌==◌,
  if◌then◌else◌,
}

unfoldable pub size_for_operand : ℕ → ℕ
size_for_operand operand =
    if operand == 0 then 0 else if leb operand 0xff then 1 else if leb operand 0xffff then 2 else 4

-- The bytes of a 16-bit and of a 32-bit integer, lowest first.
abbrev pub bytes_2 : ℕ → List ℕ
bytes_2 value = value % 0x100 ∷ value / 0x100 % 0x100 ∷ []

abbrev pub bytes_4 : ℕ → List ℕ
bytes_4 value =
    value % 0x100 ∷ value / 0x100 % 0x100 ∷ value / 0x10000 % 0x100 ∷ value / 0x1000000 % 0x100 ∷ []

-- The operand is first converted to an integer of the width.
unfoldable pub serialize_operand : ℕ → ℕ → List ℕ
serialize_operand operand size =
    if size == 1
    then (operand % 2 ^ 8) ∷ []
    else if size == 2
    then bytes_2 (operand % 2 ^ 16)
    else if size == 4
    then bytes_4 (operand % 2 ^ 32)
    else []

abbrev byte_at : List ℕ → ℕ → ℕ
byte_at source i = get_or source i 0

unfoldable pub deserialize_operand : List ℕ → ℕ → ℕ
deserialize_operand source size =
    if size == 1
    then byte_at source 0
    else if size == 2
    then byte_at source 0 + byte_at source 1 * 0x100
    else if size == 4
    then byte_at source 0
      + byte_at source 1 * 0x100
      + byte_at source 2 * 0x10000
      + byte_at source 3 * 0x1000000
    else 0

-- The portable variants, which shift. The last two bytes of a 16-bit operand are stored unmasked
-- into an `unsigned char`, which keeps the value mod 256.
unfoldable pub serialize_operand_le : ℕ → ℕ → List ℕ
serialize_operand_le operand size =
    if size == 1
    then (operand % 0x100) ∷ []
    else if size == 2
    then bytes_2 operand
    else if size == 4
    then bytes_4 operand
    else if size == 8
    then bytes_4 operand ++ bytes_4 (operand / 0x100000000)
    else []

unfoldable pub deserialize_operand_le : List ℕ → ℕ → ℕ
deserialize_operand_le source size =
    if size == 1
    then byte_at source 0
    else if size == 2
    then bit_or (byte_at source 0) (byte_at source 1 * 2 ^ 8)
    else if size == 4
    then bit_or
        (bit_or (bit_or (byte_at source 0) (byte_at source 1 * 2 ^ 8)) (byte_at source 2 * 2 ^ 16))
        (byte_at source 3 * 2 ^ 24)
    else 0
