-- ===== src/X64/Decode.antt =====
-- How a processor reads the operands of an instruction, by the rules of the ModRM and SIB bytes.
use crex.Base.{
  ℕ, ◌+◌, ◌-◌, ◌*◌, ◌/◌, ◌%◌, ◌^◌, ◌&&◌, Bool, false, Option, none, some, List, [], ◌∷◌, take, drop,
  ltb, ◌==◌, if◌then◌else◌,
}

-- An address: behind the instruction, or a base with an index, if any, that is scaled by a power of
-- two; the displacement has 64 bits.
pub data Address : Type 0 where
  behind : ℕ → Address
  at : ℕ → Option (ℕ × ℕ) → ℕ → Address

pub data Place : Type 0 where
  in_register : ℕ → Place
  in_memory : Address → Place

-- A signed number of 8 and of 32 bits, extended to 64.
unfoldable pub extend_byte : ℕ → ℕ
extend_byte b = if ltb b 128 then b else 2 ^ 64 - 256 + b

unfoldable pub extend_dword : ℕ → ℕ
extend_dword d = if ltb d (2 ^ 31) then d else 2 ^ 64 - 2 ^ 32 + d

-- The displacement that follows, and the bytes behind it.
unfoldable pub read_byte : List ℕ → Option (ℕ × List ℕ)
unfolding extend_byte
read_byte (b ∷ rest) = some (extend_byte b, rest)
read_byte [] = none

unfoldable pub read_dword : List ℕ → Option (ℕ × List ℕ)
unfolding extend_dword
read_dword (a ∷ b ∷ c ∷ d ∷ rest) =
    some (extend_dword (a + b * 2 ^ 8 + c * 2 ^ 16 + d * 2 ^ 24), rest)
read_dword _ = none

unfoldable pub read_displacement : ℕ → List ℕ → Option (ℕ × List ℕ)
unfolding read_byte read_dword
read_displacement mode rest =
    if mode == 0 then some (0, rest) else if mode == 1 then read_byte rest else read_dword rest

abbrev pub Read : Type 0
Read = Option (ℕ × (Place × List ℕ))

-- The register of the ModRM byte, and the place with the displacement that was read.
unfoldable pub placed : ℕ → (ℕ → Address) → Option (ℕ × List ℕ) → Read
placed reg address none = none
placed reg address (some (displacement, rest)) =
    some (reg, (in_memory (address displacement), rest))

-- The SIB byte. Index 4 is no index; a base of 5 where the mode is 0 is no base, and is not read.
unfoldable pub read_sib : ℕ → ℕ → ℕ → ℕ → List ℕ → Read
read_sib x b mode reg [] = none
read_sib x b mode reg (byte ∷ rest) =
    let index = x * 8 + byte / 8 % 8 in
    if mode == 0 && byte % 8 == 5
    then none
    else placed reg (at (b * 8 + byte % 8) (if index == 4 then none else some (byte / 64, index)))
        (read_displacement mode rest)

-- The ModRM byte, with the bits of the prefix that extend the register, the index and the base.
unfoldable pub read_operand : ℕ → ℕ → ℕ → List ℕ → Read
read_operand r x b [] = none
read_operand r x b (byte ∷ rest) =
    let mode = byte / 64 in
    let reg = r * 8 + byte / 8 % 8 in
    if mode == 3
    then some (reg, (in_register (b * 8 + byte % 8), rest))
    else if byte % 8 == 4
    then read_sib x b mode reg rest
    else if mode == 0 && byte % 8 == 5
    then placed reg behind (read_dword rest)
    else placed reg (at (b * 8 + byte % 8) none) (read_displacement mode rest)

-- A general register, whole or its lowest byte, or the second byte of one of the first four (AH, CH, DH
-- and BH).
pub data Register : Type 0 where
  low : ℕ → Register
  second_byte : ℕ → Register

pub data Location : Type 0 where
  in_named : Register → Location
  at_address : Address → Location

-- The register of a number. As a byte, without a prefix, the numbers from 4 to 7 name second bytes.
unfoldable pub named : Bool → ℕ → Register
named second n = if second && n / 4 == 1 then second_byte (n - 4) else low n

unfoldable pub located : Bool → Place → Location
unfolding named
located second (in_register n) = in_named (named second n)
located second (in_memory address) = at_address address

-- `w`, the opcode, the register or extension, the place and what follows.
pub record Instruction : Type 0 where
  pub w : ℕ
  pub opcode : List ℕ
  pub reg : Register
  pub place : Location
  pub rest : List ℕ

-- The flags say for the register and for the place whether second bytes can be named.
unfoldable pub finish : Bool → Bool → ℕ → List ℕ → Read → Option Instruction
unfolding named located
finish reg_second rm_second w opcode none = none
finish reg_second rm_second w opcode (some (reg, (place, rest))) = some (record {
  w = w;
  opcode = opcode;
  reg = named reg_second reg;
  place = located rm_second place;
  rest = rest;
})

-- An instruction whose opcode has so many bytes, with or without a prefix. The flags say for the register
-- and for the operand whether the opcode takes a byte there; an extension is no byte.
unfoldable pub read_instruction : Bool → Bool → ℕ → List ℕ → Option Instruction
read_instruction reg_byte rm_byte n [] = none
read_instruction reg_byte rm_byte n (byte ∷ rest) =
    if byte / 16 == 4
    then finish false false (byte / 8 % 2) (take n rest)
        (read_operand (byte / 4 % 2) (byte / 2 % 2) (byte % 2) (drop n rest))
    else finish reg_byte rm_byte 0 (take n (byte ∷ rest))
        (read_operand 0 0 0 (drop n (byte ∷ rest)))
