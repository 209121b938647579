-- ===== src/X64.antt =====
-- src/x64-encoding.c, and the template x64/instruction.erb.c of the functions that write an
-- instruction of x86-64. A `reg_t` is its number, and a `long` its 64 bits.
pub mod Decode
pub mod Bits
pub mod RoundTrip
pub mod Whole
use crex.Base.{
  ℕ, ◌+◌, ◌-◌, ◌*◌, ◌/◌, ◌%◌, ◌^◌, Bool, true, false, not, ◌&&◌, ◌||◌, List, [], ◌∷◌, ◌++◌, bit_or,
  ltb, leb, ◌==◌, if◌then◌else◌,
}
use crex.Serialization.{serialize_operand_le}

abbrev pub rsp : ℕ
rsp = 4

abbrev pub rbp : ℕ
rbp = 5

abbrev pub r12 : ℕ
r12 = 12

abbrev pub r13 : ℕ
r13 = 13

-- `REX`, `MOD_REG_RM` and `SIB`, as they are stored in a byte.
unfoldable pub rex : ℕ → ℕ → ℕ → ℕ → ℕ
rex w r x b = bit_or (bit_or (bit_or (bit_or 0x40 (w * 8)) (r * 4)) (x * 2)) b % 256

unfoldable pub mod_reg_rm : ℕ → ℕ → ℕ → ℕ
mod_reg_rm mode reg rm = bit_or (bit_or (mode * 64) (reg * 8)) rm % 256

unfoldable pub sib : ℕ → ℕ → ℕ → ℕ
sib scale index base = bit_or (bit_or (scale * 64) (index * 8)) base % 256

-- `memory_t`
pub record Memory : Type 0 where
  pub rip_relative : Bool
  pub base : ℕ
  pub has_index : Bool
  pub scale : ℕ
  pub index : ℕ
  pub displacement : ℕ

-- `M_INDIRECT_REG_DISP`, and `M_INDIRECT_REG` without a displacement.
abbrev pub indirect_reg : ℕ → ℕ → Memory
indirect_reg base displacement = record {
  rip_relative = false;
  base = base;
  has_index = false;
  scale = 0;
  index = 0;
  displacement = displacement;
}

-- `M_INDIRECT_BSXD`
abbrev pub indirect_bsxd : ℕ → ℕ → ℕ → ℕ → Memory
indirect_bsxd base scale index displacement = record {
  rip_relative = false;
  base = base;
  has_index = true;
  scale = scale;
  index = index;
  displacement = displacement;
}

-- `M_RIP_RELATIVE`
abbrev pub rip_relative_at : ℕ → Memory
rip_relative_at displacement = record {
  rip_relative = true;
  base = 0;
  has_index = false;
  scale = 0;
  index = 0;
  displacement = displacement;
}

-- `M_DISPLACED`
abbrev pub displaced : Memory → ℕ → Memory
displaced rm more = record rm { displacement = (rm.displacement + more) % 2 ^ 64 }

-- `-128 <= value && value <= 127`
unfoldable pub is_byte : ℕ → Bool
is_byte value = leb value 127 || leb (2 ^ 64 - 128) value

-- `copy_displacement`, which writes 0, 1 or 4 bytes.
unfoldable pub copy_displacement : ℕ → ℕ → List ℕ
copy_displacement value size =
    if size == 0
    then []
    else if size == 1
    then (value % 256) ∷ []
    else (value % 256)
      ∷ (value / 2 ^ 8 % 256)
      ∷ (value / 2 ^ 16 % 256)
      ∷ (value / 2 ^ 24 % 256)
      ∷ []

-- The prefix, where any of its bits is set.
unfoldable pub encode_rex : ℕ → ℕ → ℕ → ℕ → List ℕ
encode_rex w r x b = if w == 0 && r == 0 && x == 0 && b == 0 then [] else rex w r x b ∷ []

unfoldable pub encode_rex_r : ℕ → ℕ → ℕ → List ℕ
encode_rex_r w r rm = encode_rex w r 0 (rm / 8)

unfoldable pub encode_mod_reg_rm_r : ℕ → ℕ → List ℕ
encode_mod_reg_rm_r reg rm = mod_reg_rm 3 (reg % 8) (rm % 8) ∷ []

-- `rex_x` and `rex_b`
unfoldable pub rex_x : Memory → ℕ
rex_x rm = if rm.has_index then rm.index / 8 else 0

unfoldable pub rex_b : Memory → ℕ
rex_b rm = if rm.rip_relative then 0 else rm.base / 8

unfoldable pub encode_rex_m : ℕ → ℕ → Memory → List ℕ
encode_rex_m w r rm = encode_rex w r (rex_x rm) (rex_b rm)

-- `mod`, and `displacement_size` for it.
unfoldable pub mode_of : Memory → ℕ
unfolding is_byte
mode_of rm =
    if rm.rip_relative
    then 0
    else if rm.displacement == 0 && not (rm.base == rbp) && not (rm.base == r13)
    then 0
    else if is_byte rm.displacement
    then 1
    else 2

unfoldable pub displacement_size : Memory → ℕ
unfolding is_byte
displacement_size rm =
    if rm.rip_relative
    then 4
    else if rm.displacement == 0 && not (rm.base == rbp) && not (rm.base == r13)
    then 0
    else if is_byte rm.displacement
    then 1
    else 4

unfoldable pub sib_index : Memory → ℕ
sib_index rm = if rm.has_index then rm.index % 8 else rsp

unfoldable pub encode_mod_reg_rm_m : ℕ → Memory → List ℕ
encode_mod_reg_rm_m reg rm =
    let behind = copy_displacement rm.displacement (displacement_size rm) in
    if rm.rip_relative
    then mod_reg_rm 0 (reg % 8) rbp ∷ behind
    else if rm.has_index || rm.base == rsp
    then mod_reg_rm (mode_of rm) (reg % 8) 4 ∷ sib rm.scale (sib_index rm) (rm.base % 8) ∷ behind
    else mod_reg_rm (mode_of rm) (reg % 8) (rm.base % 8) ∷ behind

-- An operand that a ModRM byte names.
pub data Operand : Type 0 where
  register : ℕ → Operand
  memory : Memory → Operand

-- An immediate is signed or unsigned, and has so many bytes; none has no bytes.
pub record Immediate : Type 0 where
  pub is_unsigned : Bool
  pub value : ℕ
  pub size : ℕ

unfoldable pub encode_immediate : Immediate → List ℕ
unfolding copy_displacement serialize_operand_le
encode_immediate i =
    if i.is_unsigned then serialize_operand_le i.value i.size else copy_displacement i.value i.size

-- What a function of the template writes for an instruction with a ModRM byte: `rex_w`, the opcode,
-- the register or the extension (which sets no `rex_r`), and the operand.
unfoldable pub encode_instruction : ℕ → List ℕ → Bool → ℕ → Operand → Immediate → List ℕ
encode_instruction w opcode is_extension reg (register rm) i =
    encode_rex_r w (if is_extension then 0 else reg / 8) rm
    ++ (opcode ++ (encode_mod_reg_rm_r reg rm ++ encode_immediate i))
encode_instruction w opcode is_extension reg (memory rm) i =
    encode_rex_m w (if is_extension then 0 else reg / 8) rm
    ++ (opcode ++ (encode_mod_reg_rm_m reg rm ++ encode_immediate i))
