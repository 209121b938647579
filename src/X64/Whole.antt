-- ===== src/X64/Whole.antt =====
-- An instruction that src/x64-encoding.c and its template write is the one that a processor reads.
use crex.Base.{
  ℕ, ◌+◌, ◌*◌, ◌/◌, ◌%◌, ◌<◌, ◌≡◌, ◌≢◌, refl, ap, ◌∙◌, Bool, true, false, Option, none, some, List,
  [], ◌∷◌, ◌++◌, append_assoc, length, take, drop, ◌==◌, ◌&&◌, Bool-cases, inl, inr, if◌then◌else◌,
  arith,
}
use crex.X64.{
  Memory, r12, indirect_reg, rex, mode_of, displacement_size, rex_x, rex_b, encode_rex,
  encode_rex_r, encode_mod_reg_rm_r, encode_rex_m, encode_mod_reg_rm_m, copy_displacement, Operand,
  register, memory, Immediate, encode_immediate, encode_instruction,
}
use crex.X64.Decode.{
  Read, Register, low, Location, in_named, at_address, named, located, Instruction, Place,
  in_register, in_memory, placed, read_sib, read_byte, read_dword, read_displacement, read_operand,
  finish, read_instruction,
}
use crex.X64.Bits.{mod_reg_rm-sum, rex-sum, IsForm, nothing, short, long, mode_of-IsForm}
use crex.X64.RoundTrip.{
  mode-lt, first_of, second_of, IsMemory, address_of, encode_mod_reg_rm_m-Reads,
}

-- An opcode that is not empty and does not begin like a prefix.
pub data IsOpcode : List ℕ → Type 0 where
  opcode : {c : ℕ} {cs : List ℕ} → c / 16 ≢ 4 → IsOpcode (c ∷ cs)

-- Registers are in range, and as a byte not from 4 to 7; an operand in memory can be written.
pub data IsOperand (rm_byte : Bool) : Operand → Type 0 where
  in_range : {rm : ℕ} → rm < 16 → (rm_byte ≡ true → rm / 4 ≢ 1) → IsOperand rm_byte (register rm)
  addressable : {rm : Memory} → IsMemory rm → IsOperand rm_byte (memory rm)

abbrev pub location_of : Operand → Location
location_of (register rm) = in_named (low rm)
location_of (memory rm) = at_address (address_of rm)

take-front : (xs ys : List ℕ) → take (length xs) (xs ++ ys) ≡ xs
take-front [] ys = refl
take-front (x ∷ xs) ys = ap (λ zs. x ∷ zs) (take-front xs ys)

drop-front : (xs ys : List ℕ) → drop (length xs) (xs ++ ys) ≡ ys
drop-front [] ys = refl
drop-front (x ∷ xs) ys = drop-front xs ys

-- An instruction is finished, with the flags of the opcode or with none.
pub record IsFinished (reg_byte rm_byte : Bool) (w : ℕ) (code : List ℕ) (read : Read)
    (i : Option Instruction) : Type 0 where
  pub reg_second : Bool
  pub rm_second : Bool
  pub finished : i ≡ finish reg_second rm_second w code read
  pub reg_only : reg_second ≡ true → reg_byte ≡ true
  pub rm_only : rm_second ≡ true → rm_byte ≡ true

module _ (reg_byte rm_byte : Bool) where
  plain_read :
      (code tail : List ℕ)
      → IsOpcode code
      → read_instruction reg_byte rm_byte (length code) (code ++ tail)
        ≡ finish reg_byte rm_byte 0 code (read_operand 0 0 0 tail)
  unfolding read_instruction
  plain_read [] tail o = elim o [ ]
  plain_read (c ∷ cs) tail (opcode n) =
      let plain : (c / 16 == 4) ≡ false = ground arith in
      rw (read_instruction, plain) (rw (take-front cs tail, drop-front cs tail) refl)

  prefix_read :
      (byte w r x b : ℕ) (code tail : List ℕ)
      → byte / 16 ≡ 4
      → byte / 8 % 2 ≡ w
      → byte / 4 % 2 ≡ r
      → byte / 2 % 2 ≡ x
      → byte % 2 ≡ b
      → read_instruction reg_byte rm_byte (length code) (byte ∷ (code ++ tail))
        ≡ finish false false w code (read_operand r x b tail)
  unfolding read_instruction
  prefix_read byte w r x b code tail f h k l m =
      rw (read_instruction, f)
        (rw (h, k, l, m) (rw (take-front code tail, drop-front code tail) refl))

  finish_as :
      (w r x b w' r' x' b' : ℕ) (code tail : List ℕ)
      → w' ≡ w
      → r' ≡ r
      → x' ≡ x
      → b' ≡ b
      → finish reg_byte rm_byte w' code (read_operand r' x' b' tail)
        ≡ finish reg_byte rm_byte w code (read_operand r x b tail)
  finish_as w r x b w' r' x' b' code tail h k l m = rw (h, k, l, m) refl

  -- The prefix is read in front of an opcode, or its absence as four bits that are not set.
  encode_rex-IsFinished :
      (w r x b : ℕ) (code tail : List ℕ)
      → w < 2
      → r < 2
      → x < 2
      → b < 2
      → IsOpcode code
      → IsFinished reg_byte rm_byte w code
          (read_operand r x b tail)
          (read_instruction reg_byte rm_byte (length code) (encode_rex w r x b ++ (code ++ tail)))
  unfolding encode_rex
  encode_rex-IsFinished w r x b code tail h k l m o =
      elim (Bool-cases (w == 0 && r == 0 && x == 0 && b == 0)) [
        | inl e ↦ record {
          reg_second = reg_byte;
          rm_second = rm_byte;
          finished =
              ap (λ bs. read_instruction reg_byte rm_byte (length code) (bs ++ (code ++ tail)))
                (first_of _ _ _ e)
              ∙ plain_read code tail o
              ∙ finish_as w r x b 0 0 0 0 code tail (ground arith) (ground arith) (ground arith)
                  (ground arith);
          reg_only = λ q. q;
          rm_only = λ q. q;
        }
        | inr e ↦
            let byte = rex-sum w r x b h k l m in
            record {
              reg_second = false;
              rm_second = false;
              finished =
                  ap (λ bs. read_instruction reg_byte rm_byte (length code) (bs ++ (code ++ tail)))
                    (second_of _ _ _ e)
                  ∙ prefix_read (rex w r x b) w r x b code tail (omega (arith, byte))
                      (omega (arith, byte)) (omega (arith, byte)) (omega (arith, byte))
                      (omega (arith, byte));
              reg_only = λ q. cc;
              rm_only = λ q. cc;
            }
      ]

-- A number that is not from 4 to 7 names no second byte.
named-low :
    (byte second : Bool) (n : ℕ)
    → (second ≡ true → byte ≡ true)
    → (byte ≡ true → n / 4 ≢ 1)
    → named second n ≡ low n
unfolding named
named-low byte true n h k =
    let apart = k (h refl) in
    let test : (n / 4 == 1) ≡ false = ground (arith, apart) in rw test refl
named-low byte false n h k = refl

encode_mod_reg_rm_r-read :
    (reg rm : ℕ) (rest : List ℕ)
    → reg < 16
    → rm < 16
    → read_operand (reg / 8) 0 (rm / 8) (encode_mod_reg_rm_r reg rm ++ rest)
      ≡ some (reg, (in_register rm, rest))
unfolding encode_mod_reg_rm_r read_operand
encode_mod_reg_rm_r-read reg rm rest h k =
    let head = mod_reg_rm-sum 3 (reg % 8) (rm % 8) (omega arith) (omega arith) (omega arith) in
    let first : (3 * 64 + reg % 8 * 8 + rm % 8) / 64 ≡ 3 = omega arith in
    let second : (3 * 64 + reg % 8 * 8 + rm % 8) / 8 % 8 ≡ reg % 8 = omega arith in
    let third : (3 * 64 + reg % 8 * 8 + rm % 8) % 8 ≡ rm % 8 = omega arith in
    let whole_reg : reg / 8 * 8 + reg % 8 ≡ reg = omega arith in
    let whole_rm : rm / 8 * 8 + rm % 8 ≡ rm = omega arith in
    rw head (rw (first, second, third) (rw (whole_reg, whole_rm) refl))

bit_of : (has : Bool) (n : ℕ) → n < 16 → (if has then n / 8 else 0) < 2
bit_of true n h = omega arith
bit_of false n h = omega arith

unset_of : (has : Bool) (n : ℕ) → n < 16 → (if has then 0 else n / 8) < 2
unset_of true n h = omega arith
unset_of false n h = omega arith

-- The bit of the prefix, which an extension does not need.
extended :
    (is_extension : Bool) (reg : ℕ)
    → (is_extension ≡ true → reg < 8)
    → (if is_extension then 0 else reg / 8) ≡ reg / 8
extended true reg h = let below = h refl in omega arith
extended false reg h = refl

abbrev pub IsReadBack : Bool → Bool → ℕ → List ℕ → Bool → ℕ → Immediate → List ℕ → Operand → Type 0
IsReadBack reg_byte rm_byte w code is_extension reg i rest operand =
    read_instruction reg_byte rm_byte (length code)
      (encode_instruction w code is_extension reg operand i ++ rest)
    ≡ some (record {
      w = w;
      opcode = code;
      reg = low reg;
      place = location_of operand;
      rest = encode_immediate i ++ rest;
    })

module _ (reg_byte rm_byte : Bool) (w : ℕ) (code : List ℕ) (is_extension : Bool) (reg : ℕ)
    (i : Immediate) (rest : List ℕ) (h : w < 2) (o : IsOpcode code) (k : reg < 16)
    (e : is_extension ≡ true → reg < 8) (q : reg_byte ≡ true → reg / 4 ≢ 1) where
  -- The bytes behind the opcode, which are read for themselves.
  operand_read :
      (x b : ℕ) (operand_bytes : List ℕ) (place : Place) (location : Location)
      → x < 2
      → b < 2
      → read_operand (reg / 8) x b (operand_bytes ++ (encode_immediate i ++ rest))
        ≡ some (reg, (place, encode_immediate i ++ rest))
      → ((second : Bool) → (second ≡ true → rm_byte ≡ true) → located second place ≡ location)
      → read_instruction reg_byte rm_byte (length code) (
          (encode_rex w (if is_extension then 0 else reg / 8) x b
            ++ (code ++ (operand_bytes ++ encode_immediate i)))
          ++ rest)
        ≡ some (record {
          w = w;
          opcode = code;
          reg = low reg;
          place = location;
          rest = encode_immediate i ++ rest;
        })
  unfolding finish
  operand_read x b operand_bytes place location l m read names =
      let prefix = encode_rex w (if is_extension then 0 else reg / 8) x b in
      let f =
        encode_rex-IsFinished reg_byte rm_byte w (if is_extension then 0 else reg / 8) x b code
          (operand_bytes ++ (encode_immediate i ++ rest)) h (unset_of is_extension reg k) l m o in
      ap (read_instruction reg_byte rm_byte (length code)) (
        append_assoc prefix (code ++ (operand_bytes ++ encode_immediate i)) rest
        ∙ ap (λ bs. prefix ++ bs)
            (append_assoc code (operand_bytes ++ encode_immediate i) rest
              ∙ ap (λ bs. code ++ bs) (append_assoc operand_bytes (encode_immediate i) rest)))
      ∙ f.finished
      ∙ ap
          (λ r.
            finish f.reg_second f.rm_second w code
              (read_operand r x b (operand_bytes ++ (encode_immediate i ++ rest))))
          (extended is_extension reg e)
      ∙ ap (finish f.reg_second f.rm_second w code) read
      ∙ ap (λ n. written n (located f.rm_second place))
          (named-low reg_byte f.reg_second reg f.reg_only q)
      ∙ ap (written (low reg)) (names f.rm_second f.rm_only)
    where
      written : Register → Location → Option Instruction
      written n at =
          some (record {
            w = w;
            opcode = code;
            reg = n;
            place = at;
            rest = encode_immediate i ++ rest;
          })

  -- An instruction with a ModRM byte that is written is read by the rules of the processor as it was
  -- meant, whatever code follows: with its `w`, its opcode, its register or extension, its operand, and
  -- the bytes of its immediate behind it. The registers are in range, where the opcode takes a byte of a
  -- register its number is not from 4 to 7, and an operand in memory has a displacement of 32 bits, no
  -- stack pointer for an index, and not R12 alone for a base.
  pub encode_instruction-read :
      (operand : Operand)
      → IsOperand rm_byte operand
      → IsReadBack reg_byte rm_byte w code is_extension reg i rest operand
  unfolding encode_instruction encode_rex_r encode_rex_m rex_x rex_b located
  encode_instruction-read (register rm) (in_range l n) =
      operand_read 0 (rm / 8) (encode_mod_reg_rm_r reg rm) (in_register rm) (in_named (low rm))
        (omega arith) (omega arith)
        (encode_mod_reg_rm_r-read reg rm (encode_immediate i ++ rest) k l)
        (λ second f. ap in_named (named-low rm_byte second rm f n))
  encode_instruction-read (memory rm) (addressable m) =
      operand_read (rex_x rm) (rex_b rm) (encode_mod_reg_rm_m reg rm) (in_memory (address_of rm))
        (at_address (address_of rm)) (bit_of rm.has_index rm.index m.index)
        (unset_of rm.rip_relative rm.base m.base)
        (encode_mod_reg_rm_m-Reads rm m reg k (encode_immediate i ++ rest)) (λ second f. refl)

no_sib :
    (base d mode size reg : ℕ)
    → IsForm base d mode size
    → read_sib 0 1 mode reg (copy_displacement d size) ≡ none
unfolding read_sib copy_displacement placed read_displacement read_byte read_dword
no_sib base d _ _ reg (nothing e k l) = refl
no_sib base d _ _ reg (short e) = refl
no_sib base d _ _ reg long = refl

-- What is written for a base of R12 with no index, whatever the displacement, is no whole operand to the
-- processor: its ModRM byte asks for a SIB byte that is not written.
pub encode_mod_reg_rm_m_unreadable :
    (reg displacement : ℕ)
    → reg < 16
    → read_operand (reg / 8) 0 (r12 / 8) (encode_mod_reg_rm_m reg (indirect_reg r12 displacement))
      ≡ none
unfolding encode_mod_reg_rm_m read_operand
encode_mod_reg_rm_m_unreadable reg d h =
    let rm = indirect_reg r12 d in
    let f = mode_of-IsForm rm refl in
    let small = mode-lt r12 d (mode_of rm) (displacement_size rm) f in
    let head = mod_reg_rm-sum (mode_of rm) (reg % 8) 4 (omega arith) (omega arith) (omega arith) in
    let second : (mode_of rm * 64 + reg % 8 * 8 + 4) / 64 ≡ mode_of rm = omega arith in
    let third : (mode_of rm * 64 + reg % 8 * 8 + 4) % 8 ≡ 4 = omega arith in
    let memory_mode : (mode_of rm == 3) ≡ false = ground arith in
    rw head
      (rw (second, third) (rw memory_mode (no_sib r12 d (mode_of rm) (displacement_size rm) _ f)))
