-- ===== src/Assembler/Labels/Jumps.antt =====
-- The instructions with labels that `resolve_assembler_labels` of src/assembler.c writes, as the processor
-- reads them.
use crex.Base.{
  ℕ, zero, ◌+◌, ◌*◌, ◌/◌, ◌%◌, ◌^◌, ◌≤◌, ◌<◌, ◌≡◌, ◌≢◌, ◌||◌, ◌&&◌, refl, ap, ◌∙◌, inl, inr, Bool,
  Bool-cases, true, false, Option, none, some, List, [], ◌∷◌, ◌++◌, leb, ◌==◌, if◌then◌else◌, arith,
}
use crex.Vm.{sub_size}
use crex.X64.{rbp, rex, mod_reg_rm, is_byte, copy_displacement}
use crex.X64.Decode.{read_displacement}
use crex.X64.Bits.{
  IsDword, positive, negative, read_short, read_dword-copy_displacement, mod_reg_rm-sum, rex-sum,
}
use crex.Assembler.{UseType, LabelUse}
use crex.Assembler.Labels.{encode_use, reserved_size}
use crex.Assembler.Labels.Spans.{gain}

-- The address that a displacement of one byte, or of four, leads to from the next instruction.
abbrev from_next : ℕ → ℕ → List ℕ → Option ℕ
from_next mode next rest = elim (read_displacement mode rest) [
  | none ↦ none
  | some (d, _) ↦ some ((next + d) % 2 ^ 64)
]

abbrev leads_two : ℕ → List ℕ → Option ℕ
leads_two position [] = none
leads_two position (b ∷ rest) = if b / 16 == 8 then from_next 2 (position + 6) rest else none

abbrev leads_lea : ℕ → List ℕ → Option ℕ
leads_lea position (b ∷ m ∷ rest) =
    if b == 0x8d && m / 64 == 0 && m % 8 == 5 then from_next 2 (position + 7) rest else none
leads_lea position _ = none

-- Where an instruction at a position leads: the target of a call or a jump, or the address that is loaded.
unfoldable pub leads_to : ℕ → List ℕ → Option ℕ
leads_to position [] = none
leads_to position (b ∷ rest) =
    if b == 0xeb || b / 16 == 7
    then from_next 1 (position + 2) rest
    else if b == 0xe9 || b == 0xe8
    then from_next 2 (position + 5) rest
    else if b == 0x0f
    then leads_two position rest
    else if b / 8 == 9
    then leads_lea position rest
    else none

sub_size-IsDword :
    (target next : ℕ) → target < 2 ^ 31 → next < 2 ^ 31 → IsDword (sub_size target next)
sub_size-IsDword target next h k = elim (Bool-cases (leb next target)) [
  | inl e ↦ positive (ground arith)
  | inr e ↦ negative (ground arith) (omega arith)
]

module _ (target next : ℕ) (rest : List ℕ) (h : target < 2 ^ 31) (k : next < 2 ^ 31) where
  near_displacement :
      read_displacement 2 (copy_displacement (sub_size target next) 4 ++ rest)
      ≡ some (sub_size target next, rest)
  unfolding read_displacement
  near_displacement =
      read_dword-copy_displacement (sub_size target next) rest (sub_size-IsDword target next h k)

  from_near : from_next 2 next (copy_displacement (sub_size target next) 4 ++ rest) ≡ some target
  from_near = rw (near_displacement, from_next) (ap some (omega arith))

  from_short :
      is_byte (sub_size target next) ≡ true
      → from_next 1 next (copy_displacement (sub_size target next) 1 ++ rest) ≡ some target
  from_short e =
      rw (read_short (sub_size target next) rest (sub_size-IsDword target next h k) e, from_next)
        (ap some (omega arith))

module _ (u : LabelUse) (code target : ℕ) (rest : List ℕ) (target_small : target < 2 ^ 31)
    (condition : u.jcc_type < 16) (register : u.reg < 16) where
  call_leads :
      code + 5 < 2 ^ 31
      → leads_to code (encode_use UseType.call u code target ++ rest) ≡ some target
  unfolding leads_to encode_use
  call_leads c = from_near target (code + 5) rest target_small (omega arith)

  lea_leads :
      code + 7 < 2 ^ 31 → leads_to code (encode_use UseType.lea u code target ++ rest) ≡ some target
  unfolding leads_to encode_use
  lea_leads c =
      let first : rex 1 (u.reg / 8) 0 0 ≡ 72 + u.reg / 8 * 4 =
        rex-sum 1 (u.reg / 8) 0 0 (omega arith) (omega arith) (omega arith) (omega arith)
        ∙ omega arith in
      let second : mod_reg_rm 0 (u.reg % 8) rbp ≡ u.reg % 8 * 8 + 5 =
        mod_reg_rm-sum 0 (u.reg % 8) rbp (omega arith) (omega arith) (omega arith) ∙ omega arith in
      let read = from_near target (code + 7) rest target_small (omega arith) in
      rw (first, second) (ground (arith, read))

  jcc_leads :
      code + 6 < 2 ^ 31
      → (short : Bool) → u.is_short ≡ short
      → (short ≡ true → is_byte (sub_size target (code + 2)) ≡ true)
      → leads_to code (encode_use UseType.jcc u code target ++ rest) ≡ some target
  unfolding leads_to encode_use
  jcc_leads c true e h =
      let read = from_short target (code + 2) rest target_small (omega arith) (h refl) in
      rw e (ground (arith, read))
  jcc_leads c false e h =
      let read = from_near target (code + 6) rest target_small (omega arith) in
      rw e (ground (arith, read))

  jmp_leads :
      code + 5 < 2 ^ 31
      → (short : Bool) → u.is_short ≡ short
      → (short ≡ true → is_byte (sub_size target (code + 2)) ≡ true)
      → leads_to code (encode_use UseType.jmp u code target ++ rest) ≡ some target
  unfolding leads_to encode_use
  jmp_leads c true e h =
      rw e (from_short target (code + 2) rest target_small (omega arith) (h refl))
  jmp_leads c false e h = rw e (from_near target (code + 5) rest target_small (omega arith))

  -- What is written for a use leads to the value of its label.
  pub leads_to-encode_use :
      (t : UseType)
      → t ≢ UseType.definition
      → code + reserved_size t < 2 ^ 31
      → (zero < gain t → u.is_short ≡ true → is_byte (sub_size target (code + 2)) ≡ true)
      → leads_to code (encode_use t u code target ++ rest) ≡ some target
  unfolding reserved_size
  leads_to-encode_use UseType.definition n c h = absurd (n refl)
  leads_to-encode_use UseType.call n c h = call_leads c
  leads_to-encode_use UseType.lea n c h = lea_leads c
  leads_to-encode_use UseType.jcc n c h = jcc_leads c u.is_short refl (h (omega arith))
  leads_to-encode_use UseType.jmp n c h = jmp_leads c u.is_short refl (h (omega arith))

pub is_byte_between :
    (target next : ℕ)
    → target < 2 ^ 31
    → next < 2 ^ 31
    → next ≤ target + 128
    → target ≤ next + 127
    → is_byte (sub_size target next) ≡ true
unfolding is_byte
is_byte_between target next h k l m = elim (Bool-cases (leb next target)) [
  | inl e ↦ ground arith
  | inr e ↦ ground arith
]
