-- ===== src/X64/RoundTrip.antt =====
-- The operands that src/x64-encoding.c writes are those that a processor reads.
use crex.Base.{
  ℕ, ◌+◌, ◌*◌, ◌/◌, ◌%◌, ◌<◌, ◌≡◌, ◌≢◌, ◌⊎◌, refl, sym, ap, ◌∙◌, Bool, true, false, Option, none,
  some, List, ◌∷◌, ◌++◌, ltb, ◌==◌, ◌||◌, ◌&&◌, Bool-cases, inl, inr, if◌then◌else◌, arith,
}
use crex.X64.{
  Memory, rsp, rbp, r12, r13, mod_reg_rm, sib, copy_displacement, mode_of, displacement_size,
  sib_index, rex_x, rex_b, encode_mod_reg_rm_m,
}
use crex.X64.Decode.{
  Address, behind, at, in_memory, read_displacement, placed, read_sib, read_operand,
}
use crex.X64.Bits.{
  mod_reg_rm-sum, sib-sum, IsDword, IsForm, nothing, short, long, mode_of-IsForm,
  read_displacement-copy_displacement, read_dword-copy_displacement,
}

-- What a `memory_t` means.
abbrev pub index_of : Memory → Option (ℕ × ℕ)
index_of rm = if rm.has_index then some (rm.scale, rm.index) else none

abbrev pub address_of : Memory → Address
address_of rm =
    if rm.rip_relative then behind rm.displacement else at rm.base (index_of rm) rm.displacement

-- Registers and scales are in range, the stack pointer is no index, and the displacement has 32 bits.
-- R12 without an index is left out.
pub record IsMemory (rm : Memory) : Type 0 where
  pub base : rm.base < 16
  pub scale : rm.scale < 4
  pub index : rm.index < 16
  pub not_rsp : rm.has_index ≡ true → rm.index ≢ rsp
  pub displacement : IsDword rm.displacement
  pub not_r12 : rm.rip_relative ≡ false → rm.has_index ≡ false → rm.base ≢ r12

pub mode-lt : (base d mode size : ℕ) → IsForm base d mode size → mode < 3
mode-lt base d _ _ (nothing e k l) = omega arith
mode-lt base d _ _ (short e) = omega arith
mode-lt base d _ _ long = omega arith

-- A ModRM byte, with and without a SIB byte.
read_operand_sib :
    (r x b mode reg scale index base : ℕ) (tail rest : List ℕ) (d : ℕ)
    → mode < 3
    → reg < 8
    → index < 8
    → base < 8
    → (mode ≡ 0 → base ≢ 5)
    → read_displacement mode tail ≡ some (d, rest)
    → read_operand r x b ((mode * 64 + reg * 8 + 4) ∷ (scale * 64 + index * 8 + base) ∷ tail)
      ≡ some (
        r * 8 + reg,
        (
          in_memory (
              at
                (b * 8 + base)
                (if x * 8 + index == 4 then none else some (scale, x * 8 + index))
                d),
          rest,
        ),
      )
unfolding read_operand read_sib placed
read_operand_sib r x b mode reg scale index base tail rest d h k l n z e =
    let first : (mode * 64 + reg * 8 + 4) / 64 ≡ mode = omega arith in
    let second : (mode * 64 + reg * 8 + 4) / 8 % 8 ≡ reg = omega arith in
    let third : (mode * 64 + reg * 8 + 4) % 8 ≡ 4 = omega arith in
    let fourth : (scale * 64 + index * 8 + base) / 64 ≡ scale = omega arith in
    let fifth : (scale * 64 + index * 8 + base) / 8 % 8 ≡ index = omega arith in
    let sixth : (scale * 64 + index * 8 + base) % 8 ≡ base = omega arith in
    let memory_mode : (mode == 3) ≡ false = ground arith in
    let based : (mode == 0 && base == 5) ≡ false = ground arith in
    rw (first, second, third) (rw (fourth, fifth, sixth) (rw (memory_mode, based, e) refl))

read_operand_plain :
    (r x b mode reg base : ℕ) (tail rest : List ℕ) (d : ℕ)
    → mode < 3
    → reg < 8
    → base < 8
    → base ≢ 4
    → (mode ≡ 0 → base ≢ 5)
    → read_displacement mode tail ≡ some (d, rest)
    → read_operand r x b ((mode * 64 + reg * 8 + base) ∷ tail)
      ≡ some (r * 8 + reg, (in_memory (at (b * 8 + base) none d), rest))
unfolding read_operand placed
read_operand_plain r x b mode reg base tail rest d h k l n z e =
    let first : (mode * 64 + reg * 8 + base) / 64 ≡ mode = omega arith in
    let second : (mode * 64 + reg * 8 + base) / 8 % 8 ≡ reg = omega arith in
    let third : (mode * 64 + reg * 8 + base) % 8 ≡ base = omega arith in
    let memory_mode : (mode == 3) ≡ false = ground arith in
    let four : (base == 4) ≡ false = ground arith in
    let based : (mode == 0 && base == 5) ≡ false = ground arith in
    rw (first, second, third) (rw (memory_mode, four, based, e) refl)

five_of : (base : ℕ) → base < 16 → base % 8 ≡ 5 → (base ≡ rbp) ⊎ (base ≡ r13)
five_of base h f = elim (Bool-cases (ltb base 8)) [
  | inl e ↦ inl (ground arith)
  | inr e ↦ inr (ground arith)
]

no_base : (base d mode size : ℕ) → base < 16 → IsForm base d mode size → mode ≡ 0 → base % 8 ≢ 5
no_base base d _ _ h (nothing e k l) z f = elim (five_of base h f) [ inl i ↦ k i | inr i ↦ l i ]
no_base base d _ _ h (short e) z f = absurd (omega arith)
no_base base d _ _ h long z f = absurd (omega arith)

pub second_of {ℓ} : {A : Type ℓ} (b : Bool) (x y : A) → b ≡ false → (if b then x else y) ≡ y
second_of true x y e = absurd (ground arith)
second_of false x y e = refl

pub first_of {ℓ} : {A : Type ℓ} (b : Bool) (x y : A) → b ≡ true → (if b then x else y) ≡ x
first_of true x y e = refl
first_of false x y e = absurd (ground arith)

abbrev scaled : ℕ → ℕ → Option (ℕ × ℕ)
scaled scale index = some (scale, index)

-- The index of the SIB byte, with its high bit from the prefix.
indexed :
    (has_index : Bool) (scale index : ℕ)
    → index < 16
    → (has_index ≡ true → index ≢ rsp)
    → ((if has_index then index % 8 else rsp) < 8)
      × ((if (if has_index then index / 8 else 0) * 8 + (if has_index then index % 8 else rsp) == 4
            then none
            else scaled scale
                ((if has_index then index / 8 else 0) * 8 + (if has_index then index % 8 else rsp)))
          ≡ (if has_index then scaled scale index else none))
indexed false scale index h k = (omega arith, refl)
indexed true scale index h k =
    let whole : index / 8 * 8 + index % 8 ≡ index = omega arith in
    let other : (index == 4) ≡ false = ground (arith, k refl) in
    (omega arith, rw (whole, other) refl)

module _ (rm : Memory) (m : IsMemory rm) (reg : ℕ) (h : reg < 16) (rest : List ℕ) where
  abbrev Reads : ℕ → List ℕ → Address → Type 0
  Reads b bytes address =
      read_operand (reg / 8) (rex_x rm) b (bytes ++ rest) ≡ some (reg, (in_memory address, rest))

  -- The bytes of the displacement.
  abbrev tail : List ℕ
  tail = copy_displacement rm.displacement (displacement_size rm)

  sib-Reads :
      rm.rip_relative ≡ false
      → Reads
          (rm.base / 8)
          (mod_reg_rm (mode_of rm) (reg % 8) 4 ∷ sib rm.scale (sib_index rm) (rm.base % 8) ∷ tail)
          (at rm.base (index_of rm) rm.displacement)
  unfolding rex_x sib_index
  sib-Reads e =
      let f = mode_of-IsForm rm e in
      let small = mode-lt rm.base rm.displacement (mode_of rm) (displacement_size rm) f in
      let (below, same) = indexed rm.has_index rm.scale rm.index m.index m.not_rsp in
      let head =
        mod_reg_rm-sum (mode_of rm) (reg % 8) 4 (omega arith) (omega arith) (omega arith) in
      let next = sib-sum rm.scale (sib_index rm) (rm.base % 8) m.scale below (omega arith) in
      let whole_reg : reg / 8 * 8 + reg % 8 ≡ reg = omega arith in
      let whole_base : rm.base / 8 * 8 + rm.base % 8 ≡ rm.base = omega arith in
      ap
        (λ c.
          read_operand (reg / 8) (rex_x rm) (rm.base / 8)
            (c ∷ sib rm.scale (sib_index rm) (rm.base % 8) ∷ (tail ++ rest)))
        head
      ∙ ap
          (λ c.
            read_operand (reg / 8) (rex_x rm) (rm.base / 8)
              ((mode_of rm * 64 + reg % 8 * 8 + 4) ∷ c ∷ (tail ++ rest)))
          next
      ∙ read_operand_sib (reg / 8) (rex_x rm) (rm.base / 8) (mode_of rm) (reg % 8) rm.scale
          (sib_index rm) (rm.base % 8) (tail ++ rest) rest rm.displacement small (omega arith) below
          (omega arith)
          (no_base rm.base rm.displacement (mode_of rm) (displacement_size rm) m.base f)
          (read_displacement-copy_displacement rm.base rm.displacement (mode_of rm)
            (displacement_size rm) rest f m.displacement)
      ∙ ap
          (λ i. some (
            reg / 8 * 8 + reg % 8,
            (in_memory (at (rm.base / 8 * 8 + rm.base % 8) i rm.displacement), rest),
          ))
          same
      ∙ ap
          (λ n. some (
            n,
            (in_memory (at (rm.base / 8 * 8 + rm.base % 8) (index_of rm) rm.displacement), rest),
          ))
          whole_reg
      ∙ ap (λ n. some (reg, (in_memory (at n (index_of rm) rm.displacement), rest))) whole_base

  plain-Reads :
      rm.rip_relative ≡ false
      → rm.has_index ≡ false
      → rm.base ≢ rsp
      → Reads
          (rm.base / 8)
          (mod_reg_rm (mode_of rm) (reg % 8) (rm.base % 8) ∷ tail)
          (at rm.base none rm.displacement)
  plain-Reads e k n =
      let f = mode_of-IsForm rm e in
      let small = mode-lt rm.base rm.displacement (mode_of rm) (displacement_size rm) f in
      let head =
        mod_reg_rm-sum (mode_of rm) (reg % 8) (rm.base % 8) (omega arith) (omega arith)
          (omega arith) in
      let other = m.not_r12 e k in
      let whole_reg : reg / 8 * 8 + reg % 8 ≡ reg = omega arith in
      let whole_base : rm.base / 8 * 8 + rm.base % 8 ≡ rm.base = omega arith in
      ap (λ c. read_operand (reg / 8) (rex_x rm) (rm.base / 8) (c ∷ (tail ++ rest))) head
      ∙ read_operand_plain (reg / 8) (rex_x rm) (rm.base / 8) (mode_of rm) (reg % 8) (rm.base % 8)
          (tail ++ rest) rest rm.displacement small (omega arith) (omega arith)
          (λ four. four_of rm.base m.base four n other)
          (no_base rm.base rm.displacement (mode_of rm) (displacement_size rm) m.base f)
          (read_displacement-copy_displacement rm.base rm.displacement (mode_of rm)
            (displacement_size rm) rest f m.displacement)
      ∙ ap
          (λ n.
            some (n, (in_memory (at (rm.base / 8 * 8 + rm.base % 8) none rm.displacement), rest)))
          whole_reg
      ∙ ap (λ n. some (reg, (in_memory (at n none rm.displacement), rest))) whole_base
    where
      four_of : (base : ℕ) → base < 16 → base % 8 ≡ 4 → base ≢ rsp → base ≢ r12 → ⊥
      four_of base h f k l = elim (Bool-cases (ltb base 8)) [
        | inl e ↦ k (ground arith)
        | inr e ↦ l (ground arith)
      ]

  rip-Reads :
      Reads 0
        (mod_reg_rm 0 (reg % 8) rbp ∷ copy_displacement rm.displacement 4)
        (behind rm.displacement)
  unfolding read_operand placed
  rip-Reads =
      let head = mod_reg_rm-sum 0 (reg % 8) rbp (omega arith) (omega arith) (omega arith) in
      let first : (0 * 64 + reg % 8 * 8 + 5) / 64 ≡ 0 = omega arith in
      let second : (0 * 64 + reg % 8 * 8 + 5) / 8 % 8 ≡ reg % 8 = omega arith in
      let third : (0 * 64 + reg % 8 * 8 + 5) % 8 ≡ 5 = omega arith in
      let whole_reg : reg / 8 * 8 + reg % 8 ≡ reg = omega arith in
      ap
        (λ c.
          read_operand (reg / 8) (rex_x rm) 0 (c ∷ (copy_displacement rm.displacement 4 ++ rest)))
        head
      ∙ rw (first, second, third)
          (rw (read_dword-copy_displacement rm.displacement rest m.displacement)
            (rw whole_reg refl))

  Reads-eq :
      (b b' : ℕ) (bytes bytes' : List ℕ) (address address' : Address)
      → b ≡ b'
      → bytes ≡ bytes'
      → address ≡ address'
      → Reads b' bytes' address'
      → Reads b bytes address
  Reads-eq b b' bytes bytes' address address' e k l r =
      ap (λ n. read_operand (reg / 8) (rex_x rm) n (bytes ++ rest)) e
      ∙ ap (λ c. read_operand (reg / 8) (rex_x rm) b' (c ++ rest)) k
      ∙ r
      ∙ ap (λ c. some (reg, (in_memory c, rest))) (sym l)

  -- What is written for an operand in memory is read as the register and the address that were meant.
  pub encode_mod_reg_rm_m-Reads : Reads (rex_b rm) (encode_mod_reg_rm_m reg rm) (address_of rm)
  unfolding encode_mod_reg_rm_m rex_b displacement_size
  encode_mod_reg_rm_m-Reads = elim (Bool-cases rm.rip_relative) [
    | inl e ↦
        Reads-eq _ _ _ _ _ _ (first_of rm.rip_relative _ _ e)
          (first_of rm.rip_relative _ _ e
            ∙ ap (λ n. mod_reg_rm 0 (reg % 8) rbp ∷ copy_displacement rm.displacement n)
                (first_of rm.rip_relative _ _ e))
          (first_of rm.rip_relative _ _ e) rip-Reads
    | inr e ↦ elim (Bool-cases (rm.has_index || rm.base == rsp)) [
      | inl k ↦
          Reads-eq _ _ _ _ _ _ (second_of rm.rip_relative _ _ e)
            (second_of rm.rip_relative _ _ e ∙ first_of (rm.has_index || rm.base == rsp) _ _ k)
            (second_of rm.rip_relative _ _ e) (sib-Reads e)
      | inr k ↦
          let unindexed : rm.has_index ≡ false = ground arith in
          Reads-eq _ _ _ _ _ _ (second_of rm.rip_relative _ _ e)
            (second_of rm.rip_relative _ _ e ∙ second_of (rm.has_index || rm.base == rsp) _ _ k)
            (second_of rm.rip_relative _ _ e
              ∙ ap (λ i. at rm.base i rm.displacement) (second_of rm.has_index _ _ unindexed))
            (plain-Reads e unindexed (λ n. ground arith))
    ]
  ]
