-- ===== src/X64/Bits.antt =====
-- The bytes of src/x64-encoding.c as sums, and its displacements as they are read.
use crex.Base.{
  ℕ, ◌+◌, ◌-◌, ◌*◌, ◌/◌, ◌%◌, ◌^◌, ◌≤◌, ◌<◌, ◌≡◌, ◌≢◌, refl, true, false, some, List, ◌++◌, leb,
  ◌==◌, ◌||◌, ◌&&◌, not, all_below, all_below_sound, Bool-cases, inl, inr, arith,
}
use crex.X64.{
  Memory, rbp, r13, rex, mod_reg_rm, sib, is_byte, copy_displacement, mode_of, displacement_size,
}
use crex.X64.Decode.{extend_byte, extend_dword, read_displacement, read_dword}

mod_reg_rm_table : all_below 256 (λ i. mod_reg_rm (i / 64) (i / 8 % 8) (i % 8) == i) ≡ true
unfolding all_below mod_reg_rm
mod_reg_rm_table = refl

pub mod_reg_rm-sum :
    (mode reg rm : ℕ)
    → mode < 4
    → reg < 8
    → rm < 8
    → mod_reg_rm mode reg rm ≡ mode * 64 + reg * 8 + rm
mod_reg_rm-sum mode reg rm h k l =
    let i = mode * 64 + reg * 8 + rm in
    let first : (mode * 64 + reg * 8 + rm) / 64 ≡ mode = omega arith in
    let second : (mode * 64 + reg * 8 + rm) / 8 % 8 ≡ reg = omega arith in
    let third : (mode * 64 + reg * 8 + rm) % 8 ≡ rm = omega arith in
    let table =
      all_below_sound 256 (λ j. mod_reg_rm (j / 64) (j / 8 % 8) (j % 8) == j) i mod_reg_rm_table
        (omega arith) in
    let same = rw (first, second, third) at table in ground arith

pub sib-sum :
    (scale index base : ℕ)
    → scale < 4
    → index < 8
    → base < 8
    → sib scale index base ≡ scale * 64 + index * 8 + base
unfolding sib mod_reg_rm
sib-sum scale index base h k l = mod_reg_rm-sum scale index base h k l

rex_table : all_below 16 (λ i. rex (i / 8) (i / 4 % 2) (i / 2 % 2) (i % 2) == (64 + i)) ≡ true
unfolding all_below rex
rex_table = refl

pub rex-sum :
    (w r x b : ℕ) → w < 2 → r < 2 → x < 2 → b < 2 → rex w r x b ≡ 64 + (w * 8 + r * 4 + x * 2 + b)
rex-sum w r x b h k l m =
    let i = w * 8 + r * 4 + x * 2 + b in
    let first : (w * 8 + r * 4 + x * 2 + b) / 8 ≡ w = omega arith in
    let second : (w * 8 + r * 4 + x * 2 + b) / 4 % 2 ≡ r = omega arith in
    let third : (w * 8 + r * 4 + x * 2 + b) / 2 % 2 ≡ x = omega arith in
    let fourth : (w * 8 + r * 4 + x * 2 + b) % 2 ≡ b = omega arith in
    let table =
      all_below_sound 16 (λ j. rex (j / 8) (j / 4 % 2) (j / 2 % 2) (j % 2) == (64 + j)) i rex_table
        (omega arith) in
    let same = rw (first, second, third, fourth) at table in ground arith

-- A `long` that an instruction can hold: its value has 32 bits.
pub data IsDword (value : ℕ) : Type 0 where
  positive : value < 2 ^ 31 → IsDword value
  negative : 2 ^ 64 - 2 ^ 31 ≤ value → value < 2 ^ 64 → IsDword value

pub read_dword-copy_displacement :
    (value : ℕ) (rest : List ℕ)
    → IsDword value
    → read_dword (copy_displacement value 4 ++ rest) ≡ some (value, rest)
unfolding read_dword copy_displacement extend_dword
read_dword-copy_displacement value rest (positive h) = ground arith
read_dword-copy_displacement value rest (negative h k) = ground arith

pub read_short :
    (value : ℕ) (rest : List ℕ)
    → IsDword value
    → is_byte value ≡ true
    → read_displacement 1 (copy_displacement value 1 ++ rest) ≡ some (value, rest)
unfolding read_displacement copy_displacement extend_byte is_byte
read_short value rest (positive h) e = ground arith
read_short value rest (negative h k) e = ground arith

-- How a displacement is written.
pub data IsForm (base displacement : ℕ) : ℕ → ℕ → Type 0 where
  nothing : displacement ≡ 0 → base ≢ rbp → base ≢ r13 → IsForm base displacement 0 0
  short : is_byte displacement ≡ true → IsForm base displacement 1 1
  long : IsForm base displacement 2 4

pub mode_of-IsForm :
    (rm : Memory)
    → rm.rip_relative ≡ false
    → IsForm rm.base rm.displacement (mode_of rm) (displacement_size rm)
unfolding mode_of displacement_size is_byte
mode_of-IsForm rm e =
    elim (Bool-cases (rm.displacement == 0 && not (rm.base == rbp) && not (rm.base == r13))) [
      | inl p ↦ rw (e, p) (nothing (ground arith) (λ k. ground arith) (λ k. ground arith))
      | inr p ↦ elim (Bool-cases (leb rm.displacement 127 || leb (2 ^ 64 - 128) rm.displacement)) [
        | inl q ↦ rw (e, p, q) (short q)
        | inr q ↦ rw (e, p, q) long
      ]
    ]

pub read_displacement-copy_displacement :
    (base value mode size : ℕ) (rest : List ℕ)
    → IsForm base value mode size
    → IsDword value
    → read_displacement mode (copy_displacement value size ++ rest) ≡ some (value, rest)
unfolding read_displacement copy_displacement
read_displacement-copy_displacement base value _ _ rest (nothing e h k) d = ground arith
read_displacement-copy_displacement base value _ _ rest (short e) d = read_short value rest d e
read_displacement-copy_displacement base value _ _ rest long d =
    read_dword-copy_displacement value rest d
