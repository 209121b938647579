-- ===== src/Vm/Match/Weights.antt =====
-- A bound on the threads of src/vm.c at one position of the subject. A thread weighs what the code
-- ahead of it can turn it into, which is little at a flag, since the flag may stop it; each flag
-- that can still be set weighs as much as the code behind it can make of a thread.
use crex.Base.{
  ℕ, suc, ◌+◌, ◌-◌, ◌*◌, ◌^◌, ◌≤◌, ◌<◌, ◌≡◌, Option, List, [], ◌∷◌, length, drop, if◌then◌else◌,
  Bool-cases, inl, inr, arith,
}
use native.Mathlib.Nat.{pow-le-pow_right, pow-suc}
use crex.Bitmap.{Bitmap}
use crex.Bytecode.{Fetched, fetch}
use crex.Vm.{Thread, Program}
use crex.Vm.Run.Guard.{fetches_flag}
use crex.Vm.Run.Flags.{unset}

module _ (program : Program) where
  unfoldable pub weight_of : ℕ → Option Fetched → ℕ
  weight_of a o = if fetches_flag o then 1 else 2 ^ suc (length program.code - a)

  -- The weight of an address.
  unfoldable pub weight : ℕ → ℕ
  unfolding weight_of
  weight a = weight_of a (fetch (drop a program.code))

  unfoldable pub weights : List Thread → ℕ
  weights [] = 0
  weights (t ∷ ts) = weight t.instr_pointer + weights ts

  abbrev pub load : ℕ → Bitmap → List Thread → ℕ
  load bound flags threads =
      unset bound flags * 2 ^ suc (suc (length program.code)) + weights threads

  pow_le : (i j : ℕ) → i ≤ j → 2 ^ i ≤ 2 ^ j
  pow_le i j h = pow-le-pow_right (omega arith) h

  pub weight_pos : (a : ℕ) → 1 ≤ weight a
  unfolding weight weight_of
  weight_pos a = elim (Bool-cases (fetches_flag (fetch (drop a program.code)))) [
    | inl e ↦ rw e (omega arith)
    | inr e ↦ rw e (pow_le 0 (suc (length program.code - a)) (omega arith))
  ]

  pub weight-le : (a : ℕ) → weight a ≤ 2 ^ suc (length program.code)
  unfolding weight weight_of
  weight-le a = elim (Bool-cases (fetches_flag (fetch (drop a program.code)))) [
    | inl e ↦ rw e (pow_le 0 (suc (length program.code)) (omega arith))
    | inr e ↦
        rw e (pow_le (suc (length program.code - a)) (suc (length program.code)) (omega arith))
  ]

  -- Ahead of an address of the code everything weighs at most half as much.
  pub weight_ahead :
      (a b : ℕ) → a < length program.code → a < b → weight b ≤ 2 ^ (length program.code - a)
  unfolding weight weight_of
  weight_ahead a b h k = elim (Bool-cases (fetches_flag (fetch (drop b program.code)))) [
    | inl e ↦ rw e (pow_le 0 (length program.code - a) (omega arith))
    | inr e ↦ rw e (pow_le (suc (length program.code - b)) (length program.code - a) (omega arith))
  ]

  pub half_weight : (a : ℕ) → 2 ^ suc (length program.code - a) ≡ 2 * 2 ^ (length program.code - a)
  half_weight a = omega (arith, pow-suc 2 (length program.code - a))
