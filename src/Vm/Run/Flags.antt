-- ===== src/Vm/Run/Flags.antt =====
-- The number of flags that a thread of src/vm.c can still set.
use crex.Base.{ℕ, zero, suc, ◌+◌, ◌≤◌, ◌<◌, ◌≡◌, true, false, if◌then◌else◌, arith}
use crex.Bitmap.{Bitmap, bitmap_test}
use crex.Vm.Threads.{KeepsFlags}

-- The flags below `bound` that are not set.
unfoldable pub unset : ℕ → Bitmap → ℕ
unset zero flags = 0
unset (suc bound) flags = unset bound flags + (if bitmap_test flags bound then 0 else 1)

pub unset-le : (bound : ℕ) (flags : Bitmap) → unset bound flags ≤ bound
unfolding unset
unset-le zero flags = omega arith
unset-le (suc bound) flags = ground (arith, unset-le bound flags)

module _ (flags flags' : Bitmap) (k : KeepsFlags flags flags') where
  pub KeepsFlags-unset : (bound : ℕ) → unset bound flags' ≤ unset bound flags
  unfolding unset
  KeepsFlags-unset zero = omega arith
  KeepsFlags-unset (suc bound) = ground (arith, KeepsFlags-unset bound, k.keeps bound)

  -- A flag that is set newly counts.
  pub unset-lt :
      (bound i : ℕ)
      → i < bound
      → bitmap_test flags i ≡ false
      → bitmap_test flags' i ≡ true
      → unset bound flags' < unset bound flags
  unfolding unset
  unset-lt zero i h e e' = absurd (omega arith)
  unset-lt (suc bound) i h e e' =
      ground (arith, KeepsFlags-unset bound, k.keeps bound, unset-lt bound i)
