-- ===== src/Bitmap.antt =====
-- The bitmaps of src/crex.c: `bitmap_set`, `bitmap_clear`, `bitmap_union`, `bitmap_test`,
-- `bitmap_test_and_set` and `bitmap_size_for_bits`. A bitmap is the list of its bytes; bit `i` is
-- digit `i & 7` of byte `i >> 3`. A read outside the list gives 0 and a write there does nothing,
-- so the laws carry the bounds that the C code relies on.
pub mod Laws
use crex.Base.{ℕ, zero, suc, ◌+◌, ◌/◌, ◌%◌, ◌^◌, Bool, List, [], ◌∷◌, bit_or, get_or, set, test_bit}

abbrev pub Bitmap : Type 0
Bitmap = List ℕ

unfoldable pub bitmap_set : Bitmap → ℕ → Bitmap
bitmap_set bitmap index =
    set bitmap (index / 8) (bit_or (get_or bitmap (index / 8) 0) (2 ^ (index % 8)))

-- `memset(bitmap, 0, size)`
unfoldable pub bitmap_clear : Bitmap → ℕ → Bitmap
bitmap_clear bitmap zero = bitmap
bitmap_clear [] (suc size) = []
bitmap_clear (byte ∷ bitmap) (suc size) = 0 ∷ bitmap_clear bitmap size

-- The loop runs from the last byte to the first.
unfoldable pub bitmap_union : Bitmap → Bitmap → ℕ → Bitmap
bitmap_union bitmap other zero = bitmap
bitmap_union bitmap other (suc size) =
    bitmap_union (set bitmap size (bit_or (get_or bitmap size 0) (get_or other size 0))) other size

unfoldable pub bitmap_test : Bitmap → ℕ → Bool
bitmap_test bitmap index = test_bit (index % 8) (get_or bitmap (index / 8) 0)

-- The flag's old value, and the new bitmap.
unfoldable pub bitmap_test_and_set : Bitmap → ℕ → Bool × Bitmap
unfolding bitmap_test bitmap_set
bitmap_test_and_set bitmap index = (bitmap_test bitmap index, bitmap_set bitmap index)

-- The sum is a `size_t`.
unfoldable pub bitmap_size_for_bits : ℕ → ℕ
bitmap_size_for_bits bits = (bits + 7) % 2 ^ 64 / 8
