-- ===== src/Bitmap/Laws.antt =====
-- A bitmap of src/crex.c is a set of indices: what a test answers after each operation.
use crex.Base.{
  ◌^◌, ℕ, zero, suc, ◌+◌, ◌*◌, ◌/◌, ◌%◌, ◌≤◌, ◌<◌, ◌≡◌, refl, inl, inr, false, ◌&&◌, ◌||◌, [], ◌∷◌,
  bit_or, length, get_or, set, test_bit-bit_or, test_bit-pow, test_bit-none, length-set,
  get_or-set_self, get_or-set_ne, ◌==◌, ltb, ==_iff, Bool-cases, arith, if◌then◌else◌,
}
use mathlib.Core.Bool.{or_comm}
use crex.Bitmap.{
  Bitmap, bitmap_set, bitmap_clear, bitmap_union, bitmap_test, bitmap_test_and_set,
  bitmap_size_for_bits,
}

pub length-bitmap_set : (b : Bitmap) (i : ℕ) → length (bitmap_set b i) ≡ length b
unfolding bitmap_set
length-bitmap_set b i = length-set b _ _

-- Byte `j` after a write at byte `i`.
get_or-set :
    (b : Bitmap) (i j v : ℕ)
    → i < length b
    → get_or (set b i v) j 0 ≡ (if i == j then v else get_or b j 0)
get_or-set b i j v h = elim (Bool-cases (i == j)) [
  | inl e ↦ rw (e, ← (==_iff i j).0 e) (get_or-set_self b i v 0 h)
  | inr e ↦ rw e (get_or-set_ne b v 0 (ground arith))
]

same_byte : (i j : ℕ) → i / 8 ≡ j / 8 → (j % 8 == i % 8) ≡ (i == j)
same_byte i j h = ground arith

other_byte : (i j : ℕ) → (i / 8 == j / 8) ≡ false → (i == j) ≡ false
other_byte i j h = ground arith

-- Setting a bit inside the bitmap makes its test true and leaves the test of every other index
-- as it was.
pub bitmap_test-bitmap_set :
    (b : Bitmap) (i j : ℕ)
    → i < 8 * length b
    → bitmap_test (bitmap_set b i) j ≡ ((i == j) || bitmap_test b j)
unfolding bitmap_test bitmap_set
bitmap_test-bitmap_set b i j h = elim (Bool-cases (i / 8 == j / 8)) [
  | inl e ↦
      let e' = (==_iff (i / 8) (j / 8)).0 e in
      rw (get_or-set b (i / 8) (j / 8) _ (omega arith), e, test_bit-bit_or, test_bit-pow)
        (rw (same_byte i j e', e') (or_comm _ (i == j)))
  | inr e ↦ rw (get_or-set b (i / 8) (j / 8) _ (omega arith), e, other_byte i j e)
]

pub length-bitmap_clear : (b : Bitmap) (n : ℕ) → length (bitmap_clear b n) ≡ length b
unfolding bitmap_clear
length-bitmap_clear b zero = refl
length-bitmap_clear [] (suc n) = refl
length-bitmap_clear (x ∷ b) (suc n) = omega (arith, length-bitmap_clear b n)

-- A cleared bitmap answers no to every index.
pub bitmap_test-bitmap_clear :
    (b : Bitmap) (j : ℕ) → bitmap_test (bitmap_clear b (length b)) j ≡ false
unfolding bitmap_test bitmap_clear
bitmap_test-bitmap_clear b j = rw (get_or-clear b (j / 8)) (test_bit-none (j % 8))
  where
    get_or-clear : (b : Bitmap) (i : ℕ) → get_or (bitmap_clear b (length b)) i 0 ≡ 0
    get_or-clear [] i = refl
    get_or-clear (x ∷ b) zero = refl
    get_or-clear (x ∷ b) (suc i) = get_or-clear b i

-- Byte `j` of a union over the first `n` bytes.
get_or-bitmap_union :
    (a b : Bitmap) (n j : ℕ)
    → n ≤ length a
    → get_or (bitmap_union a b n) j 0
      ≡ (if ltb j n then bit_or (get_or a j 0) (get_or b j 0) else get_or a j 0)
unfolding bitmap_union
get_or-bitmap_union a b zero j h = ground arith
get_or-bitmap_union a b (suc n) j h =
    let v = bit_or (get_or a n 0) (get_or b n 0) in
    ground (
      arith,
      length-set a n v,
      get_or-set a n j v (omega arith),
      get_or-bitmap_union (set a n v) b n j (omega (arith, length-set a n v)),
    )

-- The test of a union over `n` bytes: an index of those bytes is in either set, and any other
-- index is as before.
pub bitmap_test-bitmap_union :
    (a b : Bitmap) (n j : ℕ)
    → n ≤ length a
    → bitmap_test (bitmap_union a b n) j ≡ (bitmap_test a j || (ltb (j / 8) n && bitmap_test b j))
unfolding bitmap_test
bitmap_test-bitmap_union a b n j h =
    rw (get_or-bitmap_union a b n (j / 8) h) (elim (Bool-cases (ltb (j / 8) n)) [
      | inl e ↦ rw (e, test_bit-bit_or)
      | inr e ↦ rw e (or_comm false _)
    ])

-- `bitmap_test_and_set` returns the flag's old value; afterwards that flag is set and no other
-- flag has changed.
pub bitmap_test_and_set_lem :
    (b : Bitmap) (i j : ℕ)
    → i < 8 * length b
    → ((bitmap_test_and_set b i).0 ≡ bitmap_test b i)
      × (bitmap_test (bitmap_test_and_set b i).1 j ≡ ((i == j) || bitmap_test b j))
unfolding bitmap_test_and_set
bitmap_test_and_set_lem b i j h = (refl, bitmap_test-bitmap_set b i j h)

-- Where `n + 7` is a `size_t`, a buffer of `bitmap_size_for_bits n` bytes holds the flags below `n`, and
-- one byte less does not.
pub bitmap_size_for_bits_bounds :
    (n : ℕ)
    → n + 7 < 2 ^ 64
    → (n ≤ 8 * bitmap_size_for_bits n) × (8 * bitmap_size_for_bits n < n + 8)
unfolding bitmap_size_for_bits
bitmap_size_for_bits_bounds n h = omega arith
