-- ===== src/Lexer/Ranges.antt =====
-- `PUSH_CHAR` of src/lexer.c: the characters that it adds to a bracketed class.
use crex.Base.{
  ℕ, zero, suc, ◌+◌, ◌-◌, ◌*◌, ◌≤◌, ◌<◌, ◌≡◌, Bool, true, false, ◌&&◌, ◌||◌, Option, none, some,
  length, ltb, leb, ◌==◌, if_split, arith,
}
use crex.Bitmap.{Bitmap, bitmap_set, bitmap_test}
use crex.Bitmap.Laws.{length-bitmap_set, bitmap_test-bitmap_set}
use crex.CharClass.{char_class_size}
use crex.Status.{Ensures, returns, fails}
use crex.Lexer.Token.{Token}
use crex.Lexer.ClassLexer.{Scan, set_range, push_char}

-- A range of indices is set, and no other.
bitmap_test-set_range :
    (bitmap : Bitmap) (i rounds j : ℕ)
    → i + rounds ≤ 8 * length bitmap
    → bitmap_test (set_range bitmap i rounds) j
      ≡ ((leb i j && ltb j (i + rounds)) || bitmap_test bitmap j)
unfolding set_range
bitmap_test-set_range bitmap i zero j h = ground arith
bitmap_test-set_range bitmap i (suc rounds) j h = ground (
  arith,
  length-bitmap_set bitmap i,
  bitmap_test-bitmap_set bitmap i j (omega arith),
  bitmap_test-set_range (bitmap_set bitmap i) (i + 1) rounds j
      (omega (arith, length-bitmap_set bitmap i)),
)

-- The characters that `c` adds: itself, or at the end of a range those behind the range's first
-- character up to `c`.
pub added : Bool → Option ℕ → ℕ → ℕ → Bool
added false prev c j = c == j
added true none c j = leb j c
added true (some prev) c j = ltb prev j && leb j c

module _ (bitmap : Bitmap) (token : Token) (c j : ℕ) (h : c < 8 * length bitmap) where
  abbrev scan : Option ℕ → Bool → Scan
  scan prev is_range = record {
    bitmap = bitmap;
    prev_character = prev;
    is_range = is_range;
    token = token;
  }

  pushed :
      (is_range : Bool) (prev : Option ℕ)
      → Ensures
          (λ s'. bitmap_test s'.bitmap j ≡ (added is_range prev c j || bitmap_test bitmap j))
          (push_char (scan prev is_range) c)
  unfolding push_char added
  pushed false prev = returns (bitmap_test-bitmap_set bitmap c j h)
  pushed true none =
      returns (ground (arith, bitmap_test-set_range bitmap 0 (c + 1) j (omega arith)))
  pushed true (some prev) =
      if_split
        (Ensures (λ (s' : Scan).
          bitmap_test s'.bitmap j ≡ ((ltb prev j && leb j c) || bitmap_test bitmap j)))
        (ltb c prev) (λ _. fails)
        (λ e. returns (
          ground
            (arith, bitmap_test-set_range bitmap (prev + 1) (c + 1 - (prev + 1)) j (ground arith))))

-- A byte that is pushed into a class of 32 bytes adds itself, or at the end of a range all bytes
-- behind the first of the range up to itself, and no others, unless it is refused.
pub push_char-added :
    (s : Scan) (c j : ℕ)
    → length s.bitmap ≡ char_class_size
    → c < 256
    → Ensures
        (λ s'.
          bitmap_test s'.bitmap j
          ≡ (added s.is_range s.prev_character c j || bitmap_test s.bitmap j))
        (push_char s c)
push_char-added s c j h k = pushed s.bitmap s.token c j (omega arith) s.is_range s.prev_character
