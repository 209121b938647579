-- ===== src/CharClass/Meaning.antt =====
-- What the table `builtin_classes` of src/crex.c stands for: the character classes of the C locale,
-- written by code ranges, against the bytes of the table.
use crex.Base.{
  ℕ, ◌<◌, ◌≡◌, refl, Bool, true, not, ◌&&◌, ◌||◌, length, ltb, ◌==◌, all_below, all_below_sound,
  arith,
}
use mathlib.Core.Bool.{xor}
use crex.Ctype.{
  between, is_lower, is_upper, is_digit, is_alpha, is_alnum, is_space, is_word, is_graph,
}
use crex.Bitmap.{bitmap_test}
use crex.CharClass.{char_class_size, n_builtin_classes, builtin_class}

-- The classes in the order of the table: 14 with a POSIX name, then `\D`, `\S`, `\W` and `.`.
unfoldable pub describes : ℕ → ℕ → Bool
describes i c =
    (i == 0 && is_alnum c)
    || (i == 1 && is_alpha c)
    || (i == 2 && ltb c 128)
    || (i == 3 && (c == b' ' || c == b'\t'))
    || (i == 4 && (ltb c 32 || c == 127))
    || (i == 5 && is_digit c)
    || (i == 6 && is_graph c)
    || (i == 7 && is_lower c)
    || (i == 8 && between 32 126 c)
    || (i == 9 && (is_graph c && not (is_alnum c)))
    || (i == 10 && is_space c)
    || (i == 11 && is_upper c)
    || (i == 12 && is_word c)
    || (i == 13 && (is_digit c || between b'a' b'f' c || between b'A' b'F' c))
    || (i == 14 && not (is_digit c))
    || (i == 15 && not (is_space c))
    || (i == 16 && not (is_word c))
    || (i == 17 && not (c == b'\n'))

same_answer : (a b : Bool) → not (xor a b) ≡ true → a ≡ b
unfolding xor
same_answer a b h = ground arith

agrees : ℕ → ℕ → Bool
agrees i c = not (xor (bitmap_test (builtin_class i) c) (describes i c))

table_agrees : all_below n_builtin_classes (λ i. all_below 256 (agrees i)) ≡ true
unfolding all_below agrees bitmap_test builtin_class describes xor
table_agrees = refl

-- Every entry of the table holds exactly the characters that its class describes: for each of the
-- 18 classes and each of the 256 bytes the bitmap's test answers what the code ranges say.
pub builtin_class-describes :
    (i c : ℕ) → i < n_builtin_classes → c < 256 → bitmap_test (builtin_class i) c ≡ describes i c
unfolding agrees
builtin_class-describes i c hi hc = same_answer (bitmap_test (builtin_class i) c) (describes i c) (
    all_below_sound 256 (agrees i) c
      (all_below_sound n_builtin_classes (λ k. all_below 256 (agrees k)) i table_agrees hi) hc)

sizes_agree : all_below n_builtin_classes (λ i. length (builtin_class i) == char_class_size) ≡ true
unfolding all_below builtin_class
sizes_agree = refl

-- Every entry has the size of a `char_class_t`.
pub length-builtin_class :
    (i : ℕ) → i < n_builtin_classes → length (builtin_class i) ≡ char_class_size
length-builtin_class i h = ground (
  arith,
  all_below_sound n_builtin_classes (λ i. length (builtin_class i) == char_class_size) i sizes_agree
      h,
)
