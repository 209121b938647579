-- ===== src/Lexer/Intern.antt =====
-- The table of classes of a pattern: `intern_class`, the end of `lex_char_class` in src/lexer.c.
use crex.Base.{
  ℕ, suc, ◌<◌, ◌≡◌, refl, sym, subst, ap, ◌∙◌, ◌≢◌, inl, inr, true, Option, none, some, List, [],
  ◌∷◌, ◌++◌, length, get_or, All, Bool-cases, Option-cases, arith,
}
use crex.Bitmap.{Bitmap}
use crex.CharClass.{builtin_classes, builtin_class}
use crex.Lexer.Token.{TokenType, Token, CharClasses, char_class, builtin_char_class}
use crex.Lexer.ClassLexer.{same_bytes, index_of}
use crex.Lexer.Lex.{place_class, intern_class}

same_bytes_sound : (xs ys : List ℕ) → same_bytes xs ys ≡ true → xs ≡ ys
unfolding same_bytes
same_bytes_sound [] [] h = refl
same_bytes_sound [] (y ∷ ys) h = cc
same_bytes_sound (x ∷ xs) [] h = cc
same_bytes_sound (x ∷ xs) (y ∷ ys) h = ground (arith, same_bytes_sound xs ys)

same_bytes_self : (xs : List ℕ) → same_bytes xs xs ≡ true
unfolding same_bytes
same_bytes_self [] = refl
same_bytes_self (x ∷ xs) = ground (arith, same_bytes_self xs)

value_of : Option ℕ → ℕ
value_of none = 0
value_of (some i) = i

-- An index that was found is in range, and the entry there has these bytes.
pub index_of-some :
    (b : List ℕ) (entries : List (List ℕ)) {i : ℕ}
    → index_of b entries ≡ some i
    → (i < length entries) × (get_or entries i [] ≡ b)
unfolding index_of value_of
index_of-some b [] h = cc
index_of-some b (e ∷ entries) {i} h = elim (Bool-cases (same_bytes b e)) [
  | inl same ↦ first_entry (rw same at h) (same_bytes_sound b e same)
  | inr other ↦ elim (Option-cases (index_of b entries)) [
    | inl absent ↦ cc (rw (other, absent) at h)
    | inr (j, found) ↦ next_entry j (rw (other, found) at h) (index_of-some b entries found)
  ]
]
  where
    first_entry :
        {i : ℕ}
        → some 0 ≡ some i
        → b ≡ e
        → (i < suc (length entries)) × (get_or (e ∷ entries) i [] ≡ b)
    first_entry {i} h s =
        subst (λ k. (k < suc (length entries)) × (get_or (e ∷ entries) k [] ≡ b)) (ap value_of h)
          (omega arith, sym s)

    next_entry :
        {i : ℕ} (j : ℕ)
        → some (suc j) ≡ some i
        → (j < length entries) × (get_or entries j [] ≡ b)
        → (i < suc (length entries)) × (get_or (e ∷ entries) i [] ≡ b)
    next_entry {i} j h k =
        subst (λ k. (k < suc (length entries)) × (get_or (e ∷ entries) k [] ≡ b)) (ap value_of h)
          (omega arith, k.1)

pub index_of-none :
    (b : List ℕ) (entries : List (List ℕ)) → index_of b entries ≡ none → All (λ e. e ≢ b) entries
unfolding index_of
index_of-none b [] h = tt
index_of-none b (e ∷ entries) h = elim (Bool-cases (same_bytes b e)) [
  | inl same ↦ cc (rw same at h)
  | inr other ↦ (
    λ eq. cc (rw eq at other, same_bytes_self b),
    index_of-none b entries (elim (Option-cases (index_of b entries)) [
      | inl absent ↦ absent
      | inr (j, found) ↦ cc (rw (other, found) at h)
    ]),
  )
]

-- The bitmap that a class token stands for.
pub class_of : TokenType → Token → CharClasses → Bitmap
class_of char_class token classes = get_or classes.entries token.char_class_index []
class_of builtin_char_class token classes = builtin_class token.char_class_index
class_of _ token classes = []

get_or-last :
    (entries : List Bitmap) (b : Bitmap) → get_or (entries ++ b ∷ []) (length entries) [] ≡ b
get_or-last [] b = refl
get_or-last (e ∷ entries) b = get_or-last entries b

builtin_class-get_or : (i : ℕ) → builtin_class i ≡ get_or builtin_classes i []
unfolding builtin_class
builtin_class-get_or i = refl

place_class-class_of :
    (classes : CharClasses) (token : Token) (b : Bitmap) (o p : Option ℕ)
    → index_of b builtin_classes ≡ o
    → index_of b classes.entries ≡ p
    → class_of
        (place_class classes token b o p).0.type
        (place_class classes token b o p).0
        (place_class classes token b o p).1
      ≡ b
unfolding place_class class_of
place_class-class_of classes token b (some i) p h k =
    builtin_class-get_or i ∙ (index_of-some b builtin_classes h).1
place_class-class_of classes token b none (some i) h k = (index_of-some b classes.entries k).1
place_class-class_of classes token b none none h k = get_or-last classes.entries b

-- The token of a class stands for the bitmap that was lexed, wherever the class was found.
pub class_of-intern_class :
    (classes : CharClasses) (token : Token) (b : Bitmap)
    → class_of
        (intern_class classes token b).0.type
        (intern_class classes token b).0
        (intern_class classes token b).1
      ≡ b
unfolding intern_class
class_of-intern_class classes token b = place_class-class_of classes token b _ _ refl refl
