-- ===== src/Lexer/ClassLexer.antt =====
-- The loop of `lex_char_class` of src/lexer.c, over a bracketed class such as `[^a-z[:digit:]_]`.
use crex.Base.{
  ℕ, zero, suc, ◌+◌, ◌-◌, Bool, true, false, ◌&&◌, ◌||◌, Option, none, some, List, [], ◌∷◌, ltb,
  ◌==◌, if◌then◌else◌,
}
use crex.Ctype.{is_alpha}
use crex.Bitmap.{Bitmap, bitmap_set, bitmap_union}
use crex.CharClass.{char_class_size, builtin_class, builtin_class_names}
use crex.Status.{Result, ok, err, undefined, out_of_fuel, ◌>>=◌, bad_escape, bad_character_class}
use crex.Lexer.Token.{TokenType, character, anchor, builtin_char_class, Token}
use crex.Lexer.Escape.{lex_escape_code}

-- The variables of the loop. `prev_character` is `none` for -1.
pub record Scan : Type 0 where
  pub bitmap : Bitmap
  pub prev_character : Option ℕ
  pub is_range : Bool
  pub token : Token

-- `(size_t)prev_character + 1`
abbrev pub range_begin : Option ℕ → ℕ
range_begin none = 0
range_begin (some prev) = prev + 1

-- `character < prev_character`
abbrev pub before_prev : ℕ → Option ℕ → Bool
before_prev c none = false
before_prev c (some prev) = ltb c prev

-- `for (i = begin; ...; i++) bitmap_set(bitmap, i)`, for so many rounds.
unfoldable pub set_range : Bitmap → ℕ → ℕ → Bitmap
set_range bitmap i zero = bitmap
set_range bitmap i (suc rounds) = set_range (bitmap_set bitmap i) (i + 1) rounds

-- `PUSH_CHAR`
unfoldable pub push_char : Scan → ℕ → Result Scan
push_char s c =
    if s.is_range
    then if before_prev c s.prev_character
      then err bad_character_class
      else ok (record s {
        bitmap =
            set_range s.bitmap (range_begin s.prev_character)
              (c + 1 - range_begin s.prev_character);
        prev_character = none;
        is_range = false;
      })
    else ok (record s { bitmap = bitmap_set s.bitmap c; prev_character = some c })

-- The bytes from `*pattern` to `end`, and those from `end` on.
unfoldable pub scan_name : List ℕ → List ℕ × List ℕ
scan_name [] = ([], [])
scan_name (c ∷ pattern) =
    let (name, rest) = scan_name pattern in
    if is_alpha c || c == b':' then (c ∷ name, rest) else ([], c ∷ pattern)

abbrev pub starts_with : ℕ → List ℕ → Bool
starts_with c [] = false
starts_with c (d ∷ _) = d == c

abbrev pub ends_with : ℕ → List ℕ → Bool
ends_with c [] = false
ends_with c (d ∷ []) = d == c
ends_with c (d ∷ e ∷ ds) = ends_with c (e ∷ ds)

abbrev pub drop_last : List ℕ → List ℕ
drop_last [] = []
drop_last (d ∷ []) = []
drop_last (d ∷ e ∷ ds) = d ∷ drop_last (e ∷ ds)

-- `memcmp` of two buffers of one size.
unfoldable pub same_bytes : List ℕ → List ℕ → Bool
same_bytes [] [] = true
same_bytes (a ∷ xs) (b ∷ ys) = a == b && same_bytes xs ys
same_bytes _ _ = false

-- An index in the rest of an array, seen from the element before.
abbrev pub later : Option ℕ → Option ℕ
later none = none
later (some i) = some (suc i)

-- The first index of a buffer with these bytes.
unfoldable pub index_of : List ℕ → List (List ℕ) → Option ℕ
unfolding same_bytes
index_of bytes [] = none
index_of bytes (entry ∷ entries) =
    if same_bytes bytes entry then some 0 else later (index_of bytes entries)

-- The loop over `builtin_class_names` runs to `N_BUILTIN_CLASSES`, which is 18, while the array has
-- 14 names: a name that is not among them is looked up past the end of the array. So is `[:]`,
-- whose size wraps.
unfoldable pub named_class : List ℕ → Result ℕ
unfolding index_of builtin_class_names
named_class (_ ∷ d ∷ ds) = elim (index_of (drop_last (d ∷ ds)) builtin_class_names) [
  | none ↦ undefined
  | some i ↦ ok i
]
named_class _ = undefined

-- Whether a `[` begins a named class: what follows the name is `]`, and the name has a colon at
-- each end.
abbrev pub is_named : List ℕ → List ℕ → Bool
is_named name rest = starts_with b':' name && ends_with b':' name && starts_with b']' rest

abbrev pub skip_one : List ℕ → List ℕ
skip_one [] = []
skip_one (_ ∷ rest) = rest

-- The union with an entry of `builtin_classes`.
abbrev pub add_builtin : Scan → ℕ → Scan
add_builtin s index = record s {
  bitmap = bitmap_union s.bitmap (builtin_class index) char_class_size;
  prev_character = none;
}

-- The loop's variables after a step, with the pattern that the step leaves.
abbrev pub with_rest : List ℕ → Result Scan → Result (Scan × List ℕ)
with_rest rest m = m >>= λ s. ok (s, rest)

-- `case '['`, with the pattern behind it.
unfoldable pub lex_bracket : Scan → List ℕ → Result (Scan × List ℕ)
unfolding scan_name push_char named_class
lex_bracket s pattern =
    let (name, rest) = scan_name pattern in
    if is_named name rest
    then if s.is_range
      then err bad_character_class
      else named_class name >>= (λ i. ok (add_builtin s i, skip_one rest))
    else with_rest pattern (push_char s b'[')

-- The switch on the type of an escape's token.
unfoldable pub use_escape : TokenType → Scan → List ℕ → Result (Scan × List ℕ)
unfolding push_char
use_escape character s rest = with_rest rest (push_char s s.token.character)
use_escape anchor s rest = err bad_character_class
use_escape builtin_char_class s rest =
    if s.is_range
    then err bad_character_class
    else ok (add_builtin s s.token.char_class_index, rest)
use_escape _ s rest = ok (s, rest)

-- `case '\\'`, with the pattern behind it.
unfoldable pub lex_class_escape : Scan → List ℕ → Result (Scan × List ℕ)
unfolding use_escape
lex_class_escape s pattern = elim (lex_escape_code s.token pattern) [
  | none ↦ err bad_escape
  | some (token, rest) ↦ use_escape token.type (record s { token = token }) rest
]

abbrev pub is_none : Option ℕ → Bool
is_none none = true
is_none (some _) = false

-- `case '-'`
unfoldable pub lex_dash : Scan → Result Scan
unfolding push_char
lex_dash s =
    if s.is_range || is_none s.prev_character
    then push_char s b'-'
    else ok (record s { is_range = true })

-- The switch in the loop, on a byte that is not `]`.
unfoldable pub class_step : Scan → ℕ → List ℕ → Result (Scan × List ℕ)
unfolding lex_bracket lex_class_escape lex_dash push_char
class_step s c rest =
    if c == b'['
    then lex_bracket s rest
    else if c == b'\\'
    then lex_class_escape s rest
    else if c == b'-'
    then with_rest rest (lex_dash s)
    else with_rest rest (push_char s c)

-- The loop, on fuel: each round takes a byte.
unfoldable pub class_loop : ℕ → Scan → List ℕ → Result (Scan × List ℕ)
unfolding class_step
class_loop zero s pattern = out_of_fuel
class_loop (suc fuel) s [] = err bad_character_class
class_loop (suc fuel) s (c ∷ rest) = elim (c == b']') [
  | true ↦ ok (s, rest)
  | false ↦ class_step s c rest >>= λ (s', rest'). class_loop fuel s' rest'
]
