-- ===== src/Lexer/Lex.antt =====
-- `lex_char_class` and `lex` of src/lexer.c. A flag says whether `ALLOC` gives a buffer, should the
-- call ask for one.
use crex.Base.{
  ℕ, suc, ◌+◌, ◌-◌, ◌*◌, Bool, true, false, ◌&&◌, Option, none, some, List, [], ◌∷◌, ◌++◌, map,
  length, replicate, ltb, ◌==◌, if◌then◌else◌,
}
use crex.Ctype.{is_digit}
use crex.Bitmap.{Bitmap, bitmap_set}
use crex.CharClass.{char_class_size, builtin_classes, bcc_any}
use crex.Status.{
  Result, ok, err, undefined, ◌>>=◌, nomem, bad_escape, bad_character_class, bad_repetition,
}
use crex.Lexer.Token.{
  char_class, pipe, greedy_repetition, lazy_repetition, open_paren, non_capturing_open_paren,
  close_paren, bol, eol, Token, CharClasses, repetition_infinity, set_character, set_anchor,
  set_builtin, set_class, set_repetition,
}
use crex.Lexer.Escape.{lex_escape_code, str_to_size}
use crex.Lexer.ClassLexer.{Scan, class_loop, index_of, starts_with, skip_one}

abbrev pub Lexed : Type 0
Lexed = Token × List ℕ × CharClasses

-- The bitmap after the loop: a trailing `-` counts, and `~` on each byte if the class is inverted.
unfoldable pub finish_bitmap : Bool → Scan → Bitmap
finish_bitmap inverted s =
    let bitmap = if s.is_range then bitmap_set s.bitmap b'-' else s.bitmap in
    if inverted then map (λ byte. 255 - byte) bitmap else bitmap

-- By where the class is among the built-in ones, and where among those of the pattern: it is added
-- to the latter if it is in neither.
unfoldable pub place_class :
    CharClasses → Token → Bitmap → Option ℕ → Option ℕ → Token × CharClasses
place_class classes token bitmap (some i) found = (set_builtin token i, classes)
place_class classes token bitmap none (some i) = (set_class token char_class i, classes)
place_class classes token bitmap none none = (
  set_class token char_class (length classes.entries),
  record classes { entries = classes.entries ++ bitmap ∷ [] },
)

-- The two searches at the end of `lex_char_class`.
unfoldable pub intern_class : CharClasses → Token → Bitmap → Token × CharClasses
intern_class classes token bitmap =
    place_class classes token bitmap (index_of bitmap builtin_classes)
      (index_of bitmap classes.entries)

-- Room for one more class.
unfoldable pub reserve_class : Bool → CharClasses → Result CharClasses
reserve_class alloc classes =
    if length classes.entries == classes.capacity
    then if alloc then ok (record classes { capacity = 2 * classes.capacity + 1 }) else err nomem
    else ok classes

-- `bitmap_clear` of the new class.
abbrev pub empty_scan : Token → Scan
empty_scan token = record {
  bitmap = replicate char_class_size 0;
  prev_character = none;
  is_range = false;
  token = token;
}

-- What `lex_char_class` does behind its loop.
unfoldable pub finish_class : Bool → CharClasses → Scan × List ℕ → Result Lexed
unfolding finish_bitmap intern_class
finish_class inverted classes (s, rest) =
    let (token, classes') = intern_class classes s.token (finish_bitmap inverted s) in
    ok (token, rest, classes')

-- The rest of `lex_char_class`, behind the `^`.
unfoldable pub lex_class_body : Bool → CharClasses → Token → List ℕ → Result Lexed
unfolding class_loop finish_class
lex_class_body inverted classes token pattern =
    class_loop (suc (length pattern)) (empty_scan token) pattern >>= finish_class inverted classes

-- From the first byte of the class on.
unfoldable pub lex_inverted : CharClasses → Token → List ℕ → Result Lexed
unfolding lex_class_body
lex_inverted classes token [] = err bad_character_class
lex_inverted classes token (c ∷ rest) =
    if c == b'^'
    then lex_class_body true classes token rest
    else lex_class_body false classes token (c ∷ rest)

unfoldable pub lex_char_class : Bool → CharClasses → Token → List ℕ → Result Lexed
unfolding reserve_class lex_inverted
lex_char_class alloc classes token pattern =
    reserve_class alloc classes >>= λ reserved. lex_inverted reserved token pattern

-- The bytes up to the first that is no digit, and those from it on.
unfoldable pub scan_digits : List ℕ → List ℕ × List ℕ
scan_digits [] = ([], [])
scan_digits (c ∷ pattern) =
    let (digits, rest) = scan_digits pattern in
    if is_digit c then (c ∷ digits, rest) else ([], c ∷ pattern)

-- A repetition is lazy if a `?` follows it, which is then taken too.
unfoldable pub lex_repetition : Token → ℕ → ℕ → List ℕ → Token × List ℕ
lex_repetition token lower upper rest =
    if starts_with b'?' rest
    then (set_repetition token lazy_repetition lower upper, skip_one rest)
    else (set_repetition token greedy_repetition lower upper, rest)

-- The upper bound of `{lower,...}`, from the digits behind the comma.
unfoldable pub upper_bound_of : ℕ → List ℕ → Result ℕ
unfolding str_to_size
upper_bound_of lower [] = ok repetition_infinity
upper_bound_of lower (d ∷ ds) =
    let upper = str_to_size (d ∷ ds) in
    if upper == repetition_infinity
    then err bad_repetition
    else if ltb upper lower
    then err bad_repetition
    else ok upper

-- `{lower}` and `{lower,...}`, with the pattern behind the closing brace.
unfoldable pub lex_exactly : Token → List ℕ → List ℕ → Result (Token × List ℕ)
unfolding lex_repetition str_to_size
lex_exactly token lower_digits rest =
    let lower = str_to_size lower_digits in
    if lower == repetition_infinity
    then err bad_repetition
    else ok (lex_repetition token lower lower rest)

unfoldable pub lex_between : Token → List ℕ → List ℕ → List ℕ → Result (Token × List ℕ)
unfolding lex_repetition upper_bound_of
lex_between token lower_digits upper_digits rest =
    let lower = str_to_size lower_digits in
    if lower == repetition_infinity
    then err bad_repetition
    else upper_bound_of lower upper_digits >>= λ upper. ok (lex_repetition token lower upper rest)

-- `case '{'`: a brace that begins no repetition stands for itself.
unfoldable pub lex_brace : Token → List ℕ → Result (Token × List ℕ)
unfolding scan_digits lex_exactly lex_between
lex_brace token pattern =
    let (lower, rest) = scan_digits pattern in
    let literal : Result (Token × List ℕ) = ok (set_character token b'{', pattern) in
    if ltb 0 (length lower) && starts_with b'}' rest
    then lex_exactly token lower (skip_one rest)
    else if ltb 0 (length lower) && starts_with b',' rest
    then (let (upper, rest') = scan_digits (skip_one rest) in
        if starts_with b'}' rest' then lex_between token lower upper (skip_one rest') else literal)
    else literal

-- `case '('`
unfoldable pub lex_paren : Token → List ℕ → Token × List ℕ
lex_paren token rest =
    if starts_with b'?' rest && starts_with b':' (skip_one rest)
    then (record token { type = non_capturing_open_paren }, skip_one (skip_one rest))
    else (record token { type = open_paren }, rest)

unfoldable pub lex_escape : Token → List ℕ → Result (Token × List ℕ)
unfolding lex_escape_code
lex_escape token rest = elim (lex_escape_code token rest) [ none ↦ err bad_escape | some r ↦ ok r ]

-- The cases of the switch of `lex` that leave the classes alone.
unfoldable pub lex_simple : Token → ℕ → List ℕ → Result (Token × List ℕ)
unfolding lex_repetition lex_paren lex_brace lex_escape
lex_simple token c rest =
    if c == b'^'
    then ok (set_anchor token bol, rest)
    else if c == b'$'
    then ok (set_anchor token eol, rest)
    else if c == b'|'
    then ok (record token { type = pipe }, rest)
    else if c == b'*'
    then ok (lex_repetition token 0 repetition_infinity rest)
    else if c == b'+'
    then ok (lex_repetition token 1 repetition_infinity rest)
    else if c == b'?'
    then ok (lex_repetition token 0 1 rest)
    else if c == b'('
    then ok (lex_paren token rest)
    else if c == b')'
    then ok (record token { type = close_paren }, rest)
    else if c == b'.'
    then ok (set_builtin token bcc_any, rest)
    else if c == b'{'
    then lex_brace token rest
    else if c == b'\\'
    then lex_escape token rest
    else ok (set_character token c, rest)

-- One token. The caller never passes an empty pattern; a read of it is out of bounds.
unfoldable pub lex : Bool → CharClasses → Token → List ℕ → Result Lexed
unfolding lex_char_class lex_simple
lex alloc classes token [] = undefined
lex alloc classes token (c ∷ rest) =
    if c == b'['
    then lex_char_class alloc classes token rest
    else lex_simple token c rest >>= λ (token', rest'). ok (token', rest', classes)
