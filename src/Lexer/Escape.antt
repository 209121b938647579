-- ===== src/Lexer/Escape.antt =====
-- `lex_escape_code` and `str_to_size` of src/lexer.c. The pattern is the list of bytes from
-- `*pattern` to `eof`.
use crex.Base.{
  ℕ, zero, suc, ◌+◌, ◌-◌, ◌*◌, ◌/◌, ◌%◌, Bool, ◌&&◌, ◌||◌, Option, none, some, List, [], ◌∷◌, ltb,
  leb, ◌==◌, if◌then◌else◌,
}
use crex.CharClass.{
  bcc_digit, bcc_whitespace, bcc_word, bcc_not_digit, bcc_not_whitespace, bcc_not_word,
}
use crex.Lexer.Token.{
  Token, bof, eof, word_boundary, not_word_boundary, repetition_infinity, set_character, set_anchor,
  set_builtin,
}

-- The value of a hexadecimal digit.
unfoldable pub hex_digit : ℕ → Option ℕ
hex_digit c =
    if leb b'0' c && leb c b'9'
    then some (c - b'0')
    else if leb b'a' c && leb c b'f'
    then some (c - b'a' + 0xa)
    else if leb b'A' c && leb c b'F'
    then some (c - b'A' + 0xa)
    else none

-- The loop of `case 'x'` with `i` rounds left. At the end of the pattern or at another byte than a
-- digit the code returns `CREX_E_BAD_ESCAPE`, which is not 0, so the caller takes it for success:
-- the token is a character whose value was not written.
unfoldable pub lex_hex : ℕ → ℕ → Token → List ℕ → Option (Token × List ℕ)
unfolding hex_digit
lex_hex zero value token rest = some (set_character token (value % 256), rest)
lex_hex (suc i) value token [] = some (token, [])
lex_hex (suc i) value token (byte ∷ rest) = elim (hex_digit byte) [
  | none ↦ some (token, rest)
  | some digit ↦ lex_hex i (16 * value + digit) token rest
]

unfoldable pub is_escaped_literal : ℕ → Bool
is_escaped_literal c =
    c == b'.'
    || c == b'|'
    || c == b'*'
    || c == b'+'
    || c == b'?'
    || c == b'('
    || c == b')'
    || c == b'['
    || c == b']'
    || c == b'{'
    || c == b'}'
    || c == b'^'
    || c == b'$'
    || c == b'\\'

-- The cases of the switch that read no further byte.
unfoldable pub escape_token : Token → ℕ → Option Token
unfolding is_escaped_literal
escape_token token c =
    if c == b'a'
    then some (set_character token 7)
    else if c == b'f'
    then some (set_character token 12)
    else if c == b'n'
    then some (set_character token 10)
    else if c == b'r'
    then some (set_character token 13)
    else if c == b't'
    then some (set_character token 9)
    else if c == b'v'
    then some (set_character token 11)
    else if c == b'A'
    then some (set_anchor token bof)
    else if c == b'z'
    then some (set_anchor token eof)
    else if c == b'b'
    then some (set_anchor token word_boundary)
    else if c == b'B'
    then some (set_anchor token not_word_boundary)
    else if is_escaped_literal c
    then some (set_character token c)
    else if c == b'd'
    then some (set_builtin token bcc_digit)
    else if c == b'D'
    then some (set_builtin token bcc_not_digit)
    else if c == b's'
    then some (set_builtin token bcc_whitespace)
    else if c == b'S'
    then some (set_builtin token bcc_not_whitespace)
    else if c == b'w'
    then some (set_builtin token bcc_word)
    else if c == b'W'
    then some (set_builtin token bcc_not_word)
    else none

-- The token of an escape, with the pattern behind it.
abbrev pub leaving : List ℕ → Option Token → Option (Token × List ℕ)
leaving rest none = none
leaving rest (some token) = some (token, rest)

-- `none` is the result 0. The type is set to `TT_CHARACTER` before the switch.
unfoldable pub lex_escape_code : Token → List ℕ → Option (Token × List ℕ)
unfolding lex_hex escape_token
lex_escape_code token [] = none
lex_escape_code token (c ∷ rest) =
    if c == b'x'
    then lex_hex 2 0 (set_character token token.character) rest
    else leaving rest (escape_token token c)

-- The loop of `str_to_size`: `REPETITION_INFINITY` on overflow.
unfoldable pub str_to_size_loop : ℕ → List ℕ → ℕ
str_to_size_loop result [] = result
str_to_size_loop result (c ∷ digits) =
    let digit = c - b'0' in
    let rest = str_to_size_loop (10 * result + digit) digits in
    if ltb ((repetition_infinity - digit) / 10) result then repetition_infinity else rest

unfoldable pub str_to_size : List ℕ → ℕ
unfolding str_to_size_loop
str_to_size digits = str_to_size_loop 0 digits
