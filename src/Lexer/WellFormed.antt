-- ===== src/Lexer/WellFormed.antt =====
-- The tokens of src/lexer.c keep what the parser, the compiler and the machine assert of them.
use crex.Base.{
  ℕ, zero, suc, ◌+◌, ◌*◌, ◌≤◌, ◌<◌, ◌≡◌, ◌≢◌, refl, Bool, true, false, ◌&&◌, Option, none, some,
  List, [], ◌∷◌, length, All, Bool-cases, inl, inr, length-append, if_both, if_split, ◌==◌, ltb,
  arith,
}
use crex.Ctype.{is_digit}
use crex.Bitmap.{Bitmap}
use crex.CharClass.{n_builtin_classes, builtin_classes}
use crex.Status.{Result, ok, err, Ensures, returns, fails, Ensures-bind, bad_escape}
use crex.Lexer.Token.{
  TokenType, character, char_class, builtin_char_class, greedy_repetition, lazy_repetition, Token,
  CharClasses, repetition_infinity, set_character,
}
use crex.Lexer.Escape.{
  lex_hex, hex_digit, escape_token, is_escaped_literal, leaving, lex_escape_code, str_to_size,
}
use crex.Lexer.ClassLexer.{index_of, starts_with, skip_one}
use crex.Lexer.Progress.{class_loop-Leaves}
use crex.Lexer.Total.{reserve_class-Ensures}
use crex.Lexer.Numbers.{AllDigits, str_to_size-eq-min}
use crex.Lexer.Intern.{index_of-some}
use crex.Lexer.Lex.{
  Lexed, finish_bitmap, place_class, intern_class, finish_class, empty_scan, lex_class_body,
  lex_inverted, lex_char_class, scan_digits, lex_repetition, lex_exactly, upper_bound_of,
  lex_between, lex_brace, lex_paren, lex_escape, lex_simple, lex,
}

-- A character is a byte, a class has an entry in its table, and a repetition has an ordered pair of
-- bounds of which the lower is finite.
abbrev pub Fits : TokenType → ℕ → Token → Type 0
Fits character n token = token.character < 256
Fits char_class n token = token.char_class_index < n
Fits builtin_char_class n token = token.char_class_index < n_builtin_classes
Fits greedy_repetition n token =
    (token.lower_bound ≤ token.upper_bound) × (token.lower_bound ≢ repetition_infinity)
Fits lazy_repetition n token =
    (token.lower_bound ≤ token.upper_bound) × (token.lower_bound ≢ repetition_infinity)
Fits _ n token = Unit

abbrev pub IsToken : ℕ → Token → Type 0
IsToken n token = Fits token.type n token

data IsEscape (n : ℕ) : Option (Token × List ℕ) → Type 0 where
  no_escape : IsEscape n none
  escape : {token : Token} {rest : List ℕ} → IsToken n token → IsEscape n (some (token, rest))

data IsToken? (n : ℕ) : Option Token → Type 0 where
  no_token : IsToken? n none
  token? : {token : Token} → IsToken n token → IsToken? n (some token)

hex_step :
    (n : ℕ) (rest : List ℕ) (token : Token) (f : ℕ → Option (Token × List ℕ))
    → IsToken n token
    → ((d : ℕ) → IsEscape n (f d))
    → (o : Option ℕ) → IsEscape n (elim o [ none ↦ some (token, rest) | some digit ↦ f digit ])
hex_step n rest token f h k none = escape h
hex_step n rest token f h k (some digit) = k digit

lex_hex-IsEscape :
    (n i value : ℕ) (token : Token) (pattern : List ℕ)
    → IsToken n token
    → IsEscape n (lex_hex i value token pattern)
unfolding lex_hex
lex_hex-IsEscape n zero value token pattern h = escape (omega arith)
lex_hex-IsEscape n (suc i) value token [] h = escape h
lex_hex-IsEscape n (suc i) value token (byte ∷ rest) h =
    hex_step n rest token (λ d. lex_hex i (16 * value + d) token rest) h
      (λ d. lex_hex-IsEscape n i (16 * value + d) token rest h) (hex_digit byte)

escape_token-IsToken? :
    (n : ℕ) (token : Token) (c : ℕ) → c < 256 → IsToken? n (escape_token token c)
unfolding escape_token
escape_token-IsToken? n token c h = if_both (IsToken? n) (c == b'a') (token? (omega arith)) (
    if_both (IsToken? n) (c == b'f') (token? (omega arith)) (
      if_both (IsToken? n) (c == b'n') (token? (omega arith)) (
        if_both (IsToken? n) (c == b'r') (token? (omega arith)) (
          if_both (IsToken? n) (c == b't') (token? (omega arith)) (
            if_both (IsToken? n) (c == b'v') (token? (omega arith)) (
              if_both (IsToken? n) (c == b'A') (token? tt) (
                if_both (IsToken? n) (c == b'z') (token? tt) (
                  if_both (IsToken? n) (c == b'b') (token? tt) (
                    if_both (IsToken? n) (c == b'B') (token? tt) (
                      if_both (IsToken? n) (is_escaped_literal c) (token? h) (
                        if_both (IsToken? n) (c == b'd') (token? (omega arith)) (
                          if_both (IsToken? n) (c == b'D') (token? (omega arith)) (
                            if_both (IsToken? n) (c == b's') (token? (omega arith)) (
                              if_both (IsToken? n) (c == b'S') (token? (omega arith)) (
                                if_both (IsToken? n) (c == b'w') (token? (omega arith)) (
                                  if_both (IsToken? n) (c == b'W') (token? (omega arith))
                                    no_token))))))))))))))))

leaving-IsEscape :
    (n : ℕ) (rest : List ℕ) {o : Option Token} → IsToken? n o → IsEscape n (leaving rest o)
leaving-IsEscape n rest no_token = no_escape
leaving-IsEscape n rest (token? h) = escape h

abbrev pub AllBytes : List ℕ → Type 0
AllBytes = All (λ b. b < 256)

lex_escape_code-IsEscape :
    (n : ℕ) (token : Token) (pattern : List ℕ)
    → token.character < 256
    → AllBytes pattern
    → IsEscape n (lex_escape_code token pattern)
unfolding lex_escape_code
lex_escape_code-IsEscape n token [] h bytes = no_escape
lex_escape_code-IsEscape n token (c ∷ rest) h bytes =
    if_both (IsEscape n) (c == b'x')
      (lex_hex-IsEscape n 2 0 (set_character token token.character) rest h)
      (leaving-IsEscape n rest (escape_token-IsToken? n token c bytes.0))

abbrev IsLexed : ℕ → Result (Token × List ℕ) → Type 0
IsLexed n = Ensures (λ r. IsToken n r.0)

lex_escape-IsLexed :
    (n : ℕ) (token : Token) (rest : List ℕ)
    → token.character < 256
    → AllBytes rest
    → IsLexed n (lex_escape token rest)
unfolding lex_escape
lex_escape-IsLexed n token rest h bytes = of_escape (lex_escape_code-IsEscape n token rest h bytes)
  where
    of_escape :
        {o : Option (Token × List ℕ)}
        → IsEscape n o
        → IsLexed n (elim o [ none ↦ err bad_escape | some r ↦ ok r ])
    of_escape no_escape = fails
    of_escape (escape k) = returns k

lex_repetition-IsToken :
    (n : ℕ) (token : Token) (lower upper : ℕ) (rest : List ℕ)
    → lower ≤ upper
    → lower ≢ repetition_infinity
    → IsToken n (lex_repetition token lower upper rest).0
unfolding lex_repetition
lex_repetition-IsToken n token lower upper rest h k =
    if_both (λ (r : Token × List ℕ). IsToken n r.0) (starts_with b'?' rest) (h, k) (h, k)

eq-false→ne : (a b : ℕ) → (a == b) ≡ false → a ≢ b
eq-false→ne a b h e = ground arith

lex_exactly-IsLexed :
    (n : ℕ) (token : Token) (digits rest : List ℕ) → IsLexed n (lex_exactly token digits rest)
unfolding lex_exactly
lex_exactly-IsLexed n token digits rest =
    if_split (IsLexed n) (str_to_size digits == repetition_infinity) (λ _. fails)
      (λ e. returns (lex_repetition-IsToken n token _ _ rest (omega arith) (eq-false→ne _ _ e)))

upper_bound_of-Ensures :
    (lower : ℕ) (digits : List ℕ)
    → lower ≤ repetition_infinity
    → Ensures (λ upper. lower ≤ upper) (upper_bound_of lower digits)
unfolding upper_bound_of
upper_bound_of-Ensures lower [] h = returns h
upper_bound_of-Ensures lower (d ∷ ds) h =
    let P = Ensures (λ upper. lower ≤ upper) in
    if_both P (str_to_size (d ∷ ds) == repetition_infinity) fails
      (if_split P (ltb (str_to_size (d ∷ ds)) lower) (λ _. fails) (λ e. returns (ground arith)))

lex_between-IsLexed :
    (n : ℕ) (token : Token) (lower upper rest : List ℕ)
    → str_to_size lower ≤ repetition_infinity
    → IsLexed n (lex_between token lower upper rest)
unfolding lex_between
lex_between-IsLexed n token lower upper rest h =
    if_split (IsLexed n) (str_to_size lower == repetition_infinity) (λ _. fails)
      (λ e.
        Ensures-bind {f = λ bound. ok (lex_repetition token (str_to_size lower) bound rest)}
          (upper_bound_of-Ensures (str_to_size lower) upper h)
          (λ bound k. returns (lex_repetition-IsToken n token _ bound rest k (eq-false→ne _ _ e))))

scan_digits-AllDigits : (pattern : List ℕ) → AllDigits (scan_digits pattern).0
unfolding scan_digits
scan_digits-AllDigits [] = tt
scan_digits-AllDigits (c ∷ pattern) = elim (Bool-cases (is_digit c)) [
  | inl e ↦ rw e (e, scan_digits-AllDigits pattern)
  | inr e ↦ rw e tt
]

str_to_size-le : (digits : List ℕ) → AllDigits digits → str_to_size digits ≤ repetition_infinity
str_to_size-le digits d = omega (arith, str_to_size-eq-min digits d)

lex_brace-IsLexed : (n : ℕ) (token : Token) (pattern : List ℕ) → IsLexed n (lex_brace token pattern)
unfolding lex_brace
lex_brace-IsLexed n token pattern =
    let (lower, rest) = scan_digits pattern in
    let (upper, rest') = scan_digits (skip_one rest) in
    let bound = str_to_size-le lower (scan_digits-AllDigits pattern) in
    let literal : IsLexed n (ok (set_character token b'{', pattern)) = returns (omega arith) in
    if_both (IsLexed n) (ltb 0 (length lower) && starts_with b'}' rest)
      (lex_exactly-IsLexed n token lower (skip_one rest))
      (if_both (IsLexed n) (ltb 0 (length lower) && starts_with b',' rest)
        (if_both (IsLexed n) (starts_with b'}' rest')
          (lex_between-IsLexed n token lower upper (skip_one rest') bound) literal)
        literal)

lex_paren-IsToken : (n : ℕ) (token : Token) (rest : List ℕ) → IsToken n (lex_paren token rest).0
unfolding lex_paren
lex_paren-IsToken n token rest =
    if_both (λ (r : Token × List ℕ). IsToken n r.0)
      (starts_with b'?' rest && starts_with b':' (skip_one rest)) tt tt

lex_simple-IsLexed :
    (n : ℕ) (token : Token) (c : ℕ) (rest : List ℕ)
    → token.character < 256
    → c < 256
    → AllBytes rest
    → IsLexed n (lex_simple token c rest)
unfolding lex_simple
lex_simple-IsLexed n token c rest h byte bytes = if_both (IsLexed n) (c == b'^') (returns tt) (
    if_both (IsLexed n) (c == b'$') (returns tt) (
      if_both (IsLexed n) (c == b'|') (returns tt) (
        if_both (IsLexed n) (c == b'*')
          (returns (lex_repetition-IsToken n token _ _ rest (omega arith) (omega arith)))
          (if_both (IsLexed n) (c == b'+')
            (returns (lex_repetition-IsToken n token _ _ rest (omega arith) (omega arith)))
            (if_both (IsLexed n) (c == b'?')
              (returns (lex_repetition-IsToken n token _ _ rest (omega arith) (omega arith)))
              (if_both (IsLexed n) (c == b'(') (returns (lex_paren-IsToken n token rest)) (
                if_both (IsLexed n) (c == b')') (returns tt) (
                  if_both (IsLexed n) (c == b'.') (returns (omega arith)) (
                    if_both (IsLexed n) (c == b'{') (lex_brace-IsLexed n token rest) (
                      if_both (IsLexed n) (c == b'\\') (lex_escape-IsLexed n token rest h bytes)
                        (returns byte)))))))))))

length-builtin_classes : length builtin_classes ≡ n_builtin_classes
unfolding builtin_classes
length-builtin_classes = refl

place_class-IsToken :
    (classes : CharClasses) (token : Token) (b : Bitmap) (o p : Option ℕ)
    → index_of b builtin_classes ≡ o
    → index_of b classes.entries ≡ p
    → IsToken
        (length (place_class classes token b o p).1.entries)
        (place_class classes token b o p).0
unfolding place_class
place_class-IsToken classes token b (some i) p h k =
    omega (arith, index_of-some b builtin_classes h, length-builtin_classes)
place_class-IsToken classes token b none (some i) h k = (index_of-some b classes.entries k).0
place_class-IsToken classes token b none none h k =
    omega (arith, length-append {0} classes.entries (b ∷ []))

abbrev IsLexedClass : Result Lexed → Type 0
IsLexedClass = Ensures (λ r. IsToken (length r.2.entries) r.0)

lex_class_body-IsLexed :
    (inverted : Bool) (classes : CharClasses) (token : Token) (pattern : List ℕ)
    → IsLexedClass (lex_class_body inverted classes token pattern)
unfolding lex_class_body finish_class intern_class
lex_class_body-IsLexed inverted classes token pattern =
    Ensures-bind {f = finish_class inverted classes}
      (class_loop-Leaves (suc (length pattern)) (empty_scan token) pattern (omega arith))
      (λ (s, rest) _.
        returns (place_class-IsToken classes s.token (finish_bitmap inverted s) _ _ refl refl))

lex_inverted-IsLexed :
    (classes : CharClasses) (token : Token) (pattern : List ℕ)
    → IsLexedClass (lex_inverted classes token pattern)
unfolding lex_inverted
lex_inverted-IsLexed classes token [] = fails
lex_inverted-IsLexed classes token (c ∷ rest) =
    if_both IsLexedClass (c == b'^') (lex_class_body-IsLexed true classes token rest)
      (lex_class_body-IsLexed false classes token (c ∷ rest))

-- Every token that `lex` gives for a pattern of bytes is well formed, and the index of a class is
-- one of the table that `lex` leaves.
pub lex-IsToken :
    (alloc : Bool) (classes : CharClasses) (token : Token) (c : ℕ) (rest : List ℕ)
    → token.character < 256
    → AllBytes (c ∷ rest)
    → Ensures (λ r. IsToken (length r.2.entries) r.0) (lex alloc classes token (c ∷ rest))
unfolding lex lex_char_class
lex-IsToken alloc classes token c rest h bytes =
    if_both IsLexedClass (c == b'[')
      (Ensures-bind {f = λ reserved. lex_inverted reserved token rest}
        (reserve_class-Ensures alloc classes)
        (λ reserved _. lex_inverted-IsLexed reserved token rest))
      (Ensures-bind {f = λ (token', rest'). ok (token', rest', classes)}
        (lex_simple-IsLexed (length classes.entries) token c rest h bytes.0 bytes.1)
        (λ _ k. returns k))
