-- ===== src/Lexer/Total.antt =====
-- Every call of `lex` of src/lexer.c on a pattern with a byte left ends and takes a byte at least.
use crex.Base.{
  ℕ, suc, Bool, true, false, ◌&&◌, Option, none, some, List, [], ◌∷◌, length, Suffix, here, there,
  Suffix-trans, if_both, Bool-cases, inl, inr, ◌==◌, ltb, arith,
}
use crex.Ctype.{is_digit}
use crex.Status.{Result, ok, err, bad_escape, Ensures, returns, fails, Ensures-bind, Ensures-weaken}
use crex.Lexer.Token.{Token, CharClasses, repetition_infinity}
use crex.Lexer.Escape.{str_to_size}
use crex.Lexer.ClassLexer.{starts_with, skip_one}
use crex.Lexer.Progress.{
  Leaves?, nothing, leaves, lex_escape_code-Leaves?, Leaves, class_loop-Leaves, skip_one-Suffix,
}
use crex.Lexer.Lex.{
  Lexed, finish_class, empty_scan, lex_class_body, reserve_class, lex_inverted, lex_char_class,
  scan_digits, lex_repetition, lex_exactly, upper_bound_of, lex_between, lex_brace, lex_paren,
  lex_escape, lex_simple, lex,
}

abbrev LeavesClasses : List ℕ → Result Lexed → Type 0
LeavesClasses pattern = Ensures (λ r. Suffix r.1 pattern)

lex_class_body-Leaves :
    (inverted : Bool) (classes : CharClasses) (token : Token) (pattern : List ℕ)
    → LeavesClasses pattern (lex_class_body inverted classes token pattern)
unfolding lex_class_body
lex_class_body-Leaves inverted classes token pattern =
    Ensures-bind {f = finish_class inverted classes}
      (class_loop-Leaves (suc (length pattern)) (empty_scan token) pattern (omega arith))
      (λ _ k. returns k)

lex_inverted-Leaves :
    (classes : CharClasses) (token : Token) (pattern : List ℕ)
    → LeavesClasses pattern (lex_inverted classes token pattern)
unfolding lex_inverted
lex_inverted-Leaves classes token [] = fails
lex_inverted-Leaves classes token (c ∷ rest) =
    if_both (LeavesClasses (c ∷ rest)) (c == b'^')
      (Ensures-weaken (λ _ k. there k) (lex_class_body-Leaves true classes token rest))
      (lex_class_body-Leaves false classes token (c ∷ rest))

pub reserve_class-Ensures :
    (alloc : Bool) (classes : CharClasses)
    → Ensures (λ (_ : CharClasses). Unit {0}) (reserve_class alloc classes)
unfolding reserve_class
reserve_class-Ensures alloc classes =
    if_both (Ensures (λ (_ : CharClasses). Unit {0})) _
      (if_both (Ensures (λ (_ : CharClasses). Unit {0})) alloc (returns tt) fails) (returns tt)

lex_char_class-Leaves :
    (alloc : Bool) (classes : CharClasses) (token : Token) (pattern : List ℕ)
    → LeavesClasses pattern (lex_char_class alloc classes token pattern)
unfolding lex_char_class
lex_char_class-Leaves alloc classes token pattern =
    Ensures-bind (reserve_class-Ensures alloc classes)
      (λ reserved _. lex_inverted-Leaves reserved token pattern)

scan_digits-Suffix : (pattern : List ℕ) → Suffix (scan_digits pattern).1 pattern
unfolding scan_digits
scan_digits-Suffix [] = here
scan_digits-Suffix (c ∷ pattern) = elim (Bool-cases (is_digit c)) [
  | inl e ↦ rw e (there (scan_digits-Suffix pattern))
  | inr e ↦ rw e here
]

lex_repetition-Suffix :
    (token : Token) (lower upper : ℕ) (rest : List ℕ)
    → Suffix (lex_repetition token lower upper rest).1 rest
unfolding lex_repetition
lex_repetition-Suffix token lower upper rest =
    if_both (λ (r : Token × List ℕ). Suffix r.1 rest) (starts_with b'?' rest) (skip_one-Suffix rest)
      here

lex_exactly-Leaves :
    (token : Token) (digits rest : List ℕ) → Leaves rest (lex_exactly token digits rest)
unfolding lex_exactly
lex_exactly-Leaves token digits rest =
    if_both (Leaves rest) _ fails (returns (lex_repetition-Suffix token _ _ rest))

upper_bound_of-Ensures :
    (lower : ℕ) (digits : List ℕ) → Ensures (λ (_ : ℕ). Unit {0}) (upper_bound_of lower digits)
unfolding upper_bound_of
upper_bound_of-Ensures lower [] = returns tt
upper_bound_of-Ensures lower (d ∷ ds) =
    let P = Ensures (λ (_ : ℕ). Unit {0}) in
    if_both P (str_to_size (d ∷ ds) == repetition_infinity) fails
      (if_both P (ltb (str_to_size (d ∷ ds)) lower) fails (returns tt))

lex_between-Leaves :
    (token : Token) (lower upper rest : List ℕ) → Leaves rest (lex_between token lower upper rest)
unfolding lex_between
lex_between-Leaves token lower upper rest = if_both (Leaves rest) _ fails (
    Ensures-bind (upper_bound_of-Ensures _ upper)
      (λ bound _. returns (lex_repetition-Suffix token _ bound rest)))

lex_brace-Leaves : (token : Token) (pattern : List ℕ) → Leaves pattern (lex_brace token pattern)
unfolding lex_brace
lex_brace-Leaves token pattern =
    let (lower, rest) = scan_digits pattern in
    let (upper, rest') = scan_digits (skip_one rest) in
    let behind = Suffix-trans (skip_one-Suffix rest) (scan_digits-Suffix pattern) in
    let behind' =
      Suffix-trans (skip_one-Suffix rest')
        (Suffix-trans (scan_digits-Suffix (skip_one rest)) behind) in
    if_both (Leaves pattern) (ltb 0 (length lower) && starts_with b'}' rest)
      (Ensures-weaken (λ _ k. Suffix-trans k behind) (lex_exactly-Leaves token lower _))
      (if_both (Leaves pattern) (ltb 0 (length lower) && starts_with b',' rest)
        (if_both (Leaves pattern) (starts_with b'}' rest')
          (Ensures-weaken (λ _ k. Suffix-trans k behind') (lex_between-Leaves token lower upper _))
          (returns here))
        (returns here))

lex_paren-Suffix : (token : Token) (rest : List ℕ) → Suffix (lex_paren token rest).1 rest
unfolding lex_paren
lex_paren-Suffix token rest =
    if_both (λ (r : Token × List ℕ). Suffix r.1 rest) _
      (Suffix-trans (skip_one-Suffix (skip_one rest)) (skip_one-Suffix rest)) here

lex_escape-Leaves : (token : Token) (rest : List ℕ) → Leaves rest (lex_escape token rest)
unfolding lex_escape
lex_escape-Leaves token rest = go (lex_escape_code-Leaves? token rest)
  where
    go :
        {o : Option (Token × List ℕ)}
        → Leaves? rest o
        → Leaves rest (elim o [ none ↦ err bad_escape | some r ↦ ok r ])
    go nothing = fails
    go (leaves h) = returns h

pub lex_simple-Leaves :
    (token : Token) (c : ℕ) (rest : List ℕ) → Leaves rest (lex_simple token c rest)
unfolding lex_simple
lex_simple-Leaves token c rest = if_both (Leaves rest) (c == b'^') (returns here) (
    if_both (Leaves rest) (c == b'$') (returns here) (
      if_both (Leaves rest) (c == b'|') (returns here) (
        if_both (Leaves rest) (c == b'*') (returns (lex_repetition-Suffix token _ _ rest)) (
          if_both (Leaves rest) (c == b'+') (returns (lex_repetition-Suffix token _ _ rest)) (
            if_both (Leaves rest) (c == b'?') (returns (lex_repetition-Suffix token _ _ rest)) (
              if_both (Leaves rest) (c == b'(') (returns (lex_paren-Suffix token rest)) (
                if_both (Leaves rest) (c == b')') (returns here) (
                  if_both (Leaves rest) (c == b'.') (returns here) (
                    if_both (Leaves rest) (c == b'{') (lex_brace-Leaves token rest) (
                      if_both (Leaves rest) (c == b'\\') (lex_escape-Leaves token rest)
                        (returns here)))))))))))

-- A call of `lex` with a byte left, `c`, never runs out of fuel: it gives a token, a status or
-- undefined behaviour. What it leaves of the pattern, with a token, is an end of the part behind `c`.
pub lex-Ensures :
    (alloc : Bool) (classes : CharClasses) (token : Token) (c : ℕ) (rest : List ℕ)
    → Ensures (λ r. Suffix r.1 rest) (lex alloc classes token (c ∷ rest))
unfolding lex
lex-Ensures alloc classes token c rest =
    if_both (LeavesClasses rest) (c == b'[') (lex_char_class-Leaves alloc classes token rest)
      (Ensures-bind (lex_simple-Leaves token c rest) (λ _ k. returns k))
