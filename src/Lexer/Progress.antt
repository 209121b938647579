-- ===== src/Lexer/Progress.antt =====
-- What src/lexer.c leaves of a pattern is an end of it, shorter by a byte at least; so the loops end.
use crex.Base.{
  ℕ, zero, suc, ◌+◌, ◌*◌, ◌<◌, inl, inr, Bool, true, false, Option, none, some, List, [], ◌∷◌,
  length, ◌||◌, Suffix, here, there, Suffix-trans, length-Suffix, if_both, Bool-cases, ◌==◌, arith,
}
use crex.Ctype.{is_alpha}
use crex.CharClass.{builtin_class_names}
use crex.Status.{
  Result, ok, err, ◌>>=◌, undefined, Ensures, returns, fails, faults, Ensures-bind, Ensures-weaken,
  bad_escape,
}
use crex.Lexer.Token.{TokenType, character, anchor, builtin_char_class, Token}
use crex.Lexer.Escape.{hex_digit, lex_hex, escape_token, leaving, lex_escape_code}
use crex.Lexer.ClassLexer.{
  Scan, index_of, drop_last, is_named, push_char, scan_name, named_class, skip_one, lex_bracket,
  use_escape, lex_class_escape, lex_dash, class_step, class_loop, with_rest,
}

-- What an escape leaves, if it is one.
pub data Leaves? (pattern : List ℕ) : Option (Token × List ℕ) → Type 0 where
  nothing : Leaves? pattern none
  leaves :
      {token : Token} {rest : List ℕ} → Suffix rest pattern → Leaves? pattern (some (token, rest))

there-Leaves? :
    {c : ℕ} {pattern : List ℕ} {o : Option (Token × List ℕ)}
    → Leaves? pattern o
    → Leaves? (c ∷ pattern) o
there-Leaves? nothing = nothing
there-Leaves? (leaves h) = leaves (there h)

hex_step :
    (c : ℕ) (rest : List ℕ) (token : Token) (f : ℕ → Option (Token × List ℕ))
    → ((d : ℕ) → Leaves? rest (f d))
    → (o : Option ℕ)
    → Leaves? (c ∷ rest) (elim o [ none ↦ some (token, rest) | some digit ↦ f digit ])
hex_step c rest token f h none = leaves (there here)
hex_step c rest token f h (some digit) = there-Leaves? (h digit)

lex_hex-Leaves? :
    (i value : ℕ) (token : Token) (pattern : List ℕ)
    → Leaves? pattern (lex_hex i value token pattern)
unfolding lex_hex
lex_hex-Leaves? zero value token pattern = leaves here
lex_hex-Leaves? (suc i) value token [] = leaves here
lex_hex-Leaves? (suc i) value token (byte ∷ rest) =
    hex_step byte rest token (λ d. lex_hex i (16 * value + d) token rest)
      (λ d. lex_hex-Leaves? i (16 * value + d) token rest) (hex_digit byte)

leaving-Leaves? : (c : ℕ) (rest : List ℕ) (o : Option Token) → Leaves? (c ∷ rest) (leaving rest o)
leaving-Leaves? c rest none = nothing
leaving-Leaves? c rest (some token) = leaves (there here)

pub lex_escape_code-Leaves? :
    (token : Token) (pattern : List ℕ) → Leaves? pattern (lex_escape_code token pattern)
unfolding lex_escape_code
lex_escape_code-Leaves? token [] = nothing
lex_escape_code-Leaves? token (c ∷ rest) =
    if_both (Leaves? (c ∷ rest)) (c == b'x') (there-Leaves? (lex_hex-Leaves? 2 0 _ rest))
      (leaving-Leaves? c rest (escape_token token c))

pub skip_one-Suffix : (pattern : List ℕ) → Suffix (skip_one pattern) pattern
skip_one-Suffix [] = here
skip_one-Suffix (c ∷ pattern) = there here

scan_name-Suffix : (pattern : List ℕ) → Suffix (scan_name pattern).1 pattern
unfolding scan_name
scan_name-Suffix [] = here
scan_name-Suffix (c ∷ pattern) = elim (Bool-cases (is_alpha c || c == b':')) [
  | inl e ↦ rw e (there (scan_name-Suffix pattern))
  | inr e ↦ rw e here
]

-- The part of a result that is the rest of the pattern.
abbrev pub Leaves {ℓ} : {A : Type ℓ} → List ℕ → Result (A × List ℕ) → Type ℓ
Leaves pattern = Ensures (λ r. Suffix r.1 pattern)

push_char-Ensures : (s : Scan) (c : ℕ) → Ensures (λ s'. Unit {0}) (push_char s c)
unfolding push_char
push_char-Ensures s c =
    if_both (Ensures (λ s'. Unit {0})) s.is_range
      (if_both (Ensures (λ s'. Unit {0})) _ fails (returns tt)) (returns tt)

named_class-Ensures : (name : List ℕ) → Ensures (λ i. Unit {0}) (named_class name)
unfolding named_class
named_class-Ensures [] = faults
named_class-Ensures (c ∷ []) = faults
named_class-Ensures (c ∷ d ∷ ds) = found (index_of (drop_last (d ∷ ds)) builtin_class_names)
  where
    found :
        (o : Option ℕ) → Ensures (λ (i : ℕ). Unit {0}) (elim o [ none ↦ undefined | some i ↦ ok i ])
    found none = faults
    found (some i) = returns tt

with_rest-Leaves :
    (rest pattern : List ℕ) (m : Result Scan)
    → Suffix rest pattern
    → Ensures (λ s. Unit {0}) m
    → Leaves pattern (with_rest rest m)
with_rest-Leaves rest pattern m h k = Ensures-bind k (λ s _. returns h)

lex_bracket-Leaves : (s : Scan) (pattern : List ℕ) → Leaves pattern (lex_bracket s pattern)
unfolding lex_bracket
lex_bracket-Leaves s pattern =
    if_both (Leaves pattern) (is_named (scan_name pattern).0 (scan_name pattern).1)
      (if_both (Leaves pattern) s.is_range fails (
        Ensures-bind (named_class-Ensures (scan_name pattern).0)
          (λ i _. returns (Suffix-trans (skip_one-Suffix _) (scan_name-Suffix pattern)))))
      (with_rest-Leaves pattern pattern _ here (push_char-Ensures s b'['))

use_escape-Leaves :
    (type : TokenType) (s : Scan) (rest : List ℕ) → Leaves rest (use_escape type s rest)
unfolding use_escape
use_escape-Leaves character s rest = with_rest-Leaves rest rest _ here (push_char-Ensures s _)
use_escape-Leaves anchor s rest = fails
use_escape-Leaves builtin_char_class s rest = if_both (Leaves rest) s.is_range fails (returns here)
use_escape-Leaves _ s rest = returns here

lex_class_escape-Leaves :
    (s : Scan) (pattern : List ℕ) → Leaves pattern (lex_class_escape s pattern)
unfolding lex_class_escape
lex_class_escape-Leaves s pattern = go (lex_escape_code-Leaves? s.token pattern)
  where
    go :
        {o : Option (Token × List ℕ)}
        → Leaves? pattern o
        → Leaves pattern (elim o [
          | none ↦ err bad_escape
          | some (token, rest) ↦ use_escape token.type (record s { token = token }) rest
        ])
    go nothing = fails
    go (leaves {token = token} {rest = rest} h) =
        Ensures-weaken (λ r k. Suffix-trans k h)
          (use_escape-Leaves token.type (record s { token = token }) rest)

lex_dash-Ensures : (s : Scan) → Ensures (λ s'. Unit {0}) (lex_dash s)
unfolding lex_dash
lex_dash-Ensures s = if_both (Ensures (λ s'. Unit {0})) _ (push_char-Ensures s b'-') (returns tt)

class_step-Leaves : (s : Scan) (c : ℕ) (rest : List ℕ) → Leaves rest (class_step s c rest)
unfolding class_step
class_step-Leaves s c rest = if_both (Leaves rest) _ (lex_bracket-Leaves s rest) (
    if_both (Leaves rest) _ (lex_class_escape-Leaves s rest) (
      if_both (Leaves rest) _ (with_rest-Leaves rest rest _ here (lex_dash-Ensures s))
        (with_rest-Leaves rest rest _ here (push_char-Ensures s c))))

class_round :
    (c : ℕ) (s : Scan) (rest : List ℕ) (again : Scan × List ℕ → Result (Scan × List ℕ))
    → ((s' : Scan) (r : List ℕ) → Suffix r rest → Leaves r (again (s', r)))
    → (b : Bool)
    → Leaves (c ∷ rest) (elim b [ true ↦ ok (s, rest) | false ↦ class_step s c rest >>= again ])
class_round c s rest again h true = returns (there here)
class_round c s rest again h false =
    Ensures-bind (class_step-Leaves s c rest)
      (λ (s', r) k. Ensures-weaken (λ x l. there (Suffix-trans l k)) (h s' r k))

-- With more fuel than bytes the loop over a class ends before its fuel does, and leaves an end of
-- the pattern.
pub class_loop-Leaves :
    (fuel : ℕ) (s : Scan) (pattern : List ℕ)
    → length pattern < fuel
    → Leaves pattern (class_loop fuel s pattern)
unfolding class_loop
class_loop-Leaves zero s pattern h = absurd (omega arith)
class_loop-Leaves (suc fuel) s [] h = fails
class_loop-Leaves (suc fuel) s (c ∷ rest) h =
    class_round c s rest (λ (s', r). class_loop fuel s' r)
      (λ s' r k. class_loop-Leaves fuel s' r (omega (arith, length-Suffix k))) (c == b']')
