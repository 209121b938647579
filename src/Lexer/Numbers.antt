-- ===== src/Lexer/Numbers.antt =====
-- `str_to_size` of src/lexer.c against the value of a decimal numeral.
use crex.Base.{
  ℕ, ◌+◌, ◌-◌, ◌*◌, ◌/◌, ◌≤◌, ◌≡◌, inl, inr, min, true, List, [], ◌∷◌, All, Bool-cases, ltb, arith,
}
use crex.Ctype.{is_digit}
use crex.Lexer.Token.{repetition_infinity}
use crex.Lexer.Escape.{str_to_size_loop, str_to_size}

-- The number that `n`, followed by the digits, stands for.
pub decimal : ℕ → List ℕ → ℕ
decimal n [] = n
decimal n (c ∷ digits) = decimal (10 * n + (c - b'0')) digits

abbrev pub AllDigits : List ℕ → Type 0
AllDigits = All (λ c. is_digit c ≡ true)

le-decimal : (n : ℕ) (digits : List ℕ) → n ≤ decimal n digits
unfolding decimal
le-decimal n [] = omega arith
le-decimal n (c ∷ digits) = omega (arith, le-decimal (10 * n + (c - b'0')) digits)

digit_value : (c : ℕ) → is_digit c ≡ true → c - b'0' ≤ 9
digit_value c h = ground arith

str_to_size_loop-eq-min :
    (n : ℕ) (digits : List ℕ)
    → n ≤ repetition_infinity
    → AllDigits digits
    → str_to_size_loop n digits ≡ min (decimal n digits) repetition_infinity
unfolding str_to_size_loop decimal
str_to_size_loop-eq-min n [] h d = omega arith
str_to_size_loop-eq-min n (c ∷ digits) h d =
    let n' = 10 * n + (c - b'0') in
    let small = digit_value c d.0 in
    elim (Bool-cases (ltb ((repetition_infinity - (c - b'0')) / 10) n)) [
      | inl e ↦ rw e (ground (arith, le-decimal n' digits, small))
      | inr e ↦ rw e (str_to_size_loop-eq-min n' digits (ground (arith, small)) d.1)
    ]

-- `str_to_size` of a numeral is its value if that is below `REPETITION_INFINITY`, and
-- `REPETITION_INFINITY` otherwise: it saturates and never wraps.
pub str_to_size-eq-min :
    (digits : List ℕ)
    → AllDigits digits
    → str_to_size digits ≡ min (decimal 0 digits) repetition_infinity
unfolding str_to_size
str_to_size-eq-min digits d = str_to_size_loop-eq-min 0 digits (omega arith) d
