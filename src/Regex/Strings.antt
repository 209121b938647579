-- ===== src/Regex/Strings.antt =====
-- The functions of src/crex.c that take a string, which a terminator ends.
use crex.Base.{ℕ, ◌≡◌, ◌≢◌, refl, Bool, false, List, [], ◌∷◌, ◌++◌, All, ◌==◌, arith}
use crex.Status.{ok}
use crex.Lexer.Token.{Token}
use crex.Regex.{string_bytes, crex_compile, crex_compile_str}

string_bytes-append :
    (bytes rest : List ℕ)
    → All (λ (b : ℕ). b ≢ 0) bytes
    → string_bytes (bytes ++ 0 ∷ rest) ≡ ok bytes
unfolding string_bytes
string_bytes-append [] rest h = refl
string_bytes-append (b ∷ bytes) rest h =
    let plain : (b == 0) ≡ false = ground (arith, h.0) in
    rw plain (rw (string_bytes-append bytes rest h.1) refl)

-- A pattern with no zero in it is compiled as its bytes are, whatever lies behind its terminator.
pub crex_compile_str-append :
    (stale : ℕ → Token) (alloc : ℕ → Bool) (room : Bool) (bytes rest : List ℕ)
    → All (λ (b : ℕ). b ≢ 0) bytes
    → crex_compile_str stale alloc room (bytes ++ 0 ∷ rest) ≡ crex_compile stale alloc room bytes
unfolding crex_compile_str
crex_compile_str-append stale alloc room bytes rest h = rw (string_bytes-append bytes rest h) refl
