-- ===== src/Assembler/Writes.antt =====
-- The writes of bytes in src/assembler.c, one behind the other.
use crex.Base.{
  ℕ, zero, suc, ◌+◌, ◌≤◌, ◌<◌, ◌≡◌, refl, sym, ap, ◌∙◌, List, [], ◌∷◌, ◌++◌, length, set, take,
  drop, append_assoc, append-nil, length-set, arith,
}
use crex.Assembler.{write_at}

take-set :
    (m : List ℕ) (at b : ℕ) → at < length m → take (suc at) (set m at b) ≡ take at m ++ b ∷ []
take-set [] at b h = absurd (omega arith)
take-set (x ∷ m) zero b h = refl
take-set (x ∷ m) (suc at) b h = ap (λ l. x ∷ l) (take-set m at b (omega arith))

drop-set : (m : List ℕ) (at b n : ℕ) → at < n → drop n (set m at b) ≡ drop n m
drop-set [] at b n h = refl
drop-set (x ∷ m) at b zero h = absurd (omega arith)
drop-set (x ∷ m) zero b (suc n) h = refl
drop-set (x ∷ m) (suc at) b (suc n) h = drop-set m at b n (omega arith)

pub length-write_at :
    (m : List ℕ) (at : ℕ) (bytes : List ℕ) → length (write_at m at bytes) ≡ length m
unfolding write_at
length-write_at m at [] = refl
length-write_at m at (b ∷ bytes) = length-write_at (set m at b) (at + 1) bytes ∙ length-set m at b

pub take-write_at :
    (m : List ℕ) (at : ℕ) (bytes : List ℕ)
    → at + length bytes ≤ length m
    → take (at + length bytes) (write_at m at bytes) ≡ take at m ++ bytes
unfolding write_at
take-write_at m at [] h = ap (λ n. take n m) (omega arith) ∙ sym (append-nil (take at m))
take-write_at m at (b ∷ bytes) h =
    ap (λ n. take n (write_at (set m at b) (at + 1) bytes)) (omega arith)
    ∙ take-write_at (set m at b) (at + 1) bytes (omega (arith, h, length-set m at b))
    ∙ ap (λ l. l ++ bytes)
        (ap (λ n. take n (set m at b)) {y = suc at} (omega arith)
          ∙ take-set m at b (omega (arith, h)))
    ∙ append_assoc (take at m) (b ∷ []) bytes

pub drop-write_at :
    (m : List ℕ) (at : ℕ) (bytes : List ℕ) (n : ℕ)
    → at + length bytes ≤ n
    → drop n (write_at m at bytes) ≡ drop n m
unfolding write_at
drop-write_at m at [] n h = refl
drop-write_at m at (b ∷ bytes) n h =
    drop-write_at (set m at b) (at + 1) bytes n (omega (arith, h))
    ∙ drop-set m at b n (omega (arith, h))
