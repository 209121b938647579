-- ===== src/Assembler/Correct.antt =====
-- src/assembler.c as a whole: what its operations emit, resolved.
use crex.Base.{
  ℕ, zero, suc, ◌-◌, ◌*◌, ◌/◌, ◌^◌, ◌≤◌, ◌<◌, ◌≡◌, ◌≢◌, refl, ap, true, some, List, [], ◌∷◌, take,
  length, get_elem?, arith,
}
use native.Mathlib.Nat.{mul-div-le}
use crex.Status.{Yields, yields, Yields-bind}
use crex.Assembler.{UseType, LabelUse, Assembler}
use crex.Assembler.Emission.{Emitted, Emitted-IsSound}
use crex.Assembler.Labels.{finalize_assembler}
use crex.Assembler.Labels.Layout.{Defined}
use crex.Assembler.Labels.Resolve.{IsResolved, resolve_assembler_labels-IsResolved}

-- Every label that is used is defined, and each once: its definition is the use with the index given.
pub record IsComplete (us : List LabelUse) (index : ℕ → ℕ) : Type 0 where
  pub defined :
      (i : ℕ) (u : LabelUse) → get_elem? us i ≡ some u → Defined us (index u.label) u.label
  pub once :
      (i : ℕ) (u : LabelUse)
      → get_elem? us i ≡ some u
      → u.type ≡ UseType.definition
      → index u.label ≡ i

take-take : (n m : ℕ) (l : List ℕ) → n ≤ m → take n (take m l) ≡ take n l
take-take zero m l h = refl
take-take (suc n) zero l h = absurd (omega arith)
take-take (suc n) (suc m) [] h = refl
take-take (suc n) (suc m) (x ∷ l) h = ap (λ k. x ∷ k) (take-take n m l (omega arith))

-- What `finalize_assembler` gives: the resolved code, whole, and its size.
pub record IsFinal (asm : Assembler) (index : ℕ → ℕ) (r : List ℕ × ℕ) : Type 0 where
  pub resolved : Assembler
  pub is_resolved : IsResolved asm index resolved
  pub code : take r.1 r.0 ≡ take resolved.size resolved.code
  pub size : r.1 ≡ resolved.size

-- For machine code of fewer than 2 ^ 31 bytes that the operations have emitted, with pages of 16 bytes
-- at least and one use of a label at least, where every label that is used is defined once: when there
-- is memory for the values of the labels and the mapping can be protected, the code is finalized. Only
-- branches are shortened, the code before the first use and the code between the uses are kept in their
-- order, and every call, jump and address of a label, with a register and a condition in range, decoded
-- where it now stands, leads to where the definition of its label now is. No page that the code reaches
-- is given back.
pub Emitted-IsFinal :
    (page_size : ℕ) (asm : Assembler) (stale : ℕ → ℕ) (index : ℕ → ℕ)
    → (page_size ≢ 0 → 16 ≤ page_size)
    → Emitted page_size asm
    → IsComplete asm.uses index
    → asm.size < 2 ^ 31
    → zero < length asm.uses
    → Yields (IsFinal asm index) (finalize_assembler true true stale asm)
unfolding finalize_assembler
Emitted-IsFinal page_size asm stale index p emitted complete small n =
    let sound = Emitted-IsSound page_size asm p emitted in
    Yields-bind
      (resolve_assembler_labels-IsResolved stale index asm
        (record { numbered = sound.numbered; defined = complete.defined; once = complete.once })
        sound.laid small sound.long (omega (arith, sound.fits, sound.mapped)) n)
      λ asm' h.
        let unused = mul-div-le (asm'.capacity - asm'.size) asm'.page_size in
        let unused_size = asm'.page_size * ((asm'.capacity - asm'.size) / asm'.page_size) in
        yields (record {
          resolved = asm';
          is_resolved = h;
          code =
              take-take asm'.size (asm'.capacity - unused_size) asm'.code
                (omega (arith, unused, h.size, h.capacity, sound.fits));
          size = refl;
        })
