-- ===== src/Assembler/Labels/Pass.antt =====
-- The passes of `resolve_assembler_labels` in src/assembler.c: what one does to the uses, and that they end.
use crex.Base.{
  ℕ, zero, suc, ◌+◌, ◌-◌, ◌≤◌, ◌<◌, ◌≡◌, refl, sym, ap, ◌∙◌, subst, inl, inr, Bool, Bool-cases,
  true, false, Option, none, some, List, [], ◌∷◌, length, get_elem?, take, drop, if_split, ltb,
  ◌==◌, if◌then◌else◌, arith,
}
use crex.Status.{undefined, Ensures, returns, fails, faults, Ensures-bind, Ensures-weaken}
use crex.Vm.{sub_size}
use crex.X64.{is_byte}
use crex.Vector.{fresh}
use crex.Assembler.{UseType, LabelUse, Assembler, write_at}
use crex.Assembler.Labels.{
  is_representable, shorten, shrink_branch, shrink_use, shrink_pass, shrink_loop, define_values,
  reserved_size, encode_use, next_offset, write_uses, move_code, resolve_assembler_labels,
}
use crex.Assembler.Labels.Spans.{
  gain, shrink, total, long_ones, Shorter, same, shortened, AllShorter, none_left, also,
  AllShorter-cases, AllShorter-trans,
}

abbrev Step : ℕ → LabelUse → LabelUse × (ℕ × List ℕ) → Type 0
Step s u r = Shorter u r.0 × (r.1.0 ≡ s + shrink r.0)

shorten-Step :
    (s : ℕ) (vs : List ℕ) (u : LabelUse) (o t : ℕ)
    → zero < gain u.type
    → u.is_short ≡ false
    → Ensures (Step s u) (shorten (gain u.type) s vs u o t)
unfolding shorten
shorten-Step s vs u o t g e =
    elim (Bool-cases (is_representable o (if ltb o t then t - gain u.type else t))) [
      | inl q ↦
          rw q (elim (Bool-cases (is_byte (sub_size (if ltb o t then t - gain u.type else t) o))) [
            | inl q' ↦ rw q' (returns (shortened g e, refl))
            | inr q' ↦ rw q' (returns (same, rw e (omega arith)))
          ])
      | inr q ↦ rw q fails
    ]

shrink_branch-Step :
    (s : ℕ) (vs : List ℕ) (u : LabelUse)
    → zero < gain u.type
    → Ensures (Step s u) (shrink_branch (gain u.type) s vs u)
unfolding shrink_branch
shrink_branch-Step s vs u g = elim (Bool-cases u.is_short) [
  | inl e ↦
      let gained : shrink u ≡ gain u.type = rw e refl in
      simp e (returns (same, ap (λ n. s + n) (sym gained)))
  | inr e ↦ simp e (at_value (get_elem? vs u.label) e)
]
  where
    at_value :
        (m : Option ℕ)
        → u.is_short ≡ false
        → Ensures (Step s u) (elim m [
          | none ↦ undefined
          | some target ↦ shorten (gain u.type) s vs u (sub_size u.offset s + 2) target
        ])
    at_value none e = faults
    at_value (some t) e = shorten-Step s vs u (sub_size u.offset s + 2) t g e

pub shrink_of_none : (u : LabelUse) → gain u.type ≡ 0 → shrink u ≡ 0
shrink_of_none u g = go u.is_short
  where
    go : (b : Bool) → (if b then gain u.type else 0) ≡ 0
    go true = g
    go false = refl

shrink_use-Step :
    (t : UseType) (s : ℕ) (vs : List ℕ) (u : LabelUse)
    → u.type ≡ t
    → Ensures (Step s u) (shrink_use t s vs u)
unfolding shrink_use
shrink_use-Step UseType.jcc s vs u e =
    let g : gain u.type ≡ 4 = rw e refl in
    subst (λ n. Ensures (Step s u) (shrink_branch n s vs u)) g
      (shrink_branch-Step s vs u (omega (arith, g)))
shrink_use-Step UseType.jmp s vs u e =
    let g : gain u.type ≡ 3 = rw e refl in
    subst (λ n. Ensures (Step s u) (shrink_branch n s vs u)) g
      (shrink_branch-Step s vs u (omega (arith, g)))
shrink_use-Step UseType.definition s vs u e =
    returns (same, omega (arith, shrink_of_none u (rw e refl)))
shrink_use-Step UseType.lea s vs u e = returns (same, omega (arith, shrink_of_none u (rw e refl)))
shrink_use-Step UseType.call s vs u e = returns (same, omega (arith, shrink_of_none u (rw e refl)))

pub shrink_pass-AllShorter :
    (s : ℕ) (vs : List ℕ) (us : List LabelUse)
    → Ensures (λ r. AllShorter us r.0 × (r.1.0 ≡ s + total r.0)) (shrink_pass s vs us)
unfolding shrink_pass
shrink_pass-AllShorter s vs [] = returns (none_left, omega arith)
shrink_pass-AllShorter s vs (u ∷ us) = Ensures-bind (shrink_use-Step u.type s vs u refl) λ r h.
    Ensures-bind (shrink_pass-AllShorter r.1.0 r.1.1 us)
      λ q k. returns (also h.0 k.0, omega (arith, h.1, k.1))

-- A round is to be done still where the shrinkage differs from the one before.
abbrev pub unchecked : ℕ → ℕ → ℕ
unchecked now prev = if now == prev then 0 else 1

pub fuel_left :
    (us us' : List LabelUse) (prev fuel : ℕ)
    → AllShorter us us'
    → (total us' == prev) ≡ false
    → long_ones us + unchecked (total us) prev < suc fuel
    → long_ones us' + unchecked (total us') (total us') < fuel
fuel_left us us' prev fuel s e h = elim (AllShorter-cases us us' s) [
  | inl k ↦ ground (arith, k, ap total k, ap long_ones k, h, e)
  | inr k ↦ ground (arith, k.0, k.1, h)
]

pub shrink_loop-AllShorter :
    (fuel prev : ℕ) (vs : List ℕ) (us : List LabelUse)
    → long_ones us + unchecked (total us) prev < fuel
    → Ensures (λ r. AllShorter us r.0) (shrink_loop fuel prev vs us)
unfolding shrink_loop
shrink_loop-AllShorter zero prev vs us h = absurd (omega arith)
shrink_loop-AllShorter (suc fuel) prev vs us h =
    Ensures-bind (shrink_pass-AllShorter 0 vs us) λ r k. elim (Bool-cases (r.1.0 == prev)) [
      | inl e ↦ rw e (returns k.0)
      | inr e ↦ rw e (
          Ensures-weaken (λ q m. AllShorter-trans us r.0 q.0 k.0 m)
            (shrink_loop-AllShorter fuel r.1.0 r.1.1 r.0 (
              subst (λ n. long_ones r.0 + unchecked (total r.0) n < fuel) (sym (k.1 ∙ omega arith))
                (fuel_left us r.0 prev fuel k.0
                  (subst (λ n. (n == prev) ≡ false) (k.1 ∙ omega arith) e) h))))
    ]

long_ones-le : (us : List LabelUse) → long_ones us ≤ length us
long_ones-le [] = omega arith
long_ones-le (u ∷ us) = elim (Bool-cases u.is_short) [
  | inl e ↦ rw e (omega (arith, long_ones-le us))
  | inr e ↦ rw e (omega (arith, long_ones-le us))
]

pub enough_rounds : (us : List LabelUse) → long_ones us + unchecked (total us) 0 < suc (length us)
enough_rounds [] = omega arith
enough_rounds (u ∷ us) = elim (Bool-cases u.is_short) [
  | inl e ↦ rw e (ground (arith, long_ones-le us))
  | inr e ↦ rw e (ground (arith, enough_rounds us))
]

write_uses-Ensures :
    (size : ℕ) (vs : List ℕ) (us : List LabelUse) (memory : List ℕ) (code : ℕ)
    → Ensures (λ (r : List ℕ × ℕ). zero ≡ zero) (write_uses size vs us memory code)
unfolding write_uses
write_uses-Ensures size vs [] memory code = returns refl
write_uses-Ensures size vs (u ∷ us) memory code =
    go (get_elem? vs u.label) (write_uses-Ensures size vs us)
  where
    go :
        (o : Option ℕ)
        → ((memory : List ℕ) (code : ℕ)
            → Ensures (λ (r : List ℕ × ℕ). zero ≡ zero) (write_uses size vs us memory code))
        → Ensures
            (λ (r : List ℕ × ℕ). zero ≡ zero)
            (elim o [
              | none ↦ undefined
              | some target ↦
                  let bytes = encode_use u.type u code target in
                  let memory' = write_at memory code bytes in
                  let begin_ = u.offset + reserved_size u.type in
                  let moved = next_offset size us - begin_ in
                  write_uses size vs us
                    (write_at memory' (code + length bytes) (take moved (drop begin_ memory')))
                    (code + length bytes + moved)
            ])
    go none ih = faults
    go (some target) ih = ih _ _

move_code-uses :
    (asm : Assembler) (us : List LabelUse) (vs : List ℕ)
    → Ensures (λ (asm' : Assembler). asm'.uses ≡ us) (move_code asm us vs)
unfolding move_code
move_code-uses asm [] vs = faults
move_code-uses asm (u ∷ us) vs =
    Ensures-bind (write_uses-Ensures asm.size vs (u ∷ us) asm.code u.offset) λ r h. returns refl

-- Whatever the uses of labels are, the loops of the resolution end, with at most as many passes as there
-- are uses and one more; if they give an assembler, its uses are those that there were, but for branches
-- that have become short.
pub resolve_assembler_labels-AllShorter :
    (room : Bool) (stale : ℕ → ℕ) (asm : Assembler)
    → Ensures
        (λ (asm' : Assembler). AllShorter asm.uses asm'.uses)
        (resolve_assembler_labels room stale asm)
unfolding resolve_assembler_labels
resolve_assembler_labels-AllShorter room stale asm =
    if_split (Ensures (λ (asm' : Assembler). AllShorter asm.uses asm'.uses)) room
      (λ e.
        Ensures-bind
          (shrink_loop-AllShorter (suc (length asm.uses)) 0
            (define_values (fresh stale asm.n_labels) asm.uses) asm.uses (enough_rounds asm.uses))
          λ r h.
            Ensures-weaken (λ asm' k. subst (AllShorter asm.uses) (sym k) h)
              (move_code-uses asm r.0 r.1))
      (λ e. fails)
