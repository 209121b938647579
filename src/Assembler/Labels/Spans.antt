-- ===== src/Assembler/Labels/Spans.antt =====
-- The uses of labels in src/assembler.c, how much shorter the code gets before each, and that the code
-- between two of them gets shorter only.
use crex.Base.{
  ℕ, zero, suc, ◌+◌, ◌≤◌, ◌<◌, ◌≡◌, ◌⊎◌, refl, ap, subst, inl, inr, true, false, some, List, [],
  ◌∷◌, length, get_elem?, if◌then◌else◌, arith,
}
use crex.Assembler.{UseType, LabelUse}
use crex.Assembler.Labels.{reserved_size}

-- What the short form of a branch is shorter by.
abbrev pub gain : UseType → ℕ
gain UseType.jcc = 4
gain UseType.jmp = 3
gain _ = 0

abbrev pub shrink : LabelUse → ℕ
shrink u = if u.is_short then gain u.type else 0

abbrev pub total : List LabelUse → ℕ
total [] = 0
total (u ∷ us) = shrink u + total us

-- How much shorter the code is before the use with this index.
abbrev pub before : List LabelUse → ℕ → ℕ
before us zero = 0
before [] (suc k) = 0
before (u ∷ us) (suc k) = shrink u + before us k

-- The branches that are not short.
abbrev pub long_ones : List LabelUse → ℕ
long_ones [] = 0
long_ones (u ∷ us) = (if u.is_short then 0 else 1) + long_ones us

-- A use after a pass: a branch may have become short.
pub data Shorter : LabelUse → LabelUse → Type 0 where
  same : {u : LabelUse} → Shorter u u
  shortened :
      {u : LabelUse}
      → zero < gain u.type
      → u.is_short ≡ false
      → Shorter u (record u { is_short = true })

pub data AllShorter : List LabelUse → List LabelUse → Type 0 where
  none_left : AllShorter [] []
  also :
      {u u' : LabelUse} {us us' : List LabelUse}
      → Shorter u u'
      → AllShorter us us'
      → AllShorter (u ∷ us) (u' ∷ us')

pub Shorter-le : (u u' : LabelUse) → Shorter u u' → shrink u ≤ shrink u'
Shorter-le u _ same = omega arith
Shorter-le u _ (shortened g e) = rw e (omega arith)

-- What a pass leaves of a use.
pub record IsKept (u u' : LabelUse) : Type 0 where
  pub type : u'.type ≡ u.type
  pub offset : u'.offset ≡ u.offset
  pub label : u'.label ≡ u.label
  pub once_short : u.is_short ≡ true → u'.is_short ≡ true

pub Shorter-IsKept : (u u' : LabelUse) → Shorter u u' → IsKept u u'
Shorter-IsKept u _ same = record { type = refl; offset = refl; label = refl; once_short = λ e. e }
Shorter-IsKept u _ (shortened g e) = record {
  type = refl;
  offset = refl;
  label = refl;
  once_short = λ f. refl;
}

pub record IsWas (us : List LabelUse) (i : ℕ) (u' : LabelUse) : Type 0 where
  pub use_ : LabelUse
  pub found : get_elem? us i ≡ some use_
  pub kept : IsKept use_ u'

pub IsWas-at :
    (us us' : List LabelUse) (i : ℕ) (u' : LabelUse)
    → AllShorter us us'
    → get_elem? us' i ≡ some u'
    → IsWas us i u'
IsWas-at _ _ i u' none_left e = absurd cc
IsWas-at (v ∷ us) (v' ∷ us') zero u' (also s ss) e =
    let same_use : v' ≡ u' = cc in
    record { use_ = v; found = refl; kept = subst (IsKept v) same_use (Shorter-IsKept v v' s) }
IsWas-at (v ∷ us) (v' ∷ us') (suc i) u' (also s ss) e =
    let w = IsWas-at us us' i u' ss e in record { use_ = w.use_; found = w.found; kept = w.kept }

pub record IsNow (us' : List LabelUse) (i : ℕ) (u : LabelUse) : Type 0 where
  pub use_ : LabelUse
  pub found : get_elem? us' i ≡ some use_
  pub kept : IsKept u use_

pub IsNow-at :
    (us us' : List LabelUse) (i : ℕ) (u : LabelUse)
    → AllShorter us us'
    → get_elem? us i ≡ some u
    → IsNow us' i u
IsNow-at _ _ i u none_left e = absurd cc
IsNow-at (v ∷ us) (v' ∷ us') zero u (also s ss) e =
    let same_use : v ≡ u = cc in
    record {
      use_ = v';
      found = refl;
      kept = subst (λ (w : LabelUse). IsKept w v') same_use (Shorter-IsKept v v' s);
    }
IsNow-at (v ∷ us) (v' ∷ us') (suc i) u (also s ss) e =
    let w = IsNow-at us us' i u ss e in record { use_ = w.use_; found = w.found; kept = w.kept }

-- A branch that has become short saves what its type does.
pub Shorter-gain :
    (u u' : LabelUse)
    → Shorter u u'
    → u.is_short ≡ false
    → u'.is_short ≡ true
    → shrink u' ≡ gain u.type
Shorter-gain u _ same e f = cc
Shorter-gain u _ (shortened g e) _ f = refl

-- Between two uses no code gets longer.
pub before_gap :
    (us us' : List LabelUse) (k i : ℕ)
    → AllShorter us us'
    → k ≤ i
    → before us i + before us' k ≤ before us' i + before us k
before_gap us us' zero zero s h = omega arith
before_gap us us' (suc k) zero s h = absurd (omega arith)
before_gap _ _ zero (suc i) none_left h = omega arith
before_gap _ _ (suc k) (suc i) none_left h = omega arith
before_gap (u ∷ us) (u' ∷ us') zero (suc i) (also s ss) h =
    omega (arith, Shorter-le u u' s, before_gap us us' zero i ss (omega arith))
before_gap (u ∷ us) (u' ∷ us') (suc k) (suc i) (also s ss) h =
    omega (arith, before_gap us us' k i ss (omega arith))

pub total-before : (us : List LabelUse) → before us (length us) ≡ total us
total-before [] = refl
total-before (u ∷ us) = omega (arith, total-before us)

-- A pass that yields nothing changes nothing, and any other leaves fewer long branches.
pub AllShorter-cases :
    (us us' : List LabelUse)
    → AllShorter us us'
    → ((us' ≡ us) ⊎ ((total us < total us') × (long_ones us' < long_ones us)))
AllShorter-cases _ _ none_left = inl refl
AllShorter-cases (u ∷ us) _ (also same ss) = elim (AllShorter-cases us _ ss) [
  | inl e ↦ inl (ap (λ vs. u ∷ vs) e)
  | inr h ↦ inr (omega (arith, h.0), omega (arith, h.1))
]
AllShorter-cases (u ∷ us) _ (also (shortened g e) ss) = elim (AllShorter-cases us _ ss) [
  | inl k ↦ inr (rw (k, e) (omega arith), rw (k, e) (omega arith))
  | inr h ↦ inr (rw e (omega (arith, h.0)), rw e (omega (arith, h.1)))
]

pub AllShorter-refl : (us : List LabelUse) → AllShorter us us
AllShorter-refl [] = none_left
AllShorter-refl (u ∷ us) = also same (AllShorter-refl us)

Shorter-trans : (u u' u'' : LabelUse) → Shorter u u' → Shorter u' u'' → Shorter u u''
Shorter-trans u _ _ same s = s
Shorter-trans u _ _ (shortened g e) same = shortened g e
Shorter-trans u _ _ (shortened g e) (shortened g' e') = cc

pub AllShorter-trans :
    (us us' us'' : List LabelUse) → AllShorter us us' → AllShorter us' us'' → AllShorter us us''
AllShorter-trans [] _ _ none_left none_left = none_left
AllShorter-trans (u ∷ us) [] _ s r = elim s [ ]
AllShorter-trans (u ∷ us) (u' ∷ us') [] s r = elim r [ ]
AllShorter-trans (u ∷ us) (u' ∷ us') (u'' ∷ us'') (also s ss) (also r rs) =
    also (Shorter-trans u u' u'' s r) (AllShorter-trans us us' us'' ss rs)

-- The uses follow one another from a position on, each with the room for its instruction.
abbrev pub IsLaid : ℕ → List LabelUse → ℕ → Type 0
IsLaid p [] size = p ≤ size
IsLaid p (u ∷ us) size = (p ≤ u.offset) × IsLaid (u.offset + reserved_size u.type) us size
