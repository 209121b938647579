-- ===== src/Assembler/Labels/Layout.antt =====
-- Where the uses of labels in src/assembler.c lie, and where the labels are defined.
use crex.Base.{
  ℕ, zero, suc, ◌+◌, ◌≤◌, ◌<◌, ◌≡◌, refl, ap, subst, Bool, true, false, some, List, [], ◌∷◌, ◌++◌,
  length, get_elem?, if◌then◌else◌, arith,
}
use crex.Assembler.{UseType, LabelUse}
use crex.Assembler.Labels.{reserved_size}
use crex.Assembler.Labels.Spans.{
  gain, shrink, total, before, Shorter, same, shortened, AllShorter, none_left, also, IsLaid,
}

pub gain-le : (t : UseType) → gain t ≤ reserved_size t
unfolding reserved_size
gain-le UseType.definition = omega arith
gain-le UseType.call = omega arith
gain-le UseType.jcc = omega arith
gain-le UseType.jmp = omega arith
gain-le UseType.lea = omega arith

pub shrink-le : (u : LabelUse) → shrink u ≤ reserved_size u.type
shrink-le u = go u.is_short
  where
    go : (b : Bool) → (if b then gain u.type else 0) ≤ reserved_size u.type
    go true = gain-le u.type
    go false = omega arith

pub Shorter-room : (u u' : LabelUse) → Shorter u u' → shrink u' ≤ reserved_size u.type
Shorter-room u _ same = shrink-le u
Shorter-room u _ (shortened g e) = gain-le u.type

-- What lies behind a position stays behind it.
pub layout_from :
    (p size k : ℕ) (us : List LabelUse) (d : LabelUse)
    → IsLaid p us size
    → get_elem? us k ≡ some d
    → p + before us k ≤ d.offset
layout_from p size k [] d h e = absurd cc
layout_from p size zero (u ∷ us) d h e =
    let same_use : u ≡ d = cc in
    subst (λ (v : LabelUse). p + 0 ≤ v.offset) same_use (omega (arith, h.0))
layout_from p size (suc k) (u ∷ us) d h e =
    omega (arith, h.0, shrink-le u, layout_from (u.offset + reserved_size u.type) size k us d h.1 e)

pub layout_end : (p size : ℕ) (us : List LabelUse) → IsLaid p us size → p ≤ size
layout_end p size [] h = h
layout_end p size (u ∷ us) h =
    omega (arith, h.0, layout_end (u.offset + reserved_size u.type) size us h.1)

pub layout_within :
    (p size k : ℕ) (us : List LabelUse) (d : LabelUse)
    → IsLaid p us size
    → get_elem? us k ≡ some d
    → d.offset ≤ size
layout_within p size k [] d h e = absurd cc
layout_within p size zero (u ∷ us) d h e =
    let same_use : u ≡ d = cc in
    subst (λ (v : LabelUse). v.offset ≤ size) same_use
      (omega (arith, layout_end (u.offset + reserved_size u.type) size us h.1))
layout_within p size (suc k) (u ∷ us) d h e =
    layout_within (u.offset + reserved_size u.type) size k us d h.1 e

pub layout_ahead :
    (p size i k : ℕ) (us : List LabelUse) (u d : LabelUse)
    → IsLaid p us size
    → get_elem? us i ≡ some u
    → get_elem? us k ≡ some d
    → i < k
    → u.offset + reserved_size u.type + before us k ≤ d.offset + before us (suc i)
layout_ahead p size i k [] u d h e l n = absurd cc
layout_ahead p size i zero (v ∷ us) u d h e l n = absurd (omega arith)
layout_ahead p size zero (suc k) (v ∷ us) u d h e l n =
    let same_use : v ≡ u = cc in
    let ahead = layout_from (v.offset + reserved_size v.type) size k us d h.1 l in
    subst
      (λ (w : LabelUse).
        w.offset + reserved_size w.type + before (v ∷ us) (suc k)
        ≤ d.offset + before (v ∷ us) (suc zero))
      same_use (omega (arith, ahead))
layout_ahead p size (suc i) (suc k) (v ∷ us) u d h e l n =
    omega
      (arith, layout_ahead (v.offset + reserved_size v.type) size i k us u d h.1 e l (omega arith))

pub before-suc :
    (us : List LabelUse) (i : ℕ) (u : LabelUse)
    → get_elem? us i ≡ some u
    → before us (suc i) ≡ before us i + shrink u
before-suc [] i u e = absurd cc
before-suc (v ∷ us) zero u e =
    let same_use : v ≡ u = cc in
    subst (λ (w : LabelUse). shrink v + 0 ≡ 0 + shrink w) same_use (omega arith)
before-suc (v ∷ us) (suc i) u e = omega (arith, before-suc us i u e)

pub before-append :
    (ps qs : List LabelUse) (k : ℕ) → k ≤ length ps → before (ps ++ qs) k ≡ before ps k
before-append ps qs zero h = refl
before-append [] qs (suc k) h = absurd (omega arith)
before-append (p ∷ ps) qs (suc k) h = ap (λ n. shrink p + n) (before-append ps qs k (omega arith))

pub before-behind : (ps qs : List LabelUse) → before (ps ++ qs) (length ps) ≡ total ps
before-behind [] qs = refl
before-behind (p ∷ ps) qs = ap (λ n. shrink p + n) (before-behind ps qs)

pub total-append : (ps qs : List LabelUse) → total (ps ++ qs) ≡ total ps + total qs
total-append [] qs = omega arith
total-append (p ∷ ps) qs = omega (arith, total-append ps qs)

pub IsLaid-AllShorter :
    (p size : ℕ) (us us' : List LabelUse) → AllShorter us us' → IsLaid p us size → IsLaid p us' size
IsLaid-AllShorter p size _ _ none_left h = h
IsLaid-AllShorter p size (u ∷ us) (_ ∷ us') (also same s) h =
    (h.0, IsLaid-AllShorter (u.offset + reserved_size u.type) size us us' s h.1)
IsLaid-AllShorter p size (u ∷ us) (_ ∷ us') (also (shortened g e) s) h =
    (h.0, IsLaid-AllShorter (u.offset + reserved_size u.type) size us us' s h.1)

-- At an index stands the definition of a label.
pub record IsDefinition (us : List LabelUse) (k label : ℕ) (d : LabelUse) : Type 0 where
  pub found : get_elem? us k ≡ some d
  pub defines : d.type ≡ UseType.definition
  pub labelled : d.label ≡ label

pub record Defined (us : List LabelUse) (k label : ℕ) : Type 0 where
  pub definition : LabelUse
  pub is_definition : IsDefinition us k label definition

-- Every label that is used is defined, once, at the index that is given for it.
pub record IsResolvable (us : List LabelUse) (n_labels : ℕ) (index : ℕ → ℕ) : Type 0 where
  pub numbered : (i : ℕ) (u : LabelUse) → get_elem? us i ≡ some u → u.label < n_labels
  pub defined :
      (i : ℕ) (u : LabelUse) → get_elem? us i ≡ some u → Defined us (index u.label) u.label
  pub once :
      (i : ℕ) (u : LabelUse)
      → get_elem? us i ≡ some u
      → u.type ≡ UseType.definition
      → index u.label ≡ i
