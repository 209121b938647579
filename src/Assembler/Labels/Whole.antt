-- ===== src/Assembler/Labels/Whole.antt =====
-- A pass of `resolve_assembler_labels` in src/assembler.c as a whole: the values of the labels are then exact for the uses
-- that it leaves, and what it made short reaches its label.
use crex.Base.{
  ℕ, zero, suc, ◌+◌, ◌-◌, ◌≤◌, ◌<◌, ◌≡◌, refl, ap, ◌∙◌, subst, true, false, some, List, [], ◌∷◌,
  get_elem?, arith,
}
use crex.Status.{Yields, yields, Yields-bind}
use crex.Assembler.{LabelUse}
use crex.Assembler.Labels.{reserved_size}
use crex.Assembler.Labels.Spans.{shrink, before}
use crex.Assembler.Labels.Spots.{Spot, behind, ahead, next_spot, IsSpotted, IsReady, IsNear, IsStep}
use crex.Assembler.Labels.Visit.{shrink_use-IsStep}
use crex.Assembler.Labels.Spans.{total, AllShorter, none_left, also, before_gap, Shorter-gain}
use crex.Assembler.Labels.Advance.{next-IsReady}
use crex.Assembler.Labels.{shrink_pass}

-- The value of a label behind the pass.
abbrev pub IsLanded : ℕ → List LabelUse → List LabelUse → List ℕ → ℕ → Spot → Type 0
IsLanded s us us' vs label (behind o b) = get_elem? vs label ≡ some (o - b)
IsLanded s us us' vs label (ahead k) =
    (d : LabelUse)
    → get_elem? us k ≡ some d
    → get_elem? vs label ≡ some (d.offset - (s + before us' k))

-- A short branch reaches, by where it and its label lie behind the pass.
abbrev pub Reaches : ℕ → List LabelUse → List LabelUse → ℕ → LabelUse → Spot → Type 0
Reaches s us us' i u (behind o b) = u.offset + 2 + b ≤ o + 128 + (s + before us' i)
Reaches s us us' i u (ahead k) =
    (d : LabelUse)
    → get_elem? us k ≡ some d
    → ((k ≤ i → u.offset + 2 + before us' k ≤ d.offset + 128 + before us' i)
        × (i < k → d.offset + before us' i ≤ u.offset + 129 + before us' k))

pub record IsPassed (Live : ℕ → Type 0) (s : ℕ) (us : List LabelUse) (spot : ℕ → Spot)
    (r : List LabelUse × (ℕ × List ℕ)) : Type 0 where
  pub shorter : AllShorter us r.0
  pub shrinkage : r.1.0 ≡ s + total r.0
  pub valued : (label : ℕ) → Live label → IsLanded s us r.0 r.1.1 label (spot label)
  pub judged :
      (i : ℕ) (u u' : LabelUse)
      → get_elem? us i ≡ some u
      → get_elem? r.0 i ≡ some u'
      → u.is_short ≡ false
      → u'.is_short ≡ true
      → Reaches s us r.0 i u (spot u.label)

IsLanded-end :
    (was s p : ℕ) (vs : List ℕ) (label : ℕ) (x : Spot)
    → IsSpotted was s p [] vs label x
    → IsLanded s [] [] vs label x
IsLanded-end was s p vs label (behind o b) h = h.valued
IsLanded-end was s p vs label (ahead k) h = λ d e. cc

module _ (was s : ℕ) (us : List LabelUse) (vs : List ℕ) (u : LabelUse) (spot : ℕ → Spot)
    (r : LabelUse × (ℕ × List ℕ)) (step : IsStep was s us vs u spot r) (was_le : was ≤ s)
    (us' : List LabelUse) (ss : AllShorter us us') where
  IsLanded-before :
      (vs' : List ℕ) (label : ℕ) (x : Spot)
      → IsLanded r.1.0 us us' vs' label (next_spot u.offset s x)
      → IsLanded s (u ∷ us) (r.0 ∷ us') vs' label x
  IsLanded-before vs' label (behind o b) h = h
  IsLanded-before vs' label (ahead zero) h = λ d e.
      let same_use : u ≡ d = cc in
      h ∙ ap some (omega (arith, ap (λ (w : LabelUse). w.offset) same_use))
  IsLanded-before vs' label (ahead (suc k)) h =
      λ d e. h d e ∙ ap some (omega (arith, step.shrinkage))

  Reaches-first :
      (x : Spot)
      → u.is_short ≡ false
      → r.0.is_short ≡ true
      → IsNear was s us u x
      → Reaches s (u ∷ us) (r.0 ∷ us') zero u x
  Reaches-first (behind o b) e f h = omega (arith, h)
  Reaches-first (ahead zero) e f h = λ d l.
      let same_use : u ≡ d = cc in
      (λ n. omega (arith, ap (λ (w : LabelUse). w.offset) same_use), λ n. absurd (omega arith))
  Reaches-first (ahead (suc k)) e f h = λ d l. (
    λ n. absurd (omega arith),
    λ n. omega (
      arith,
      h d l,
      was_le,
      Shorter-gain u r.0 step.shorter e f,
      before_gap us us' 0 k ss (omega arith),
    ),
  )

  Reaches-later :
      (i : ℕ) (v : LabelUse) (x : Spot)
      → Reaches r.1.0 us us' i v (next_spot u.offset s x)
      → Reaches s (u ∷ us) (r.0 ∷ us') (suc i) v x
  Reaches-later i v (behind o b) h = omega (arith, h, step.shrinkage)
  Reaches-later i v (ahead zero) h = λ d l.
      let same_use : u ≡ d = cc in
      (
        λ n. omega (arith, h, step.shrinkage, ap (λ (w : LabelUse). w.offset) same_use),
        λ n. absurd (omega arith),
      )
  Reaches-later i v (ahead (suc k)) h = λ d l.
      (λ n. omega (arith, (h d l).0 (omega arith)), λ n. omega (arith, (h d l).1 (omega arith)))

  IsPassed-before :
      {Live : ℕ → Type 0} (rest : ℕ × List ℕ)
      → Live u.label
      → IsPassed Live r.1.0 us (λ label. next_spot u.offset s (spot label)) (us', rest)
      → IsPassed Live s (u ∷ us) spot (r.0 ∷ us', rest)
  IsPassed-before rest l h = record {
    shorter = also step.shorter h.shorter;
    shrinkage = omega (arith, h.shrinkage, step.shrinkage);
    valued = λ label n. IsLanded-before rest.1 label (spot label) (h.valued label n);
    judged = λ i v v' e e' f f'. judged_before i v v' e e' f f' h.judged;
  }
    where
      judged_before :
          (i : ℕ) (v v' : LabelUse)
          → get_elem? (u ∷ us) i ≡ some v
          → get_elem? (r.0 ∷ us') i ≡ some v'
          → v.is_short ≡ false
          → v'.is_short ≡ true
          → ((i : ℕ) (w w' : LabelUse)
              → get_elem? us i ≡ some w
              → get_elem? us' i ≡ some w'
              → w.is_short ≡ false
              → w'.is_short ≡ true
              → Reaches r.1.0 us us' i w (next_spot u.offset s (spot w.label)))
          → Reaches s (u ∷ us) (r.0 ∷ us') i v (spot v.label)
      judged_before zero v v' e e' f f' h =
          let same_use : u ≡ v = cc in
          let same_use' : r.0 ≡ v' = cc in
          let long : u.is_short ≡ false = ap (λ (w : LabelUse). w.is_short) same_use ∙ f in
          let short : r.0.is_short ≡ true = ap (λ (w : LabelUse). w.is_short) same_use' ∙ f' in
          subst (λ (w : LabelUse). Reaches s (u ∷ us) (r.0 ∷ us') zero w (spot w.label)) same_use
            (Reaches-first (spot u.label) long short (step.judged long short))
      judged_before (suc i) v v' e e' f f' h = Reaches-later i v (spot v.label) (h i v v' e e' f f')

pub shrink_pass-IsPassed :
    (Live : ℕ → Type 0) (was s p size : ℕ) (us : List LabelUse) (vs : List ℕ) (spot : ℕ → Spot)
    → IsReady Live was s p size us vs spot
    → Yields (IsPassed Live s us spot) (shrink_pass s vs us)
unfolding shrink_pass
shrink_pass-IsPassed Live was s p size [] vs spot ready = yields (record {
  shorter = none_left;
  shrinkage = omega arith;
  valued = λ label l. IsLanded-end was s p vs label (spot label) (ready.spotted label l);
  judged = λ i u u' e. absurd cc;
})
shrink_pass-IsPassed Live was s p size (u ∷ us) vs spot ready =
    Yields-bind (shrink_use-IsStep was s p size us vs u spot ready u.type refl) λ r step.
      Yields-bind
        (shrink_pass-IsPassed Live (was + shrink u) r.1.0 (u.offset + reserved_size u.type) size us
          r.1.1 (λ label. next_spot u.offset s (spot label))
          (next-IsReady was s p size us vs u spot ready r step))
        λ q h. yields (
          IsPassed-before was s us vs u spot r step ready.was_le q.0 h.shorter q.1
            (ready.live zero u refl) h)
