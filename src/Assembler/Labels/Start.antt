-- ===== src/Assembler/Labels/Start.antt =====
-- The loops of `resolve_assembler_labels` in src/assembler.c from the start: the first gives each label the
-- offset of its definition, and the passes then settle.
use crex.Base.{
  ℕ, zero, suc, ◌^◌, ◌<◌, ◌≡◌, ◌≢◌, refl, sym, ap, ◌∙◌, false, some, List, [], ◌∷◌, length,
  get_elem?, set, arith,
}
use crex.Status.{Yields}
use crex.Vector.{fresh}
use crex.Assembler.{UseType, LabelUse}
use crex.Assembler.Labels.{define_values, shrink_loop}
use crex.Assembler.Labels.Spans.{shrink, before, AllShorter, IsLaid}
use crex.Assembler.Labels.Layout.{IsDefinition, Defined, IsResolvable}
use crex.Assembler.Labels.Pass.{enough_rounds}
use crex.Assembler.Labels.Advance.{get_elem?-set_self, get_elem?-set_ne}
use crex.Assembler.Labels.Settled.{IsSettled, shrink_loop-IsSettled}

abbrev first_value : UseType → List ℕ → LabelUse → List ℕ
first_value UseType.definition vs u = set vs u.label u.offset
first_value _ vs u = vs

define_first :
    (vs : List ℕ) (u : LabelUse) (us : List LabelUse)
    → define_values vs (u ∷ us) ≡ define_values (first_value u.type vs u) us
unfolding define_values
define_first vs u us = go u.type refl
  where
    go :
        (t : UseType)
        → u.type ≡ t
        → define_values vs (u ∷ us) ≡ define_values (first_value u.type vs u) us
    go UseType.definition e = simp e refl
    go UseType.call e = simp e refl
    go UseType.jcc e = simp e refl
    go UseType.jmp e = simp e refl
    go UseType.lea e = simp e refl

first_elsewhere :
    (t : UseType) (vs : List ℕ) (u : LabelUse) (label : ℕ)
    → (t ≡ UseType.definition → u.label ≢ label)
    → get_elem? (first_value t vs u) label ≡ get_elem? vs label
first_elsewhere UseType.definition vs u label h =
    get_elem?-set_ne vs u.label label u.offset (h refl)
first_elsewhere UseType.call vs u label h = refl
first_elsewhere UseType.jcc vs u label h = refl
first_elsewhere UseType.jmp vs u label h = refl
first_elsewhere UseType.lea vs u label h = refl

values_stay :
    (vs : List ℕ) (us : List LabelUse) (label : ℕ)
    → ((i : ℕ) (u : LabelUse)
        → get_elem? us i ≡ some u
        → u.type ≡ UseType.definition
        → u.label ≢ label)
    → get_elem? (define_values vs us) label ≡ get_elem? vs label
unfolding define_values
values_stay vs [] label h = refl
values_stay vs (u ∷ us) label h =
    ap (λ w. get_elem? w label) (define_first vs u us)
    ∙ values_stay (first_value u.type vs u) us label (λ i v e. h (suc i) v e)
    ∙ first_elsewhere u.type vs u label (h zero u refl)

-- A label that is defined once has the offset of its definition.
values_defined :
    (vs : List ℕ) (us : List LabelUse) (label k x : ℕ) (d : LabelUse)
    → get_elem? vs label ≡ some x
    → IsDefinition us k label d
    → ((i : ℕ) (u : LabelUse)
        → get_elem? us i ≡ some u
        → u.type ≡ UseType.definition
        → u.label ≡ label
        → i ≡ k)
    → get_elem? (define_values vs us) label ≡ some d.offset
values_defined vs [] label k x d e f h = absurd cc
values_defined vs (u ∷ us) label zero x d e f h =
    let same_use : u ≡ d = cc (f.found) in
    let type' : u.type ≡ UseType.definition = ap (λ (w : LabelUse). w.type) same_use ∙ f.defines in
    let label' : u.label ≡ label = ap (λ (w : LabelUse). w.label) same_use ∙ f.labelled in
    ap (λ w. get_elem? w label) (define_first vs u us)
    ∙ values_stay (first_value u.type vs u) us label
        (λ i v g t l. absurd (omega (arith, h (suc i) v g t l)))
    ∙ ap (λ t. get_elem? (first_value t vs u) label) type'
    ∙ ap (λ l. get_elem? (set vs l u.offset) label) label'
    ∙ get_elem?-set_self vs label u.offset x e
    ∙ ap (λ (w : LabelUse). some w.offset) same_use
values_defined vs (u ∷ us) label (suc k) x d e f h =
    ap (λ w. get_elem? w label) (define_first vs u us)
    ∙ values_defined (first_value u.type vs u) us label k x d
        (first_elsewhere u.type vs u label (λ t l. absurd (omega (arith, h zero u refl t l))) ∙ e)
        (record { found = f.found; defines = f.defines; labelled = f.labelled })
        (λ i v g t l. omega (arith, h (suc i) v g t l))

fresh_at : (stale : ℕ → ℕ) (n i : ℕ) → i < n → (x : ℕ) × (get_elem? (fresh stale n) i ≡ some x)
unfolding fresh
fresh_at stale zero i h = absurd (omega arith)
fresh_at stale (suc n) zero h = (stale n, refl)
fresh_at stale (suc n) (suc i) h = fresh_at stale n i (omega arith)

-- No branch is short yet.
abbrev pub IsLong : List LabelUse → Type 0
IsLong us = (i : ℕ) (u : LabelUse) → get_elem? us i ≡ some u → u.is_short ≡ false

long-before : (us : List LabelUse) (k : ℕ) → IsLong us → before us k ≡ 0
long-before us zero h = refl
long-before [] (suc k) h = refl
long-before (u ∷ us) (suc k) h =
    let none_yet : shrink u ≡ 0 = rw (h zero u refl) refl in
    omega (arith, none_yet, long-before us k (λ i v e. h (suc i) v e))

module _ (stale : ℕ → ℕ) (index : ℕ → ℕ) (n size : ℕ) (us : List LabelUse)
    (resolvable : IsResolvable us n index) (laid : IsLaid 0 us size) (small : size < 2 ^ 31)
    (long : IsLong us) where
  -- A label that is defined.
  abbrev pub IsLive : ℕ → Type 0
  IsLive label = (label < n) × Defined us (index label) label

  start-IsSettled : IsSettled IsLive index size us (define_values (fresh stale n) us)
  start-IsSettled = record {
    laid = laid;
    small = small;
    live = λ i u e. (resolvable.numbered i u e, resolvable.defined i u e);
    once = resolvable.once;
    valued = λ label l.
        let d = l.1 in
        let given = fresh_at stale n label l.0 in
        record {
          use_ = d.definition;
          is_definition = d.is_definition;
          valued =
              values_defined (fresh stale n) us label (index label) given.0 d.definition given.1
                d.is_definition (λ i u e t m. sym (resolvable.once i u e t) ∙ ap index m)
              ∙ ap some (omega (arith, long-before us (index label) long));
        };
    reached = λ i u e f. let not_short = long i u e in absurd cc;
  }

  pub start_loop-IsSettled :
      Yields
        (λ r. AllShorter us r.0 × IsSettled IsLive index size r.0 r.1)
        (shrink_loop (suc (length us)) 0 (define_values (fresh stale n) us) us)
  start_loop-IsSettled =
      shrink_loop-IsSettled IsLive index size (suc (length us)) 0 us
        (define_values (fresh stale n) us) start-IsSettled (enough_rounds us)
