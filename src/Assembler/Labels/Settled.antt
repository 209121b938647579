-- ===== src/Assembler/Labels/Settled.antt =====
-- The passes of `resolve_assembler_labels` in src/assembler.c together: between two of them the value of each label
-- is exact for the branches that are short, and these reach their labels.
use crex.Base.{
  ℕ, zero, suc, ◌+◌, ◌^◌, ◌<◌, ◌≡◌, sym, ap, ◌∙◌, subst, inl, inr, Bool-cases, true, false, some,
  List, get_elem?, ◌==◌, arith,
}
use crex.Status.{Yields, yields, Yields-bind, Yields-weaken}
use crex.Assembler.{UseType, LabelUse}
use crex.Assembler.Labels.{shrink_loop}
use crex.Assembler.Labels.Spans.{
  total, long_ones, AllShorter, IsLaid, before_gap, IsWas-at, IsNow-at, IsKept, AllShorter-trans,
}
use crex.Assembler.Labels.Layout.{IsLaid-AllShorter}
use crex.Assembler.Labels.Pass.{unchecked, fuel_left}
use crex.Assembler.Labels.Spots.{ahead, IsAhead, IsReady}
use crex.Assembler.Labels.Whole.{Reaches, IsPassed, shrink_pass-IsPassed}

-- Each live label has the value of its position for these uses, and every short branch reaches.
pub record IsSettled (Live : ℕ → Type 0) (index : ℕ → ℕ) (size : ℕ) (us : List LabelUse)
    (vs : List ℕ) : Type 0 where
  pub laid : IsLaid 0 us size
  pub small : size < 2 ^ 31
  pub live : (i : ℕ) (u : LabelUse) → get_elem? us i ≡ some u → Live u.label
  pub once :
      (i : ℕ) (u : LabelUse)
      → get_elem? us i ≡ some u
      → u.type ≡ UseType.definition
      → index u.label ≡ i
  pub valued : (label : ℕ) → Live label → IsAhead 0 us vs label (index label)
  pub reached :
      (i : ℕ) (u : LabelUse)
      → get_elem? us i ≡ some u
      → u.is_short ≡ true
      → Reaches 0 us us i u (ahead (index u.label))

module _ (Live : ℕ → Type 0) (index : ℕ → ℕ) (size : ℕ) (us : List LabelUse) (vs : List ℕ)
    (settled : IsSettled Live index size us vs) where
  settled-IsReady : IsReady Live 0 0 0 size us vs (λ label. ahead (index label))
  settled-IsReady = record {
    laid = settled.laid;
    small = settled.small;
    was_le = omega arith;
    saved_le = omega arith;
    live = settled.live;
    spotted = λ label l. settled.valued label l;
    once = λ i u e t. ap ahead (settled.once i u e t);
  }

  module _ (us' : List LabelUse) (rest : ℕ × List ℕ)
      (passed : IsPassed Live 0 us (λ label. ahead (index label)) (us', rest)) where
    live_now : (i : ℕ) (u' : LabelUse) → get_elem? us' i ≡ some u' → Live u'.label
    live_now i u' e =
        let w = IsWas-at us us' i u' passed.shorter e in
        subst Live (sym w.kept.label) (settled.live i w.use_ w.found)

    once_now :
        (i : ℕ) (u' : LabelUse)
        → get_elem? us' i ≡ some u'
        → u'.type ≡ UseType.definition
        → index u'.label ≡ i
    once_now i u' e t =
        let w = IsWas-at us us' i u' passed.shorter e in
        ap index w.kept.label ∙ settled.once i w.use_ w.found (sym w.kept.type ∙ t)

    valued_now : (label : ℕ) → Live label → IsAhead 0 us' rest.1 label (index label)
    valued_now label l =
        let was = settled.valued label l in
        let now = IsNow-at us us' (index label) was.use_ passed.shorter was.is_definition.found in
        record {
          use_ = now.use_;
          is_definition = record {
            found = now.found;
            defines = now.kept.type ∙ was.is_definition.defines;
            labelled = now.kept.label ∙ was.is_definition.labelled;
          };
          valued =
              passed.valued label l was.use_ was.is_definition.found
              ∙ ap some (omega (arith, now.kept.offset));
        }

    reached_still :
        (i k : ℕ) (u u' : LabelUse)
        → IsKept u u'
        → Reaches 0 us us i u (ahead k)
        → Reaches 0 us' us' i u' (ahead k)
    reached_still i k u u' kept h d' e =
        let w = IsWas-at us us' k d' passed.shorter e in
        (
          λ n. omega (
            arith,
            (h w.use_ w.found).0 n,
            before_gap us us' k i passed.shorter n,
            w.kept.offset,
            kept.offset,
          ),
          λ n. omega (
            arith,
            (h w.use_ w.found).1 n,
            before_gap us us' i k passed.shorter (omega arith),
            w.kept.offset,
            kept.offset,
          ),
        )

    reached_first :
        (i k : ℕ) (u u' : LabelUse)
        → IsKept u u'
        → Reaches 0 us us' i u (ahead k)
        → Reaches 0 us' us' i u' (ahead k)
    reached_first i k u u' kept h d' e =
        let w = IsWas-at us us' k d' passed.shorter e in
        (
          λ n. omega (arith, (h w.use_ w.found).0 n, w.kept.offset, kept.offset),
          λ n. omega (arith, (h w.use_ w.found).1 n, w.kept.offset, kept.offset),
        )

    reached_now :
        (i : ℕ) (u' : LabelUse)
        → get_elem? us' i ≡ some u'
        → u'.is_short ≡ true
        → Reaches 0 us' us' i u' (ahead (index u'.label))
    reached_now i u' e f =
        let w = IsWas-at us us' i u' passed.shorter e in
        subst (λ l. Reaches 0 us' us' i u' (ahead (index l))) (sym w.kept.label)
          (elim (Bool-cases w.use_.is_short) [
            | inl t ↦
                reached_still i (index w.use_.label) w.use_ u' w.kept
                  (settled.reached i w.use_ w.found t)
            | inr t ↦
                reached_first i (index w.use_.label) w.use_ u' w.kept
                  (passed.judged i w.use_ u' w.found e t f)
          ])

    passed-IsSettled : IsSettled Live index size us' rest.1
    passed-IsSettled = record {
      laid = IsLaid-AllShorter 0 size us us' passed.shorter settled.laid;
      small = settled.small;
      live = live_now;
      once = once_now;
      valued = valued_now;
      reached = reached_now;
    }

pub shrink_loop-IsSettled :
    (Live : ℕ → Type 0) (index : ℕ → ℕ) (size fuel prev : ℕ) (us : List LabelUse) (vs : List ℕ)
    → IsSettled Live index size us vs
    → long_ones us + unchecked (total us) prev < fuel
    → Yields
        (λ r. AllShorter us r.0 × IsSettled Live index size r.0 r.1)
        (shrink_loop fuel prev vs us)
unfolding shrink_loop
shrink_loop-IsSettled Live index size zero prev us vs settled h = absurd (omega arith)
shrink_loop-IsSettled Live index size (suc fuel) prev us vs settled h =
    Yields-bind
      (shrink_pass-IsPassed Live 0 0 0 size us vs (λ label. ahead (index label))
        (settled-IsReady Live index size us vs settled))
      λ r k.
        let next = passed-IsSettled Live index size us vs settled r.0 r.1 k in
        elim (Bool-cases (r.1.0 == prev)) [
          | inl e ↦ rw e (yields (k.shorter, next))
          | inr e ↦
              let now : r.1.0 ≡ total r.0 = k.shrinkage ∙ omega arith in
              rw e (
                Yields-weaken (λ q m. (AllShorter-trans us r.0 q.0 k.shorter m.0, m.1))
                  (shrink_loop-IsSettled Live index size fuel r.1.0 r.0 r.1.1 next (
                    subst (λ n. long_ones r.0 + unchecked (total r.0) n < fuel) (sym now)
                      (fuel_left us r.0 prev fuel k.shorter (subst (λ n. (n == prev) ≡ false) now e)
                        h))))
        ]
