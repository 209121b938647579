-- ===== src/Assembler/Labels/Resolve.antt =====
-- `resolve_assembler_labels` of src/assembler.c as a whole: every jump, call and address of a label leads
-- to where the label's definition has moved.
use crex.Base.{
  ℕ, zero, ◌+◌, ◌-◌, ◌^◌, ◌≤◌, ◌<◌, ◌≡◌, refl, ap, ◌∙◌, subst, true, some, List, [], ◌∷◌, ◌++◌,
  length, get_elem?, take, drop, arith,
}
use crex.Status.{Yields, yields, Yields-bind}
use crex.Assembler.{LabelUse, Assembler}
use crex.Assembler.Labels.{next_offset, write_uses, move_code, resolve_assembler_labels}
use crex.Assembler.Labels.Spans.{total, before, AllShorter, none_left, IsLaid}
use crex.Assembler.Labels.Layout.{IsResolvable}
use crex.Assembler.Labels.Spots.{IsAhead}
use crex.Assembler.Labels.Settled.{IsSettled}
use crex.Assembler.Labels.Start.{IsLong, start_loop-IsSettled}
use crex.Assembler.Labels.Moves.{value_of, relocated, write_uses-Moved}
use crex.Assembler.Labels.Jumps.{leads_to}
use crex.Assembler.Labels.Reach.{position_of, CanEncode, code_leads}

-- The code behind the resolution: what is before the first use, and then the instructions and the code
-- between them; an instruction with a label leads to where the label's definition has moved.
pub record IsResolved (asm : Assembler) (index : ℕ → ℕ) (asm' : Assembler) : Type 0 where
  pub shorter : AllShorter asm.uses asm'.uses
  pub size : asm'.size ≡ asm.size - total asm'.uses
  pub capacity : asm'.capacity ≡ asm.capacity
  pub values : List ℕ
  pub code :
      take asm'.size asm'.code
      ≡ take (next_offset asm.size asm'.uses) asm.code
        ++ relocated asm.size asm.code values 0 asm'.uses
  pub leads :
      (i : ℕ) (u d : LabelUse)
      → get_elem? asm'.uses i ≡ some u
      → get_elem? asm'.uses (index u.label) ≡ some d
      → CanEncode u
      → leads_to
          (position_of asm'.uses i u)
          (drop (position_of asm'.uses i u) (take asm'.size asm'.code))
        ≡ some (position_of asm'.uses (index u.label) d)

valued_at :
    (index : ℕ → ℕ) (us : List LabelUse) (vs : List ℕ) (label : ℕ) (d : LabelUse)
    → IsAhead 0 us vs label (index label)
    → get_elem? us (index label) ≡ some d
    → value_of vs label ≡ position_of us (index label) d
valued_at index us vs label d h e =
    let found = h.is_definition.found in
    let same_use : h.use_ ≡ d = cc in
    rw (h.valued, value_of) (omega (arith, ap (λ (w : LabelUse). w.offset) same_use))

emptied : (us : List LabelUse) → AllShorter us [] → length us ≡ 0
emptied [] none_left = refl
emptied (u ∷ us) s = elim s [ ]

module _ {Live : ℕ → Type 0} (index : ℕ → ℕ) (asm : Assembler)
    (fits : asm.size ≤ length asm.code) where
  IsResolved-from :
      (us : List LabelUse) (vs memory : List ℕ) (size : ℕ)
      → AllShorter asm.uses us
      → IsSettled Live index asm.size us vs
      → size ≡ asm.size - (0 + total us)
      → take size memory
        ≡ take (next_offset asm.size us) asm.code ++ relocated asm.size asm.code vs 0 us
      → IsResolved asm index (record asm { uses = us; code = memory; size = size })
  IsResolved-from us vs memory size s settled e f = record {
    shorter = s;
    size = e ∙ omega arith;
    capacity = refl;
    values = vs;
    code = f;
    leads = λ i u d u_at d_at able.
        ap (λ l. leads_to (position_of us i u) (drop (position_of us i u) l)) f
        ∙ code_leads index asm.size us vs settled i (index u.label) u d u_at d_at asm.code fits refl
            (valued_at index us vs u.label d (settled.valued u.label (settled.live i u u_at)) d_at)
            able;
  }

  move_code-IsResolved :
      (us : List LabelUse) (vs : List ℕ)
      → zero < length asm.uses
      → AllShorter asm.uses us
      → IsSettled Live index asm.size us vs
      → Yields (IsResolved asm index) (move_code asm us vs)
  unfolding move_code next_offset
  move_code-IsResolved [] vs n s settled = absurd (omega (arith, emptied asm.uses s))
  move_code-IsResolved (u ∷ us) vs n s settled =
      Yields-bind
        (subst
          (λ c.
            Yields
              (λ r.
                (r.1 ≡ asm.size - (0 + total (u ∷ us)))
                × (take r.1 r.0 ≡ take c asm.code ++ relocated asm.size asm.code vs 0 (u ∷ us)))
              (write_uses asm.size vs (u ∷ us) asm.code c))
          (omega arith)
          (write_uses-Moved asm.size asm.code vs fits 0 0 (u ∷ us) asm.code settled.laid
            (omega arith)
            (λ i w e.
              let v = settled.valued w.label (settled.live i w e) in
              (v.use_.offset - (0 + before (u ∷ us) (index w.label)), v.valued))
            refl (λ m h. refl)))
        λ r h. yields (IsResolved-from (u ∷ us) vs r.0 r.1 s settled h.0 h.1)

-- Every jump, call and address of a label is resolved.
pub resolve_assembler_labels-IsResolved :
    (stale : ℕ → ℕ) (index : ℕ → ℕ) (asm : Assembler)
    → IsResolvable asm.uses asm.n_labels index
    → IsLaid 0 asm.uses asm.size
    → asm.size < 2 ^ 31
    → IsLong asm.uses
    → asm.size ≤ length asm.code
    → zero < length asm.uses
    → Yields (IsResolved asm index) (resolve_assembler_labels true stale asm)
unfolding resolve_assembler_labels
resolve_assembler_labels-IsResolved stale index asm resolvable laid small long fits n =
    Yields-bind
      (start_loop-IsSettled stale index asm.n_labels asm.size asm.uses resolvable laid small long)
      λ r h. move_code-IsResolved index asm fits r.0 r.1 n h.0 h.1
