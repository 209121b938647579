-- ===== src/Assembler/Labels/Visit.antt =====
-- One round of a pass of `resolve_assembler_labels` in src/assembler.c: what it does to the use that it
-- visits.
use crex.Base.{
  ℕ, zero, suc, ◌+◌, ◌-◌, ◌^◌, ◌≤◌, ◌<◌, ◌≡◌, inl, inr, refl, sym, ap, ◌∙◌, subst, Bool-cases, true,
  false, none, some, List, ◌∷◌, get_elem?, ltb, if◌then◌else◌, arith,
}
use crex.Status.{undefined, Yields, yields, Yields-weaken}
use crex.Vm.{sub_size}
use crex.X64.{is_byte}
use crex.Assembler.{UseType, LabelUse}
use crex.Assembler.Labels.{
  Visited, reserved_size, is_representable, long_leb, shorten, shrink_branch, shrink_use,
}
use crex.Assembler.Labels.Spans.{gain, shrink, before, same, shortened, IsLaid}
use crex.Assembler.Labels.Layout.{layout_from, layout_end, layout_within}
use crex.Assembler.Labels.Pass.{shrink_of_none}
use crex.Assembler.Labels.Spots.{
  Spot, behind, ahead, IsBehind, IsAhead, IsSpotted, IsReady, values_after, IsNear, IsStep,
}

-- A branch that `shorten` leaves as it is, or makes short where it reaches.
pub data Verdict (g s : ℕ) (vs : List ℕ) (u : LabelUse) (Near : Type 0)
    : LabelUse × (ℕ × List ℕ) → Type 0 where
  kept : Verdict g s vs u Near (u, (s, vs))
  made_short : Near → Verdict g s vs u Near (record u { is_short = true }, (s + g, vs))

shorten_lem :
    (g s : ℕ) (vs : List ℕ) (u : LabelUse) (o t t' : ℕ) {Near : Type 0}
    → (if ltb o t then t - g else t) ≡ t'
    → is_representable o t' ≡ true
    → (is_byte (sub_size t' o) ≡ true → Near)
    → Yields (Verdict g s vs u Near) (shorten g s vs u o t)
unfolding shorten
shorten_lem g s vs u o t t' e f h = elim (Bool-cases (is_byte (sub_size t' o))) [
  | inl b ↦ rw (e, f, b) (yields (made_short (h b)))
  | inr b ↦ rw (e, f, b) (yields kept)
]

back_is_representable : (o t : ℕ) → t ≤ o → o < 2 ^ 31 → is_representable o t ≡ true
unfolding is_representable long_leb
back_is_representable o t h m = ground arith

on_is_representable : (o t : ℕ) → o ≤ t → t < 2 ^ 31 → is_representable o t ≡ true
unfolding is_representable long_leb
on_is_representable o t h m = ground arith

back_is_byte : (o t : ℕ) → t ≤ o → o < 2 ^ 31 → is_byte (sub_size t o) ≡ true → o ≤ t + 128
unfolding is_byte
back_is_byte o t h m e = ground arith

on_is_byte : (o t : ℕ) → o ≤ t → t < 2 ^ 31 → is_byte (sub_size t o) ≡ true → t ≤ o + 127
unfolding is_byte
on_is_byte o t h m e = ground arith

shorten_back :
    (g s : ℕ) (vs : List ℕ) (u : LabelUse) (o t : ℕ)
    → t ≤ o
    → o < 2 ^ 31
    → Yields (Verdict g s vs u (o ≤ t + 128)) (shorten g s vs u o t)
shorten_back g s vs u o t h m =
    shorten_lem g s vs u o t t (ground arith) (back_is_representable o t h m) (back_is_byte o t h m)

shorten_on :
    (g s : ℕ) (vs : List ℕ) (u : LabelUse) (o t : ℕ)
    → o + g ≤ t
    → o < t
    → t < 2 ^ 31
    → Yields (Verdict g s vs u (t - g ≤ o + 127)) (shorten g s vs u o t)
shorten_on g s vs u o t h l m =
    shorten_lem g s vs u o t (t - g) (ground arith)
      (on_is_representable o (t - g) (omega arith) (omega arith))
      (on_is_byte o (t - g) (omega arith) (omega arith))

Verdict-weaken :
    {g s : ℕ} {vs : List ℕ} {u : LabelUse} {Near Near' : Type 0} {r : LabelUse × (ℕ × List ℕ)}
    → (Near → Near')
    → Verdict g s vs u Near r
    → Verdict g s vs u Near' r
Verdict-weaken k kept = kept
Verdict-weaken k (made_short n) = made_short (k n)

pub reserved_of_branch : (t : UseType) → zero < gain t → reserved_size t ≡ gain t + 2
unfolding reserved_size
reserved_of_branch UseType.jcc h = refl
reserved_of_branch UseType.jmp h = refl
reserved_of_branch UseType.definition h = absurd (omega arith)
reserved_of_branch UseType.call h = absurd (omega arith)
reserved_of_branch UseType.lea h = absurd (omega arith)

abbrev visit_value : ℕ → List ℕ → LabelUse → Visited
visit_value s vs u = elim (get_elem? vs u.label) [
  | none ↦ undefined
  | some target ↦ shorten (gain u.type) s vs u (sub_size u.offset s + 2) target
]

module _ (was s p size : ℕ) (us : List LabelUse) (vs : List ℕ) (u : LabelUse)
    (laid : IsLaid p (u ∷ us) size) (small : size < 2 ^ 31) (was_le : was ≤ s) (saved_le : s ≤ p)
    (g : zero < gain u.type) (long : u.is_short ≡ false) where
  origin_at : sub_size u.offset s + 2 ≡ u.offset - s + 2
  origin_at =
      omega (
        arith,
        laid.0,
        saved_le,
        small,
        layout_end (u.offset + reserved_size u.type) size us laid.1,
      )

  visit_behind :
      (o b : ℕ)
      → IsBehind s p vs u.label o b
      → Yields (Verdict (gain u.type) s vs u (IsNear was s us u (behind o b))) (visit_value s vs u)
  visit_behind o b h =
      rw (h.valued, origin_at, visit_value)
        (Yields-weaken
          (λ r v. Verdict-weaken (λ n. omega (arith, n, h.saved, h.past, laid.0, saved_le)) v)
          (shorten_back (gain u.type) s vs u (u.offset - s + 2) (o - b)
            (omega (arith, h.saved, h.past, laid.0, saved_le))
            (omega (
              arith,
              small,
              reserved_of_branch u.type g,
              layout_end (u.offset + reserved_size u.type) size us laid.1,
            ))))

  visit_ahead :
      (k : ℕ)
      → IsAhead was (u ∷ us) vs u.label (suc k)
      → Yields
          (Verdict (gain u.type) s vs u (IsNear was s us u (ahead (suc k))))
          (visit_value s vs u)
  visit_ahead k h =
      let d = h.use_ in
      let found = h.is_definition.found in
      let none_yet : shrink u ≡ 0 = rw long refl in
      let far = layout_from (u.offset + reserved_size u.type) size k us d laid.1 found in
      let near_end = layout_within (u.offset + reserved_size u.type) size k us d laid.1 found in
      let room = reserved_of_branch u.type g in
      rw (h.valued, origin_at, visit_value)
        (Yields-weaken
          (λ r v.
            Verdict-weaken
              (λ n e f.
                let same_use : d ≡ e = cc in
                subst
                  (λ (w : LabelUse).
                    w.offset + s ≤ u.offset + 129 + gain u.type + was + before us k)
                  same_use (omega (arith, n, none_yet, far, room, laid.0, saved_le, was_le)))
              v)
          (shorten_on (gain u.type) s vs u (u.offset - s + 2)
            (d.offset - (was + before (u ∷ us) (suc k)))
            (omega (arith, none_yet, far, room, laid.0, saved_le, was_le))
            (omega (arith, none_yet, far, room, laid.0, saved_le, was_le))
            (omega (arith, near_end, small))))

values_kept :
    (t : UseType) (s : ℕ) (vs : List ℕ) (u : LabelUse) → zero < gain t → values_after t s vs u ≡ vs
values_kept UseType.jcc s vs u h = refl
values_kept UseType.jmp s vs u h = refl
values_kept UseType.definition s vs u h = absurd (omega arith)
values_kept UseType.call s vs u h = refl
values_kept UseType.lea s vs u h = refl

Verdict-IsStep :
    (was s : ℕ) (us : List LabelUse) (vs : List ℕ) (u : LabelUse) (spot : ℕ → Spot)
    (r : LabelUse × (ℕ × List ℕ))
    → zero < gain u.type
    → u.is_short ≡ false
    → Verdict (gain u.type) s vs u (IsNear was s us u (spot u.label)) r
    → IsStep was s us vs u spot r
Verdict-IsStep was s us vs u spot _ g e kept = record {
  shorter = same;
  shrinkage = (let none_yet : shrink u ≡ 0 = rw e refl in omega (arith, none_yet));
  values = sym (values_kept u.type s vs u g);
  judged = λ f f'. absurd cc;
}
Verdict-IsStep was s us vs u spot _ g e (made_short n) = record {
  shorter = shortened g e;
  shrinkage = refl;
  values = sym (values_kept u.type s vs u g);
  judged = λ f f'. n;
}

definition_no_gain : (t : UseType) → t ≡ UseType.definition → ¬ (zero < gain t)
definition_no_gain t e h = absurd (omega (arith, subst (λ (x : UseType). zero < gain x) e h))

module _ {Live : ℕ → Type 0} (was s p size : ℕ) (us : List LabelUse) (vs : List ℕ) (u : LabelUse)
    (spot : ℕ → Spot) (ready : IsReady Live was s p size (u ∷ us) vs spot) where
  visit_long :
      (x : Spot)
      → IsSpotted was s p (u ∷ us) vs u.label x
      → zero < gain u.type
      → u.is_short ≡ false
      → Yields (Verdict (gain u.type) s vs u (IsNear was s us u x)) (visit_value s vs u)
  visit_long (behind o b) h g e =
      visit_behind was s p size us vs u ready.laid ready.small ready.was_le ready.saved_le g e o b h
  visit_long (ahead (suc k)) h g e =
      visit_ahead was s p size us vs u ready.laid ready.small ready.was_le ready.saved_le g e k h
  visit_long (ahead zero) h g e =
      let same_use : u ≡ h.use_ = cc (h.is_definition.found) in
      absurd (
        definition_no_gain u.type (ap (λ (w : LabelUse). w.type) same_use ∙ h.is_definition.defines)
          g)

  visit_branch :
      zero < gain u.type → Yields (IsStep was s us vs u spot) (shrink_branch (gain u.type) s vs u)
  unfolding shrink_branch
  visit_branch g = elim (Bool-cases u.is_short) [
    | inl e ↦
        let gained : shrink u ≡ gain u.type = rw e refl in
        simp e (
          yields (record {
            shorter = same;
            shrinkage = ap (λ n. s + n) (sym gained);
            values = sym (values_kept u.type s vs u g);
            judged = λ f f'. absurd cc;
          }))
    | inr e ↦ simp e (
        Yields-weaken (λ r v. Verdict-IsStep was s us vs u spot r g e v)
          (visit_long (spot u.label) (ready.spotted u.label (ready.live zero u refl)) g e))
  ]

  visit_other :
      (r : LabelUse × (ℕ × List ℕ))
      → gain u.type ≡ 0
      → r ≡ (u, (s, values_after u.type s vs u))
      → IsStep was s us vs u spot r
  visit_other r g e = subst (IsStep was s us vs u spot) (sym e) (record {
    shorter = same;
    shrinkage = omega (arith, shrink_of_none u g);
    values = refl;
    judged = λ f f'. absurd cc;
  })

  pub shrink_use-IsStep :
      (t : UseType) → u.type ≡ t → Yields (IsStep was s us vs u spot) (shrink_use t s vs u)
  unfolding shrink_use
  shrink_use-IsStep UseType.jcc e =
      let g : gain u.type ≡ 4 = rw e refl in
      subst (λ n. Yields (IsStep was s us vs u spot) (shrink_branch n s vs u)) g
        (visit_branch (omega (arith, g)))
  shrink_use-IsStep UseType.jmp e =
      let g : gain u.type ≡ 3 = rw e refl in
      subst (λ n. Yields (IsStep was s us vs u spot) (shrink_branch n s vs u)) g
        (visit_branch (omega (arith, g)))
  shrink_use-IsStep UseType.definition e =
      yields (visit_other _ (rw e refl) (ap (λ t. (u, (s, values_after t s vs u))) (sym e)))
  shrink_use-IsStep UseType.lea e =
      yields (visit_other _ (rw e refl) (ap (λ t. (u, (s, values_after t s vs u))) (sym e)))
  shrink_use-IsStep UseType.call e =
      yields (visit_other _ (rw e refl) (ap (λ t. (u, (s, values_after t s vs u))) (sym e)))
