-- ===== src/Assembler/Labels/Advance.antt =====
-- A pass of `resolve_assembler_labels` in src/assembler.c: which branches it makes short, and what values
-- it gives to the labels.
use crex.Base.{
  ℕ, zero, suc, ◌+◌, ◌-◌, ◌^◌, ◌≤◌, ◌<◌, ◌≡◌, ◌≢◌, inl, inr, refl, sym, ap, ◌∙◌, subst, Bool-cases,
  some, List, [], ◌∷◌, get_elem?, set, ◌==◌, arith,
}
use crex.Vm.{sub_size}
use crex.Assembler.{UseType, LabelUse}
use crex.Assembler.Labels.{reserved_size}
use crex.Assembler.Labels.Spans.{shrink, Shorter-le}
use crex.Assembler.Labels.Layout.{Shorter-room, layout_end}
use crex.Assembler.Labels.Spots.{
  Spot, behind, ahead, next_spot, IsSpotted, IsReady, values_after, IsStep,
}

pub get_elem?-set_self :
    (vs : List ℕ) (i v x : ℕ) → get_elem? vs i ≡ some x → get_elem? (set vs i v) i ≡ some v
get_elem?-set_self [] i v x e = absurd cc
get_elem?-set_self (y ∷ vs) zero v x e = refl
get_elem?-set_self (y ∷ vs) (suc i) v x e = get_elem?-set_self vs i v x e

pub get_elem?-set_ne : (vs : List ℕ) (i j v : ℕ) → i ≢ j → get_elem? (set vs i v) j ≡ get_elem? vs j
get_elem?-set_ne [] i j v h = refl
get_elem?-set_ne (y ∷ vs) zero zero v h = absurd (h refl)
get_elem?-set_ne (y ∷ vs) zero (suc j) v h = refl
get_elem?-set_ne (y ∷ vs) (suc i) zero v h = refl
get_elem?-set_ne (y ∷ vs) (suc i) (suc j) v h = get_elem?-set_ne vs i j v (λ e. h (ap suc e))

-- A use writes the value of no label that it does not define.
values_elsewhere :
    (t : UseType) (s : ℕ) (vs : List ℕ) (u : LabelUse) (label : ℕ)
    → (t ≡ UseType.definition → u.label ≢ label)
    → get_elem? (values_after t s vs u) label ≡ get_elem? vs label
values_elsewhere UseType.definition s vs u label h = elim (Bool-cases (s == 0)) [
  | inl e ↦ rw e refl
  | inr e ↦ rw e (get_elem?-set_ne vs u.label label (sub_size u.offset s) (h refl))
]
values_elsewhere UseType.call s vs u label h = refl
values_elsewhere UseType.jcc s vs u label h = refl
values_elsewhere UseType.jmp s vs u label h = refl
values_elsewhere UseType.lea s vs u label h = refl

-- A definition writes the value of its label, where that is not its offset anyway.
values_there :
    (s was : ℕ) (vs : List ℕ) (u : LabelUse)
    → was ≤ s
    → s ≤ u.offset
    → u.offset < 2 ^ 31
    → get_elem? vs u.label ≡ some (u.offset - was)
    → get_elem? (values_after UseType.definition s vs u) u.label ≡ some (u.offset - s)
values_there s was vs u h k m e = elim (Bool-cases (s == 0)) [
  | inl q ↦ rw q (e ∙ ap some (ground arith))
  | inr q ↦ rw q (
      get_elem?-set_self vs u.label (sub_size u.offset s) (u.offset - was) e
      ∙ ap some (omega arith))
]

module _ {Live : ℕ → Type 0} (was s p size : ℕ) (us : List LabelUse) (vs : List ℕ) (u : LabelUse)
    (spot : ℕ → Spot) (ready : IsReady Live was s p size (u ∷ us) vs spot)
    (r : LabelUse × (ℕ × List ℕ)) (step : IsStep was s us vs u spot r) where
  kept_at : (label : ℕ) → spot label ≢ ahead zero → get_elem? r.1.1 label ≡ get_elem? vs label
  kept_at label h =
      ap (λ w. get_elem? w label) step.values
      ∙ values_elsewhere u.type s vs u label (λ e f. h (ap spot (sym f) ∙ ready.once zero u refl e))

  saved_room : r.1.0 ≤ s + reserved_size u.type
  saved_room = omega (arith, step.shrinkage, Shorter-room u r.0 step.shorter)

  IsSpotted-next :
      (label : ℕ) (x : Spot)
      → spot label ≡ x
      → IsSpotted was s p (u ∷ us) vs label x
      → IsSpotted
          (was + shrink u)
          r.1.0
          (u.offset + reserved_size u.type)
          us
          r.1.1
          label
          (next_spot u.offset s x)
  IsSpotted-next label (behind o b) e h = record {
    valued = kept_at label (λ q. cc) ∙ h.valued;
    saved = h.saved;
    past = omega (arith, h.past, saved_room, ready.laid.0);
  }
  IsSpotted-next label (ahead (suc k)) e h = record {
    use_ = h.use_;
    is_definition = record {
      found = h.is_definition.found;
      defines = h.is_definition.defines;
      labelled = h.is_definition.labelled;
    };
    valued = kept_at label (λ q. cc) ∙ h.valued ∙ ap some (omega arith);
  }
  IsSpotted-next label (ahead zero) e h =
      let same_use : u ≡ h.use_ = cc (h.is_definition.found) in
      let labelled' : u.label ≡ label =
        ap (λ (w : LabelUse). w.label) same_use ∙ h.is_definition.labelled in
      let type' : u.type ≡ UseType.definition =
        ap (λ (w : LabelUse). w.type) same_use ∙ h.is_definition.defines in
      let valued' : get_elem? vs u.label ≡ some (u.offset - was) =
        ap (λ l. get_elem? vs l) labelled'
        ∙ h.valued
        ∙ ap some (omega (arith, ap (λ (w : LabelUse). w.offset) same_use)) in
      record {
        valued =
            subst (λ l. get_elem? r.1.1 l ≡ some (u.offset - s)) labelled'
              (ap (λ w. get_elem? w u.label) (step.values ∙ ap (λ t. values_after t s vs u) type')
                ∙ values_there s was vs u ready.was_le (omega (arith, ready.laid.0, ready.saved_le))
                    (omega (
                      arith,
                      ready.small,
                      layout_end (u.offset + reserved_size u.type) size us ready.laid.1,
                    ))
                    valued');
        saved = omega (arith, ready.laid.0, ready.saved_le);
        past = omega (arith, saved_room);
      }

  pub next-IsReady :
      IsReady Live
        (was + shrink u)
        r.1.0
        (u.offset + reserved_size u.type)
        size
        us
        r.1.1
        (λ label. next_spot u.offset s (spot label))
  next-IsReady = record {
    laid = ready.laid.1;
    small = ready.small;
    was_le = omega (arith, step.shrinkage, Shorter-le u r.0 step.shorter, ready.was_le);
    saved_le = omega (arith, saved_room, ready.laid.0, ready.saved_le);
    live = λ i v e. ready.live (suc i) v e;
    spotted = λ label l. IsSpotted-next label (spot label) refl (ready.spotted label l);
    once = λ i v e t. ap (next_spot u.offset s) (ready.once (suc i) v e t);
  }
