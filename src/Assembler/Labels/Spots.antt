-- ===== src/Assembler/Labels/Spots.antt =====
-- `resolve_assembler_labels` of src/assembler.c within a pass: where the definitions of the labels lie,
-- behind the use that is visited or ahead of it, and what the values of the labels then are.
use crex.Base.{
  ℕ, zero, suc, ◌+◌, ◌-◌, ◌^◌, ◌≤◌, ◌<◌, ◌≡◌, true, false, some, List, get_elem?, set, ◌==◌,
  if◌then◌else◌,
}
use crex.Vm.{sub_size}
use crex.Assembler.{UseType, LabelUse}
use crex.Assembler.Labels.Spans.{gain, shrink, before, Shorter, IsLaid}
use crex.Assembler.Labels.Layout.{IsDefinition}

-- Behind: the offset of the definition, and how much shorter the code is before it. Ahead: its index
-- among the uses that are left.
pub data Spot : Type 0 where
  behind : (offset saved : ℕ) → Spot
  ahead : (index : ℕ) → Spot

-- The spot behind one more use.
abbrev pub next_spot : ℕ → ℕ → Spot → Spot
next_spot offset s (behind o b) = behind o b
next_spot offset s (ahead zero) = behind offset s
next_spot offset s (ahead (suc k)) = ahead k

-- A definition behind the position, with its value.
pub record IsBehind (s p : ℕ) (vs : List ℕ) (label o b : ℕ) : Type 0 where
  pub valued : get_elem? vs label ≡ some (o - b)
  pub saved : b ≤ o
  pub past : o + s ≤ p + b

-- A definition ahead, with the value of the pass before, which had saved so much before the uses left.
pub record IsAhead (was : ℕ) (us : List LabelUse) (vs : List ℕ) (label k : ℕ) : Type 0 where
  pub use_ : LabelUse
  pub is_definition : IsDefinition us k label use_
  pub valued : get_elem? vs label ≡ some (use_.offset - (was + before us k))

abbrev pub IsSpotted : ℕ → ℕ → ℕ → List LabelUse → List ℕ → ℕ → Spot → Type 0
IsSpotted was s p us vs label (behind o b) = IsBehind s p vs label o b
IsSpotted was s p us vs label (ahead k) = IsAhead was us vs label k

-- Before a use is visited: the pass has saved `s`, the pass before had saved `was`, and every label that
-- is live has its spot.
pub record IsReady (Live : ℕ → Type 0) (was s p size : ℕ) (us : List LabelUse) (vs : List ℕ)
    (spot : ℕ → Spot) : Type 0 where
  pub laid : IsLaid p us size
  pub small : size < 2 ^ 31
  pub was_le : was ≤ s
  pub saved_le : s ≤ p
  pub live : (i : ℕ) (u : LabelUse) → get_elem? us i ≡ some u → Live u.label
  pub spotted : (label : ℕ) → Live label → IsSpotted was s p us vs label (spot label)
  pub once :
      (i : ℕ) (u : LabelUse)
      → get_elem? us i ≡ some u
      → u.type ≡ UseType.definition
      → spot u.label ≡ ahead i

-- The values behind a use.
abbrev pub values_after : UseType → ℕ → List ℕ → LabelUse → List ℕ
values_after UseType.definition s vs u = if s == 0 then vs else set vs u.label (sub_size u.offset s)
values_after _ s vs u = vs

-- What the displacement of a branch that becomes short is judged by.
abbrev pub IsNear : ℕ → ℕ → List LabelUse → LabelUse → Spot → Type 0
IsNear was s us u (behind o b) = u.offset + 2 + b ≤ o + 128 + s
IsNear was s us u (ahead zero) = zero ≡ zero
IsNear was s us u (ahead (suc k)) =
    (d : LabelUse)
    → get_elem? us k ≡ some d
    → d.offset + s ≤ u.offset + 129 + gain u.type + was + before us k

pub record IsStep (was s : ℕ) (us : List LabelUse) (vs : List ℕ) (u : LabelUse) (spot : ℕ → Spot)
    (r : LabelUse × (ℕ × List ℕ)) : Type 0 where
  pub shorter : Shorter u r.0
  pub shrinkage : r.1.0 ≡ s + shrink r.0
  pub values : r.1.1 ≡ values_after u.type s vs u
  pub judged : u.is_short ≡ false → r.0.is_short ≡ true → IsNear was s us u (spot u.label)
