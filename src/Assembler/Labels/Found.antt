-- ===== src/Assembler/Labels/Found.antt =====
-- Where the last loop of `resolve_assembler_labels` in src/assembler.c has put the instruction of each use.
use crex.Base.{
  ℕ, zero, suc, ◌+◌, ◌-◌, ◌≤◌, ◌≡◌, ap, ◌∙◌, subst, some, List, [], ◌∷◌, ◌++◌, length, get_elem?,
  take, drop, append_assoc, arith,
}
use crex.Assembler.{LabelUse}
use crex.Assembler.Labels.{reserved_size, encode_use, next_offset}
use crex.Assembler.Labels.Spans.{shrink, before, IsLaid}
use crex.Assembler.Labels.Layout.{shrink-le, layout_from}
use crex.Assembler.Labels.Moves.{
  length-take, length-drop, next_within, length-encode_use, value_of, relocated,
}

pub drop-append : (xs ys : List ℕ) (n : ℕ) → drop (length xs + n) (xs ++ ys) ≡ drop n ys
drop-append [] ys n = ap (λ k. drop k ys) (omega arith)
drop-append (x ∷ xs) ys n =
    ap (λ k. drop k (x ∷ (xs ++ ys))) {y = suc (length xs + n)} (omega arith) ∙ drop-append xs ys n

pub IsLaid-next :
    (p size : ℕ) (us : List LabelUse) → IsLaid p us size → IsLaid (next_offset size us) us size
unfolding next_offset
IsLaid-next p size [] h = omega arith
IsLaid-next p size (u ∷ us) h = (omega arith, h.1)

-- The code begins, from a position on, with the instruction of a use.
pub record HasAt (l : List ℕ) (position : ℕ) (instruction : List ℕ) : Type 0 where
  pub rest : List ℕ
  pub found : drop position l ≡ instruction ++ rest

module _ (size : ℕ) (original vs : List ℕ) (fits : size ≤ length original) where
  abbrev pub instruction_of : ℕ → LabelUse → List ℕ
  instruction_of saved u = encode_use u.type u (u.offset - saved) (value_of vs u.label)

  pub relocated-HasAt :
      (p saved i : ℕ) (us : List LabelUse) (u : LabelUse)
      → IsLaid p us size
      → saved ≤ p
      → get_elem? us i ≡ some u
      → HasAt
          (relocated size original vs saved us)
          (u.offset - (saved + before us i) - (next_offset size us - saved))
          (instruction_of (saved + before us i) u)
  unfolding next_offset
  relocated-HasAt p saved i [] u laid s e = absurd cc
  relocated-HasAt p saved zero (v ∷ us) u laid s e =
      let same_use : v ≡ u = cc in
      let begin_ = v.offset + reserved_size v.type in
      let segment = take (next_offset size us - begin_) (drop begin_ original) in
      let rest = relocated size original vs (saved + shrink v) us in
      let bytes = instruction_of saved v in
      subst
        (λ (w : LabelUse).
          HasAt (relocated size original vs saved (v ∷ us))
            (w.offset - (saved + 0) - (v.offset - saved)) (instruction_of (saved + 0) w))
        same_use
        (record {
          rest = segment ++ rest;
          found =
              ap (λ n. drop n (relocated size original vs saved (v ∷ us))) {y = zero} (omega arith)
              ∙ append_assoc bytes segment rest
              ∙ ap (λ n. instruction_of n v ++ (segment ++ rest)) (omega arith);
        })
  relocated-HasAt p saved (suc i) (v ∷ us) u laid s e =
      let begin_ = v.offset + reserved_size v.type in
      let moved = next_offset size us - begin_ in
      let segment = take moved (drop begin_ original) in
      let tail = relocated size original vs (saved + shrink v) us in
      let bytes = instruction_of saved v in
      let ih =
        relocated-HasAt begin_ (saved + shrink v) i us u laid.1
          (omega (arith, laid.0, s, shrink-le v)) e in
      let next = next_within begin_ size us laid.1 in
      let far =
        layout_from (next_offset size us) size i us u (IsLaid-next begin_ size us laid.1) e in
      let length_bytes = length-encode_use v (v.offset - saved) (value_of vs v.label) in
      let length_segment : length segment ≡ moved =
        length-take moved (drop begin_ original)
          (omega (arith, length-drop begin_ original, next.0, next.1, fits)) in
      let position' =
        u.offset - (saved + shrink v + before us i) - (next_offset size us - (saved + shrink v)) in
      let position : u.offset - (saved + (shrink v + before us i)) - (v.offset - saved)
          ≡ length bytes + (length segment + position') =
        omega (arith, length_bytes, length_segment, next.0, far, laid.0, s, shrink-le v) in
      record {
        rest = ih.rest;
        found =
            ap (λ l. drop (u.offset - (saved + (shrink v + before us i)) - (v.offset - saved)) l)
              (append_assoc bytes segment tail)
            ∙ ap (λ n. drop n (bytes ++ (segment ++ tail))) position
            ∙ drop-append bytes (segment ++ tail) (length segment + position')
            ∙ drop-append segment tail position'
            ∙ ih.found
            ∙ ap (λ n. instruction_of n u ++ ih.rest) (omega arith);
      }
