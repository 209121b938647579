-- ===== src/Assembler/Labels/Moves.antt =====
-- The last loop of `resolve_assembler_labels` in src/assembler.c, which writes instructions into the code
-- and moves the rest of it together in place.
use crex.Base.{
  ℕ, zero, suc, ◌+◌, ◌-◌, ◌≤◌, ◌≡◌, refl, sym, ap, ◌∙◌, subst, Bool, true, false, Option, none,
  some, List, [], ◌∷◌, ◌++◌, length, get_elem?, take, drop, append_assoc, append-nil, arith,
}
use crex.Status.{Result, undefined, Yields, yields, Yields-weaken}
use crex.X64.{copy_displacement}
use crex.Assembler.{UseType, LabelUse, write_at}
use crex.Assembler.Labels.{reserved_size, encode_use, next_offset, write_uses}
use crex.Assembler.Labels.Spans.{shrink, total, IsLaid}
use crex.Assembler.Labels.Layout.{shrink-le, layout_end}
use crex.Assembler.Writes.{length-write_at, take-write_at, drop-write_at}

pub length-take : (n : ℕ) (l : List ℕ) → n ≤ length l → length (take n l) ≡ n
length-take zero l h = refl
length-take (suc n) [] h = absurd (omega arith)
length-take (suc n) (x ∷ l) h = omega (arith, length-take n l (omega arith))

pub length-drop : (n : ℕ) (l : List ℕ) → length (drop n l) ≡ length l - n
length-drop zero l = omega arith
length-drop (suc n) [] = omega arith
length-drop (suc n) (x ∷ l) = omega (arith, length-drop n l)

pub next_within :
    (p size : ℕ) (us : List LabelUse)
    → IsLaid p us size
    → (p ≤ next_offset size us) × (next_offset size us ≤ size)
unfolding next_offset
next_within p size [] h = (h, omega arith)
next_within p size (u ∷ us) h =
    (h.0, omega (arith, layout_end (u.offset + reserved_size u.type) size us h.1))

-- The instruction is shorter than the bytes that are reserved by what the use saves.
pub length-encode_use :
    (u : LabelUse) (code target : ℕ)
    → length (encode_use u.type u code target) + shrink u ≡ reserved_size u.type
unfolding encode_use reserved_size copy_displacement
length-encode_use u code target = go u.type u.is_short refl refl
  where
    go :
        (t : UseType) (b : Bool)
        → u.type ≡ t
        → u.is_short ≡ b
        → length (encode_use u.type u code target) + shrink u ≡ reserved_size u.type
    go UseType.definition true e f = simp (e, f) (omega arith)
    go UseType.definition false e f = simp (e, f) (omega arith)
    go UseType.call true e f = simp (e, f) (omega arith)
    go UseType.call false e f = simp (e, f) (omega arith)
    go UseType.lea true e f = simp (e, f) (omega arith)
    go UseType.lea false e f = simp (e, f) (omega arith)
    go UseType.jcc true e f = simp (e, f) (omega arith)
    go UseType.jcc false e f = simp (e, f) (omega arith)
    go UseType.jmp true e f = simp (e, f) (omega arith)
    go UseType.jmp false e f = simp (e, f) (omega arith)

-- The value of a label.
abbrev pub value_of : List ℕ → ℕ → ℕ
value_of vs label = elim (get_elem? vs label) [ none ↦ 0 | some t ↦ t ]

-- The code as it is to be from the first of these uses on: each instruction where its offset and what is
-- saved before it put it, and behind it the code that was between the uses.
abbrev pub relocated : ℕ → List ℕ → List ℕ → ℕ → List LabelUse → List ℕ
relocated size original vs saved [] = []
relocated size original vs saved (u ∷ us) =
    let begin_ = u.offset + reserved_size u.type in
    encode_use u.type u (u.offset - saved) (value_of vs u.label)
    ++ take (next_offset size us - begin_) (drop begin_ original)
    ++ relocated size original vs (saved + shrink u) us

abbrev pub IsValued : List ℕ → List LabelUse → Type 0
IsValued vs us =
    (i : ℕ) (u : LabelUse) → get_elem? us i ≡ some u → (t : ℕ) × (get_elem? vs u.label ≡ some t)

module _ (size : ℕ) (original vs : List ℕ) (fits : size ≤ length original) where
  abbrev Moved : ℕ → List LabelUse → List ℕ → ℕ → List ℕ × ℕ → Type 0
  Moved saved us memory code r =
      (r.1 ≡ size - (saved + total us))
      × (take r.1 r.0 ≡ take code memory ++ relocated size original vs saved us)

  -- The rounds behind one that has written the instruction of a use.
  abbrev rounds_behind : LabelUse → List LabelUse → List ℕ → ℕ → ℕ → Result (List ℕ × ℕ)
  rounds_behind u us memory code target =
      let bytes = encode_use u.type u code target in
      let memory' = write_at memory code bytes in
      let begin_ = u.offset + reserved_size u.type in
      let moved = next_offset size us - begin_ in
      write_uses size vs us
        (write_at memory' (code + length bytes) (take moved (drop begin_ memory')))
        (code + length bytes + moved)

  module _ (p saved : ℕ) (u : LabelUse) (us : List LabelUse) (memory : List ℕ) (target : ℕ)
      (laid : IsLaid p (u ∷ us) size) (saved_le : saved ≤ p)
      (same_length : length memory ≡ length original)
      (unread : (n : ℕ) → u.offset ≤ n → drop n memory ≡ drop n original) where
    abbrev begin_of : ℕ
    begin_of = u.offset + reserved_size u.type

    abbrev moved_of : ℕ
    moved_of = next_offset size us - begin_of

    abbrev code_of : ℕ
    code_of = u.offset - saved

    abbrev bytes_of : List ℕ
    bytes_of = encode_use u.type u code_of target

    abbrev segment_of : List ℕ
    segment_of = take moved_of (drop begin_of original)

    abbrev memory_of : List ℕ
    memory_of = write_at (write_at memory code_of bytes_of) (code_of + length bytes_of) segment_of

    instruction_room : code_of + length bytes_of + shrink u + saved ≡ begin_of
    instruction_room = omega (arith, length-encode_use u code_of target, laid.0, saved_le)

    next_room : (begin_of ≤ next_offset size us) × (next_offset size us ≤ size)
    next_room = next_within begin_of size us laid.1

    segment_unread : drop begin_of (write_at memory code_of bytes_of) ≡ drop begin_of original
    segment_unread =
        drop-write_at memory code_of bytes_of begin_of (omega (arith, instruction_room))
        ∙ unread begin_of (omega arith)

    length_segment : length segment_of ≡ moved_of
    length_segment =
        length-take moved_of (drop begin_of original)
          (omega (arith, length-drop begin_of original, next_room.0, next_room.1, fits))

    position : code_of + length bytes_of + moved_of ≡ next_offset size us - (saved + shrink u)
    position = omega (arith, instruction_room, next_room.0, next_room.1)

    length_memory : length memory_of ≡ length original
    length_memory =
        length-write_at (write_at memory code_of bytes_of) (code_of + length bytes_of) segment_of
        ∙ length-write_at memory code_of bytes_of
        ∙ same_length

    unread_of : (n : ℕ) → next_offset size us ≤ n → drop n memory_of ≡ drop n original
    unread_of n h =
        drop-write_at (write_at memory code_of bytes_of) (code_of + length bytes_of) segment_of n
          (omega (arith, h, length_segment, instruction_room, next_room.0))
        ∙ drop-write_at memory code_of bytes_of n (omega (arith, h, instruction_room, next_room.0))
        ∙ unread n (omega (arith, h, next_room.0))

    written :
        take (code_of + length bytes_of + moved_of) memory_of
        ≡ (take code_of memory ++ bytes_of) ++ segment_of
    written =
        ap (λ n. take (code_of + length bytes_of + n) memory_of) (sym length_segment)
        ∙ take-write_at (write_at memory code_of bytes_of) (code_of + length bytes_of) segment_of (
            omega (
              arith,
              length_segment,
              instruction_room,
              next_room.0,
              next_room.1,
              fits,
              same_length,
              length-write_at memory code_of bytes_of,
            ))
        ∙ ap (λ l. l ++ segment_of)
            (take-write_at memory code_of bytes_of
              (omega (arith, instruction_room, next_room.0, next_room.1, fits, same_length)))

    rounds_behind-Moved :
        get_elem? vs u.label ≡ some target
        → Yields
            (Moved (saved + shrink u) us memory_of (next_offset size us - (saved + shrink u)))
            (write_uses size vs us memory_of (next_offset size us - (saved + shrink u)))
        → Yields (Moved saved (u ∷ us) memory code_of) (rounds_behind u us memory code_of target)
    rounds_behind-Moved e h =
        let value : value_of vs u.label ≡ target = rw (e, value_of) refl in
        let rest = relocated size original vs (saved + shrink u) us in
        let end_ : Yields (Moved saved (u ∷ us) memory code_of)
            (write_uses size vs us memory_of (next_offset size us - (saved + shrink u))) =
          Yields-weaken
            (λ r m. (
              omega (arith, m.0),
              m.1
                  ∙ ap (λ q. take q memory_of ++ rest) (sym position)
                  ∙ ap (λ l. l ++ rest)
                      (written ∙ append_assoc (take code_of memory) bytes_of segment_of)
                  ∙ append_assoc (take code_of memory) (bytes_of ++ segment_of) rest
                  ∙ ap
                      (λ t.
                        take code_of memory
                        ++ (encode_use u.type u code_of t ++ segment_of ++ rest))
                      (sym value),
            ))
            h in
        subst
          (λ l. Yields (Moved saved (u ∷ us) memory code_of) (
            write_uses size vs us
              (write_at (write_at memory code_of bytes_of) (code_of + length bytes_of)
                (take moved_of l))
              (code_of + length bytes_of + moved_of)))
          (sym segment_unread)
          (subst
            (λ q. Yields (Moved saved (u ∷ us) memory code_of) (write_uses size vs us memory_of q))
            (sym position) end_)

  pub write_uses-Moved :
      (p saved : ℕ) (us : List LabelUse) (memory : List ℕ)
      → IsLaid p us size
      → saved ≤ p
      → IsValued vs us
      → length memory ≡ length original
      → ((n : ℕ) → next_offset size us ≤ n → drop n memory ≡ drop n original)
      → Yields
          (Moved saved us memory (next_offset size us - saved))
          (write_uses size vs us memory (next_offset size us - saved))
  unfolding write_uses next_offset
  write_uses-Moved p saved [] memory laid s v l h =
      yields (omega arith, sym (append-nil (take (size - saved) memory)))
  write_uses-Moved p saved (u ∷ us) memory laid s v l h =
      let t = v zero u refl in
      let found = t.1 in
      let rest =
        write_uses-Moved (u.offset + reserved_size u.type) (saved + shrink u) us
          (memory_of p saved u us memory t.0 laid s l h) laid.1
          (omega (arith, laid.0, s, shrink-le u)) (λ i w e. v (suc i) w e)
          (length_memory p saved u us memory t.0 laid s l h)
          (unread_of p saved u us memory t.0 laid s l h) in
      subst
        (λ (o : Option ℕ). Yields (Moved saved (u ∷ us) memory (u.offset - saved)) (elim o [
          | none ↦ undefined
          | some target ↦ rounds_behind u us memory (u.offset - saved) target
        ]))
        (sym found) (rounds_behind-Moved p saved u us memory t.0 laid s l h found rest)
