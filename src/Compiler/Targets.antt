-- ===== src/Compiler/Targets.antt =====
-- Where the splits and jumps of src/bytecode-compiler.c lead: each delta is the length of the code
-- that it passes over, and is written in a size that holds it.
use crex.Base.{
  ℕ, ◌+◌, ◌^◌, ◌<◌, ◌≤◌, ◌≡◌, true, refl, sym, ap, ◌∙◌, Bool, List, ◌++◌, append_assoc, length, leb,
  if_split, arith,
}
use crex.Serialization.{size_for_operand}
use crex.Serialization.RoundTrip.{IsSize, size_0, size_1, size_2, size_4}
use crex.Bytecode.{Opcode}
use crex.Compiler.{
  emit, emit_least, compile_alternation, trailing_split_size, leading_split, trailing_split,
  compile_unbounded,
}
use crex.Compiler.Bounds.{
  bytes-append, length-emit, length-emit_least, trailing_split_size-IsSize, size_for_operand-le,
}

-- An alternation begins with a split over the left side and the jump behind it, to the right side;
-- the jump leads over the right side, to the flag at the end.
pub compile_alternation-targets :
    (left right : List ℕ) (flag : ℕ)
    → (skipped : List ℕ) × (skipped ≡ left ++ emit_least Opcode.jump (length right))
      × (compile_alternation left right flag
          ≡ emit_least Opcode.split_passive (length skipped)
            ++ (skipped ++ (right ++ emit_least Opcode.test_and_set_flag flag)))
unfolding compile_alternation
compile_alternation-targets left right flag =
    let skipped = left ++ emit_least Opcode.jump (length right) in
    let delta : length left + 1 + size_for_operand (length right) ≡ length skipped =
      omega (arith, bytes-append, length-emit_least Opcode.jump (length right)) in
    (
      skipped,
      refl,
      rw delta (
          ap (λ code. emit_least Opcode.split_passive (length skipped) ++ code)
            (sym (append_assoc left (emit_least Opcode.jump (length right)) _))),
    )

-- A number that is written in at most so many bytes fits them.
pub fits-le :
    (n s : ℕ) → IsSize s → leb (size_for_operand n) s ≡ true → n < 2 ^ 32 → 1 ≤ s → n < 256 ^ s
unfolding size_for_operand
fits-le n s size_0 e h k = omega arith
fits-le n s size_1 e h k = ground arith
fits-le n s size_2 e h k = ground arith
fits-le n s size_4 e h k = omega arith

-- The size that is chosen for the trailing split holds its delta, which counts the operand itself.
trailing_split_size-fits :
    (base : ℕ)
    → base + 5 < 2 ^ 32
    → base + (1 + trailing_split_size base) < 256 ^ trailing_split_size base
unfolding trailing_split_size
trailing_split_size-fits base h =
    let fits = λ (s : ℕ). base + (1 + s) < 256 ^ s in
    if_split fits (leb (size_for_operand (base + (1 + 1))) 1)
      (λ e. fits-le (base + (1 + 1)) 1 size_1 e (omega arith) (omega arith))
      (λ _.
        if_split fits (leb (size_for_operand (base + (1 + 2))) 2)
          (λ e. fits-le (base + (1 + 2)) 2 size_2 e (omega arith) (omega arith)) (λ _. omega arith))

regroup :
    (first second third last : List ℕ)
    → first ++ (second ++ (third ++ last)) ≡ (first ++ (second ++ third)) ++ last
regroup first second third last =
    ap (λ code. first ++ code) (sym (append_assoc second third last))
    ∙ sym (append_assoc first (second ++ third) last)

-- An unbounded repetition begins with a split over its loop, to the flag at the end. The loop is a
-- flag, the child and a split back over the whole loop, to its flag; in code below 2 ^ 32 bytes that
-- delta fits the size it is written in.
pub compile_unbounded-targets :
    (lazy : Bool) (child : List ℕ) (flag : ℕ)
    → (loop : List ℕ) × (size : ℕ) × (compile_unbounded lazy child flag
        ≡ emit_least (leading_split lazy) (length loop)
          ++ (loop ++ emit_least Opcode.test_and_set_flag (flag + 1)))
      × (loop
          ≡ emit_least Opcode.test_and_set_flag flag
            ++ (child ++ emit (trailing_split lazy) (length loop) size))
      × IsSize size
      × (length child + 10 < 2 ^ 32 → length loop < 256 ^ size)
unfolding compile_unbounded
compile_unbounded-targets lazy child flag =
    let base = 1 + size_for_operand flag + length child in
    let size = trailing_split_size base in
    let delta = base + (1 + size) in
    let tail = child ++ emit (trailing_split lazy) delta size in
    let loop = emit_least Opcode.test_and_set_flag flag ++ tail in
    let measured : length loop ≡ delta = omega (
      arith,
      bytes-append,
      length-emit_least Opcode.test_and_set_flag flag,
      length-emit (trailing_split lazy) delta size (trailing_split_size-IsSize base),
    ) in
    (
      loop,
      size,
      rw measured (
          ap (λ code. emit_least (leading_split lazy) delta ++ code)
            (regroup (emit_least Opcode.test_and_set_flag flag) child
              (emit (trailing_split lazy) delta size)
              (emit_least Opcode.test_and_set_flag (flag + 1)))),
      ap
          (λ d.
            emit_least Opcode.test_and_set_flag flag
            ++ (child ++ emit (trailing_split lazy) d size))
          (sym measured),
      trailing_split_size-IsSize base,
      λ h. rw measured (trailing_split_size-fits base (omega (arith, size_for_operand-le flag))),
    )
