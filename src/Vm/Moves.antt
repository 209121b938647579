-- ===== src/Vm/Moves.antt =====
-- Which pointers a step of src/vm.c writes, and which threads it adds.
use crex.Base.{
  ℕ, zero, suc, ◌+◌, ◌≤◌, ◌≡◌, refl, ap, sym, ◌⊎◌, inl, inr, Bool, true, false, Option, none, some,
  List, [], ◌∷◌, length, get_elem?, set, drop, ltb, if_split, if_both, arith,
}
use crex.Bitmap.{Bitmap}
use crex.Status.{ok, Ensures, Ensures-weaken, returns, faults}
use crex.Bytecode.{Opcode, Fetched, fetch}
use crex.Vm.{
  Pointer, Program, Machine, ThreadStatus, Stepped, opcodes, taking, passing, test_class, jump_to,
  split_thread, write_pointer, test_flag, run_opcode, run_case, run_fetched, step_thread,
}

-- The pointers of a thread behind an instruction: only one writes, and it writes the position.
pub pointers_after : Option Opcode → ℕ → ℕ → List Pointer → List Pointer
pointers_after (some Opcode.write_pointer) operand str ps = set ps operand (some str)
pointers_after _ operand str ps = ps

pub fetched_pointers : Option Fetched → ℕ → List Pointer → List Pointer
unfolding opcodes
fetched_pointers none str ps = ps
fetched_pointers (some f) str ps = pointers_after (get_elem? opcodes f.opcode) f.operand str ps

-- The instruction of the running thread.
abbrev pub fetched_at : Program → Machine → Option Fetched
fetched_at program m = fetch (drop m.thread.instr_pointer program.code)

-- The running thread has these pointers, and the threads behind it are those of before, with a copy of it
-- in front after a split.
pub record Moves (ps : List Pointer) (m m' : Machine) : Type 0 where
  pub pointers : m'.thread.pointers ≡ ps
  pub successors :
      (m'.successors ≡ m.successors)
      ⊎ ((target : ℕ) × (m'.successors
            ≡ record (m.thread) { instr_pointer = target } ∷ m.successors))

set_outside : (ps : List Pointer) (i : ℕ) (v : Pointer) → length ps ≤ i → set ps i v ≡ ps
set_outside [] i v h = refl
set_outside (p ∷ ps) zero v h = absurd (omega arith)
set_outside (p ∷ ps) (suc i) v h = ap (λ qs. p ∷ qs) (set_outside ps i v (omega arith))

still : (m : Machine) → Moves m.thread.pointers m m
still m = record { pointers = refl; successors = inl refl }

module _ (program : Program) (alloc : Bool) (str : ℕ) (character prev_character : Option ℕ) where
  abbrev Moving : List Pointer → Machine → Stepped → Type 0
  Moving ps m = Ensures (λ r. Moves ps m r.1)

  write_pointer-Moves :
      (i : ℕ) (m : Machine)
      → Moving (set m.thread.pointers i (some str)) m (passing true (write_pointer i str m))
  unfolding write_pointer passing
  write_pointer-Moves i m =
      if_split
        (λ m'. Moving (set m.thread.pointers i (some str)) m (ok (ThreadStatus.continue, m')))
        (ltb i (length (m.thread.pointers)))
        (λ e. returns (record { pointers = refl; successors = inl refl }))
        (λ e. returns (record {
          pointers = sym (set_outside m.thread.pointers i (some str) (ground arith));
          successors = inl refl;
        }))

  split_thread-Moves :
      (a : Bool) (target back : ℕ) (m : Machine)
      → Moving m.thread.pointers m (split_thread a back (jump_to target m))
  unfolding split_thread
  split_thread-Moves true target back m =
      returns (record { pointers = refl; successors = inr (back, refl) })
  split_thread-Moves false target back m =
      returns (record { pointers = refl; successors = inl refl })

  test_class-Moves :
      (bitmap : Option Bitmap) (m : Machine)
      → Moving m.thread.pointers m (test_class bitmap character m)
  unfolding test_class taking
  test_class-Moves none m = faults
  test_class-Moves (some bitmap) m = returns (still m)

  test_flag-Moves : (i : ℕ) (m : Machine) → Moving m.thread.pointers m (test_flag i m)
  unfolding test_flag passing
  test_flag-Moves i m =
      if_both (Moving m.thread.pointers m) _
        (returns (record { pointers = refl; successors = inl refl })) faults

  run_case-Moves :
      (op : Option Opcode) (i : ℕ) (m : Machine)
      → Moving
          (pointers_after op i str m.thread.pointers)
          m
          (run_case program alloc str character prev_character op i m)
  unfolding run_case run_opcode taking passing pointers_after
  run_case-Moves none i m = faults
  run_case-Moves (some Opcode.char_class) i m = test_class-Moves _ m
  run_case-Moves (some Opcode.builtin_char_class) i m = test_class-Moves _ m
  run_case-Moves (some Opcode.jump) i m =
      returns (record { pointers = refl; successors = inl refl })
  run_case-Moves (some Opcode.split_passive) i m =
      split_thread-Moves alloc m.thread.instr_pointer _ m
  run_case-Moves (some Opcode.split_eager) i m = split_thread-Moves alloc _ _ m
  run_case-Moves (some Opcode.split_backwards_passive) i m =
      split_thread-Moves alloc m.thread.instr_pointer _ m
  run_case-Moves (some Opcode.split_backwards_eager) i m = split_thread-Moves alloc _ _ m
  run_case-Moves (some Opcode.write_pointer) i m = write_pointer-Moves i m
  run_case-Moves (some Opcode.test_and_set_flag) i m = test_flag-Moves i m
  run_case-Moves (some _) i m = returns (still m)

  run_fetched-Moves :
      (rest : List ℕ) (f : Option Fetched) (m : Machine)
      → Moving
          (fetched_pointers f str m.thread.pointers)
          m
          (run_fetched program alloc str character prev_character rest f m)
  unfolding run_fetched fetched_pointers
  run_fetched-Moves rest none m = faults
  run_fetched-Moves rest (some f) m =
      if_both
        (Moving (pointers_after (get_elem? opcodes f.opcode) f.operand str m.thread.pointers) m)
        (ltb (length rest) (f.next)) faults
        (Ensures-weaken (λ r k. record { pointers = k.pointers; successors = k.successors })
          (run_case-Moves (get_elem? opcodes f.opcode) (f.operand)
            (jump_to (m.thread.instr_pointer + f.next) m)))

  pub step_thread-Moves :
      (m : Machine)
      → Moving
          (fetched_pointers (fetched_at program m) str m.thread.pointers)
          m
          (step_thread program alloc str character prev_character m)
  unfolding step_thread
  step_thread-Moves m =
      run_fetched-Moves (drop m.thread.instr_pointer program.code) (fetched_at program m) m
