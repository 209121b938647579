-- ===== src/Vm/Threads.antt =====
-- What a step of src/vm.c keeps of the threads and of the flags.
use crex.Base.{
  ℕ, zero, suc, ◌≤◌, ◌<◌, ◌≡◌, refl, ◌/◌, Bool, true, false, ◌||◌, Option, none, some, List, [],
  ◌∷◌, length, length-set, set, drop, ltb, ◌==◌, All, if_both, if_split, ◌∙◌, arith,
}
use crex.Bitmap.{Bitmap, bitmap_test, bitmap_test_and_set}
use crex.Bitmap.Laws.{length-bitmap_set, bitmap_test_and_set_lem}
use crex.Status.{ok, Ensures, Ensures-both, Ensures-weaken, Ensures-Allows, returns, faults}
use crex.Vm.Moves.{fetched_at, fetched_pointers, Moves, step_thread-Moves}
use crex.Bytecode.{Opcode, Fetched}
use crex.Vm.{
  Pointer, Thread, Program, Machine, ThreadStatus, Stepped, taking, passing, test_class, jump_to,
  split_thread, write_pointer, test_flag, run_opcode, run_case, run_fetched, step_thread,
}

-- A pointer that is written points into the part of the subject that has been read.
abbrev pub IsPointer : ℕ → Pointer → Type 0
IsPointer str none = Unit
IsPointer str (some position) = position ≤ str

-- A thread has `n` pointers, all of them into the part of the subject that has been read.
abbrev pub IsThread : ℕ → ℕ → Thread → Type 0
IsThread n str t = (length t.pointers ≡ n) × All (IsPointer str) t.pointers

pub record IsMachine (n str : ℕ) (m : Machine) : Type 0 where
  pub running : IsThread n str m.thread
  pub waiting : All (IsThread n str) m.successors

-- No flag is lost.
pub record KeepsFlags (flags flags' : Bitmap) : Type 0 where
  pub sized : length flags' ≡ length flags
  pub keeps : (i : ℕ) → bitmap_test flags i ≡ true → bitmap_test flags' i ≡ true

pub KeepsFlags-refl : (flags : Bitmap) → KeepsFlags flags flags
KeepsFlags-refl flags = record { sized = refl; keeps = λ i h. h }

or_set : (b c : Bool) → c ≡ true → (b || c) ≡ true
or_set b c h = ground arith

pub set_flag-KeepsFlags :
    (flags : Bitmap) (i : ℕ)
    → i / 8 < length flags
    → KeepsFlags flags (bitmap_test_and_set flags i).1
unfolding bitmap_test_and_set
set_flag-KeepsFlags flags i h = record {
  sized = length-bitmap_set flags i;
  keeps = λ j k.
      (bitmap_test_and_set_lem flags i j (omega arith)).1 ∙ or_set (i == j) (bitmap_test flags j) k;
}

All-set :
    (str : ℕ) (ps : List Pointer) (i : ℕ)
    → All (IsPointer str) ps
    → All (IsPointer str) (set ps i (some str))
All-set str [] i h = tt
All-set str (p ∷ ps) zero h = (omega arith, h.1)
All-set str (p ∷ ps) (suc i) h = (h.0, All-set str ps i h.1)

module _ (n str : ℕ) where
  abbrev Kept : Bitmap → Stepped → Type 0
  Kept flags = Ensures (λ r. IsMachine n str r.1 × KeepsFlags flags r.1.flags)

  write_pointer-IsMachine :
      (i : ℕ) (m : Machine)
      → IsMachine n str m
      → Kept m.flags (passing true (write_pointer i str m))
  unfolding write_pointer passing
  write_pointer-IsMachine i m h =
      if_both (λ m'. Kept m.flags (ok (ThreadStatus.continue, m')))
        (ltb i (length (m.thread.pointers)))
        (returns (
          record {
            running = (
              length-set (m.thread.pointers) i (some str) ∙ h.running.0,
              All-set str (m.thread.pointers) i h.running.1,
            );
            waiting = h.waiting;
          },
          KeepsFlags-refl m.flags,
        ))
        (returns (h, KeepsFlags-refl m.flags))

  test_flag-IsMachine : (i : ℕ) (m : Machine) → IsMachine n str m → Kept m.flags (test_flag i m)
  unfolding test_flag passing
  test_flag-IsMachine i m h =
      if_split (Kept m.flags) (ltb (i / 8) (length (m.flags)))
        (λ e. returns (
          record { running = h.running; waiting = h.waiting },
          set_flag-KeepsFlags m.flags i (ground arith),
        ))
        (λ _. faults)

  split_thread-IsMachine :
      (alloc : Bool) (target : ℕ) (m : Machine)
      → IsMachine n str m
      → Kept m.flags (split_thread alloc target m)
  unfolding split_thread
  split_thread-IsMachine true target m h =
      returns
        (record { running = h.running; waiting = (h.running, h.waiting) }, KeepsFlags-refl m.flags)
  split_thread-IsMachine false target m h = returns (h, KeepsFlags-refl m.flags)

  test_class-IsMachine :
      (bitmap : Option Bitmap) (character : Option ℕ) (m : Machine)
      → IsMachine n str m
      → Kept m.flags (test_class bitmap character m)
  unfolding test_class taking
  test_class-IsMachine none character m h = faults
  test_class-IsMachine (some bitmap) character m h = returns (h, KeepsFlags-refl m.flags)

  jump_to-IsMachine :
      (target : ℕ) (m : Machine) → IsMachine n str m → IsMachine n str (jump_to target m)
  jump_to-IsMachine target m h = record { running = h.running; waiting = h.waiting }

  module _ (program : Program) (alloc : Bool) (character prev_character : Option ℕ) where
    run_case-IsMachine :
        (op : Option Opcode) (i : ℕ) (m : Machine)
        → IsMachine n str m
        → Kept m.flags (run_case program alloc str character prev_character op i m)
    unfolding run_case run_opcode taking passing
    run_case-IsMachine none i m h = faults
    run_case-IsMachine (some Opcode.char_class) i m h = test_class-IsMachine _ character m h
    run_case-IsMachine (some Opcode.builtin_char_class) i m h = test_class-IsMachine _ character m h
    run_case-IsMachine (some Opcode.jump) i m h =
        returns (jump_to-IsMachine _ m h, KeepsFlags-refl m.flags)
    run_case-IsMachine (some Opcode.split_passive) i m h = split_thread-IsMachine alloc _ m h
    run_case-IsMachine (some Opcode.split_eager) i m h =
        split_thread-IsMachine alloc _ (jump_to _ m) (jump_to-IsMachine _ m h)
    run_case-IsMachine (some Opcode.split_backwards_passive) i m h =
        split_thread-IsMachine alloc _ m h
    run_case-IsMachine (some Opcode.split_backwards_eager) i m h =
        split_thread-IsMachine alloc _ (jump_to _ m) (jump_to-IsMachine _ m h)
    run_case-IsMachine (some Opcode.write_pointer) i m h = write_pointer-IsMachine i m h
    run_case-IsMachine (some Opcode.test_and_set_flag) i m h = test_flag-IsMachine i m h
    run_case-IsMachine (some _) i m h = returns (h, KeepsFlags-refl m.flags)

    run_fetched-IsMachine :
        (rest : List ℕ) (f : Option Fetched) (m : Machine)
        → IsMachine n str m
        → Kept m.flags (run_fetched program alloc str character prev_character rest f m)
    unfolding run_fetched
    run_fetched-IsMachine rest none m h = faults
    run_fetched-IsMachine rest (some f) m h =
        if_both (Kept m.flags) (ltb (length rest) (f.next)) faults
          (run_case-IsMachine _ (f.operand) (jump_to _ m) (jump_to-IsMachine _ m h))

    pub step_thread-IsMachine :
        (m : Machine)
        → IsMachine n str m
        → Ensures
            (λ r.
              IsMachine n str r.1
              × KeepsFlags m.flags r.1.flags
              × Moves (fetched_pointers (fetched_at program m) str m.thread.pointers) m r.1)
            (step_thread program alloc str character prev_character m)
    unfolding step_thread
    step_thread-IsMachine m h =
        Ensures-weaken (λ r k. (k.0.0, k.0.1, k.1))
          (Ensures-both (run_fetched-IsMachine (drop (m.thread.instr_pointer) (program.code)) _ m h)
            (Ensures-Allows (step_thread-Moves program alloc str character prev_character m)))
