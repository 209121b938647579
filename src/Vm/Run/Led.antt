-- ===== src/Vm/Run/Led.antt =====
-- Where a step of src/vm.c leads a thread of a guarded program.
use crex.Base.{
  ℕ, suc, ◌+◌, ◌*◌, ◌/◌, ◌^◌, ◌≤◌, ◌<◌, ◌≡◌, refl, ap, ◌∙◌, Bool, true, false, ◌&&◌, Option, none,
  some, List, [], ◌∷◌, length, drop, get_elem?, ltb, if_both, if_split, Bool-cases, inl, inr, arith,
}
use crex.Bitmap.{Bitmap, bitmap_test, bitmap_set, bitmap_test_and_set}
use crex.Bitmap.Laws.{bitmap_test-bitmap_set}
use crex.Status.{ok, Ensures, Ensures-weaken, returns, faults}
use crex.Bytecode.{Opcode, Fetched, fetch}
use crex.Vm.{
  Program, Machine, ThreadStatus, add_size, opcodes, taking, passing, test_class, jump_to,
  split_thread, write_pointer, test_flag, run_opcode, run_case, run_fetched,
}
use crex.Vm.Threads.{KeepsFlags, KeepsFlags-refl, set_flag-KeepsFlags}
use crex.Vm.Run.Guard.{is_flag, fetches_flag, guards, guards_ahead, guards_back, guards_fetched}
use crex.Vm.Run.Flags.{unset, unset-lt}

pub both : (b c : Bool) → (b && c) ≡ true → (b ≡ true) × (c ≡ true)
both b c h = ground arith

pub sets_flag :
    (flags : Bitmap) (i : ℕ) → i / 8 < length flags → bitmap_test (bitmap_set flags i) i ≡ true
sets_flag flags i h = ground (arith, bitmap_test-bitmap_set flags i i (omega arith))

abbrev pub Advances : Option Fetched → Type 0
Advances none = Unit
Advances (some f) = 1 ≤ f.next

pub fetch-Advances : (code : List ℕ) → Advances (fetch code)
unfolding fetch
fetch-Advances [] = tt
fetch-Advances (b ∷ code) = omega arith

module _ (program : Program) (starts : ℕ → Bool) where
  -- What a step does with a thread at an address: it stops the thread, or goes on from a greater
  -- one, or goes back to a flag.
  pub data Led (a : ℕ) (flags : Bitmap) : ThreadStatus × Machine → Type 0 where
    rejects : {m : Machine} → Led a flags (ThreadStatus.rejected, m)
    is_done : {m : Machine} → Led a flags (ThreadStatus.done, m)
    no_memory : {m : Machine} → Led a flags (ThreadStatus.e_nomem, m)
    onward :
        {m : Machine}
        → a ≤ m.thread.instr_pointer
        → starts (m.thread.instr_pointer) ≡ true
        → KeepsFlags flags m.flags
        → Led a flags (ThreadStatus.continue, m)
    back :
        {m : Machine}
        → starts (m.thread.instr_pointer) ≡ true
        → fetches_flag (fetch (drop (m.thread.instr_pointer) program.code)) ≡ true
        → m.flags ≡ flags
        → Led a flags (ThreadStatus.continue, m)

  -- At a flag the thread is stopped, or there is one flag less that it can still set.
  pub data Fewer (a : ℕ) (flags : Bitmap) : ThreadStatus × Machine → Type 0 where
    refused : {m : Machine} → Fewer a flags (ThreadStatus.rejected, m)
    fewer :
        {m : Machine}
        → a ≤ m.thread.instr_pointer
        → starts (m.thread.instr_pointer) ≡ true
        → KeepsFlags flags m.flags
        → unset (8 * length flags) m.flags < unset (8 * length flags) flags
        → Fewer a flags (ThreadStatus.continue, m)

  taking-Led :
      (okay : Bool) (m : Machine) → Ensures (Led (m.thread.instr_pointer) m.flags) (taking okay m)
  unfolding taking
  taking-Led true m = returns is_done
  taking-Led false m = returns rejects

  -- On from a machine whose thread has moved forward, if at all.
  passing-Led :
      (okay : Bool) (a : ℕ) (flags : Bitmap) (m : Machine)
      → Led a flags (ThreadStatus.continue, m)
      → Ensures (Led a flags) (passing okay m)
  unfolding passing
  passing-Led true a flags m h = returns h
  passing-Led false a flags m h = returns rejects

  stays :
      (m : Machine)
      → starts (m.thread.instr_pointer) ≡ true
      → Led (m.thread.instr_pointer) m.flags (ThreadStatus.continue, m)
  stays m h = onward (omega arith) h (KeepsFlags-refl m.flags)

  jumps :
      (n : ℕ) (m : Machine)
      → (ltb (m.thread.instr_pointer + n) (2 ^ 64) && starts (m.thread.instr_pointer + n)) ≡ true
      → Led
          (m.thread.instr_pointer)
          m.flags
          (ThreadStatus.continue, jump_to (add_size (m.thread.instr_pointer) n) m)
  jumps n m h =
      let (small, starting) = both (ltb (m.thread.instr_pointer + n) (2 ^ 64)) _ h in
      let target : add_size (m.thread.instr_pointer) n ≡ m.thread.instr_pointer + n =
        ground arith in
      onward (omega arith) (ap starts target ∙ starting) (KeepsFlags-refl m.flags)

  test_class-Led :
      (bitmap : Option Bitmap) (character : Option ℕ) (m : Machine)
      → Ensures (Led (m.thread.instr_pointer) m.flags) (test_class bitmap character m)
  unfolding test_class
  test_class-Led none character m = faults
  test_class-Led (some bitmap) character m = taking-Led _ m

  split_thread-Led :
      (alloc : Bool) (target a : ℕ) (flags : Bitmap) (m : Machine)
      → Led a flags (ThreadStatus.continue, m)
      → Ensures (Led a flags) (split_thread alloc target m)
  unfolding split_thread
  split_thread-Led true target a flags m (onward h k l) = returns (onward h k l)
  split_thread-Led true target a flags m (back h k l) = returns (back h k l)
  split_thread-Led false target a flags m h = returns no_memory

  write_pointer-Led :
      (n str : ℕ) (m : Machine)
      → starts (m.thread.instr_pointer) ≡ true
      → Ensures (Led (m.thread.instr_pointer) m.flags) (passing true (write_pointer n str m))
  unfolding write_pointer passing
  write_pointer-Led n str m h =
      if_both
        (λ m'. Ensures (Led (m.thread.instr_pointer) m.flags) (ok (ThreadStatus.continue, m')))
        (ltb n (length (m.thread.pointers)))
        (returns (onward (omega arith) h (KeepsFlags-refl m.flags))) (returns (stays m h))

  test_flag-Fewer :
      (i : ℕ) (m : Machine)
      → starts (m.thread.instr_pointer) ≡ true
      → Ensures (Fewer (m.thread.instr_pointer) m.flags) (test_flag i m)
  unfolding test_flag passing bitmap_test_and_set
  test_flag-Fewer i m h =
      if_split (Ensures (Fewer (m.thread.instr_pointer) m.flags)) (ltb (i / 8) (length (m.flags)))
        (λ e.
          let kept = set_flag-KeepsFlags m.flags i (ground arith) in
          let set_now = sets_flag m.flags i (ground arith) in
          elim (Bool-cases (bitmap_test m.flags i)) [
            | inl set ↦ rw set (returns refused)
            | inr clear ↦ rw clear (
                returns (
                  fewer (omega arith) h kept (
                    unset-lt m.flags (bitmap_set m.flags i) kept (8 * length m.flags) i
                      (ground arith) clear set_now)))
          ])
        (λ _. faults)

  pub Fewer-Led :
      (a : ℕ) (flags : Bitmap) (r : ThreadStatus × Machine) → Fewer a flags r → Led a flags r
  Fewer-Led a flags _ refused = rejects
  Fewer-Led a flags _ (fewer h k l _) = onward h k l

  Led-le :
      (a b : ℕ) (flags : Bitmap)
      → a ≤ b
      → (r : ThreadStatus × Machine) → Led b flags r
      → Led a flags r
  Led-le a b flags h _ rejects = rejects
  Led-le a b flags h _ is_done = is_done
  Led-le a b flags h _ no_memory = no_memory
  Led-le a b flags h _ (onward k l kept) = onward (omega arith) l kept
  Led-le a b flags h _ (back k l kept) = back k l kept

  Fewer-le :
      (a b : ℕ) (flags : Bitmap)
      → a ≤ b
      → (r : ThreadStatus × Machine) → Fewer b flags r
      → Fewer a flags r
  Fewer-le a b flags h _ refused = refused
  Fewer-le a b flags h _ (fewer k l kept count) = fewer (omega arith) l kept count

  module _ (alloc : Bool) (str : ℕ) (character prev_character : Option ℕ) where
    run_case-Led :
        (op : Option Opcode) (n : ℕ) (m : Machine)
        → guards program starts op n (m.thread.instr_pointer) ≡ true
        → Ensures
            (Led (m.thread.instr_pointer) m.flags)
            (run_case program alloc str character prev_character op n m)
    unfolding run_case run_opcode guards guards_ahead guards_back
    run_case-Led none n m h = faults
    run_case-Led (some Opcode.character) n m h = taking-Led _ m
    run_case-Led (some Opcode.char_class) n m h = test_class-Led _ character m
    run_case-Led (some Opcode.builtin_char_class) n m h = test_class-Led _ character m
    run_case-Led (some Opcode.jump) n m h = returns (jumps n m h)
    run_case-Led (some Opcode.split_passive) n m h =
        split_thread-Led alloc _ _ _ m (stays m (both _ _ h).0)
    run_case-Led (some Opcode.split_eager) n m h =
        split_thread-Led alloc _ _ _ (jump_to _ m) (jumps n m (both _ _ h).1)
    run_case-Led (some Opcode.split_backwards_passive) n m h =
        split_thread-Led alloc _ _ _ m (stays m (both _ _ h).0)
    run_case-Led (some Opcode.split_backwards_eager) n m h =
        let (starting, flag) = both _ _ (both _ _ h).1 in
        split_thread-Led alloc _ _ _ (jump_to _ m) (back starting flag refl)
    run_case-Led (some Opcode.write_pointer) n m h = write_pointer-Led n str m h
    run_case-Led (some Opcode.test_and_set_flag) n m h =
        Ensures-weaken (Fewer-Led _ _) (test_flag-Fewer n m h)
    run_case-Led (some _) n m h = passing-Led _ _ _ m (stays m h)

    flag_case-Fewer :
        (op : Option Opcode) (n : ℕ) (m : Machine)
        → is_flag op ≡ true
        → guards program starts op n (m.thread.instr_pointer) ≡ true
        → Ensures
            (Fewer (m.thread.instr_pointer) m.flags)
            (run_case program alloc str character prev_character op n m)
    unfolding run_case run_opcode guards is_flag
    flag_case-Fewer (some Opcode.test_and_set_flag) n m k h = test_flag-Fewer n m h
    flag_case-Fewer none n m k h = cc
    flag_case-Fewer (some _) n m k h = cc

    -- A step at an instruction, and a step at a flag.
    pub run_fetched-Led :
        (rest : List ℕ) (o : Option Fetched) (m : Machine)
        → guards_fetched program starts (m.thread.instr_pointer) o ≡ true
        → Advances o
        → Ensures
            (Led (suc (m.thread.instr_pointer)) m.flags)
            (run_fetched program alloc str character prev_character rest o m)
    unfolding run_fetched guards_fetched
    run_fetched-Led rest none m h k = faults
    run_fetched-Led rest (some f) m h k =
        if_both (Ensures (Led (suc (m.thread.instr_pointer)) m.flags)) (ltb (length rest) (f.next))
          faults
          (Ensures-weaken (Led-le _ _ m.flags (omega arith)) (
            run_case-Led (get_elem? opcodes f.opcode) (f.operand)
              (jump_to (m.thread.instr_pointer + f.next) m) h))

    pub run_fetched-Fewer :
        (rest : List ℕ) (o : Option Fetched) (m : Machine)
        → guards_fetched program starts (m.thread.instr_pointer) o ≡ true
        → fetches_flag o ≡ true
        → Ensures
            (Fewer 0 m.flags)
            (run_fetched program alloc str character prev_character rest o m)
    unfolding run_fetched guards_fetched fetches_flag
    run_fetched-Fewer rest none m h k = faults
    run_fetched-Fewer rest (some f) m h k =
        if_both (Ensures (Fewer 0 m.flags)) (ltb (length rest) (f.next)) faults (
          Ensures-weaken (Fewer-le _ _ m.flags (omega arith)) (
            flag_case-Fewer (get_elem? opcodes f.opcode) (f.operand)
              (jump_to (m.thread.instr_pointer + f.next) m) k h))
