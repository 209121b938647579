-- ===== src/Vm/Match/Paid.antt =====
-- What a step of src/vm.c costs: the threads that it leaves weigh no more than those of before.
use crex.Base.{
  mul_mono, ℕ, suc, ◌+◌, ◌*◌, ◌/◌, ◌^◌, ◌≤◌, ◌<◌, ◌≡◌, refl, sym, ap, ◌∙◌, subst, Bool, true, false,
  Option, none, some, List, ◌∷◌, All, length, drop, get_elem?, ltb, if_both, if_split, Bool-cases,
  inl, inr, arith,
}
use native.Mathlib.Nat.{pow-suc}
use crex.Bitmap.{Bitmap, bitmap_test, bitmap_set, bitmap_test_and_set}
use crex.Status.{ok, undefined, Ensures, Ensures-weaken, returns, faults}
use crex.Bytecode.{Opcode, Fetched, fetch}
use crex.Vm.{
  Thread, Program, Machine, ThreadStatus, add_size, sub_size, opcodes, taking, passing, test_class,
  jump_to, split_thread, write_pointer, test_flag, run_opcode, run_case, run_fetched, step_thread,
}
use crex.Vm.Threads.{KeepsFlags, KeepsFlags-refl, set_flag-KeepsFlags}
use crex.Vm.Run.Guard.{
  is_flag, fetches_flag, guards, guards_ahead, guards_back, guards_fetched, is_guarded, guarded_at,
  drop_all,
}
use crex.Vm.Run.Flags.{unset, unset-lt, KeepsFlags-unset}
use crex.Vm.Run.Led.{both, sets_flag, Advances, fetch-Advances}
use crex.Vm.Match.Weights.{
  weight_of, weight, weights, load, weight_pos, weight-le, weight_ahead, half_weight,
}

module _ (program : Program) (starts : ℕ → Bool) (bound : ℕ) where
  -- A thread stands at an instruction.
  abbrev pub Ready : Thread → Type 0
  Ready t = starts t.instr_pointer ≡ true

  -- The threads of a machine, with the running one, and those behind it.
  abbrev pub load_all : Machine → ℕ
  load_all m = load program bound m.flags (m.thread ∷ m.successors)

  abbrev pub load_behind : Machine → ℕ
  load_behind m = load program bound m.flags m.successors

  -- From a machine, with so much for its running thread.
  pub record Paid (budget : ℕ) (m : Machine) (r : ThreadStatus × Machine) : Type 0 where
    pub ready : Ready r.1.thread
    pub waiting : All Ready r.1.successors
    pub kept : KeepsFlags m.flags r.1.flags
    pub behind : load_behind r.1 + 1 ≤ load_behind m + budget
    pub continued : r.0 ≡ ThreadStatus.continue → load_all r.1 ≤ load_behind m + budget

  -- A machine that has only moved its running thread.
  moved :
      (budget : ℕ) (s : ThreadStatus) (m m' : Machine)
      → Ready m'.thread
      → All Ready m.successors
      → m'.successors ≡ m.successors
      → m'.flags ≡ m.flags
      → weight program m'.thread.instr_pointer ≤ budget
      → Paid budget m (s, m')
  unfolding weights
  moved budget s m m' h k e f l =
      let pos = weight_pos program m'.thread.instr_pointer in
      record {
        ready = h;
        waiting = subst (All Ready) (sym e) k;
        kept = subst (KeepsFlags m.flags) (sym f) (KeepsFlags-refl m.flags);
        behind = rw (e, f) (omega arith);
        continued = λ _. rw (e, f) (omega arith);
      }

  passing-Paid :
      (okay : Bool) (budget : ℕ) (m m' : Machine)
      → Paid budget m (ThreadStatus.continue, m')
      → Ensures (Paid budget m) (passing okay m')
  unfolding passing
  passing-Paid true budget m m' h = returns h
  passing-Paid false budget m m' h = returns (record {
    ready = h.ready;
    waiting = h.waiting;
    kept = h.kept;
    behind = h.behind;
    continued = λ e. cc;
  })

  taking-Paid :
      (okay : Bool) (budget : ℕ) (m m' : Machine)
      → Paid budget m (ThreadStatus.done, m')
      → Ensures (Paid budget m) (taking okay m')
  unfolding taking
  taking-Paid true budget m m' h = returns h
  taking-Paid false budget m m' h = returns (record {
    ready = h.ready;
    waiting = h.waiting;
    kept = h.kept;
    behind = h.behind;
    continued = λ e. cc;
  })

  test_class-Paid :
      (bitmap : Option Bitmap) (character : Option ℕ) (budget : ℕ) (m m' : Machine)
      → Paid budget m (ThreadStatus.done, m')
      → Ensures (Paid budget m) (test_class bitmap character m')
  unfolding test_class
  test_class-Paid none character budget m m' h = faults
  test_class-Paid (some bitmap) character budget m m' h = taking-Paid _ budget m m' h

  -- A split of a thread that has gone to `a`, with a new one at `target`.
  split_thread-Paid :
      (alloc : Bool) (a target budget : ℕ) (m : Machine)
      → starts a ≡ true
      → starts target ≡ true
      → All Ready m.successors
      → weight program a + weight program target ≤ budget
      → Ensures (Paid budget m) (split_thread alloc target (jump_to a m))
  unfolding split_thread weights
  split_thread-Paid false a target budget m h k l w =
      returns (moved budget ThreadStatus.e_nomem m (jump_to a m) h l refl refl (omega arith))
  split_thread-Paid true a target budget m h k l w =
      let pos = weight_pos program a in
      returns (record {
        ready = h;
        waiting = (k, l);
        kept = KeepsFlags-refl m.flags;
        behind = omega arith;
        continued = λ _. omega arith;
      })

  write_pointer-Paid :
      (n str budget : ℕ) (m : Machine)
      → Ready m.thread
      → All Ready m.successors
      → weight program m.thread.instr_pointer ≤ budget
      → Ensures (Paid budget m) (passing true (write_pointer n str m))
  unfolding write_pointer passing
  write_pointer-Paid n str budget m h k w =
      if_both (λ m'. Ensures (Paid budget m) (ok (ThreadStatus.continue, m')))
        (ltb n (length (m.thread.pointers)))
        (returns (moved budget ThreadStatus.continue m _ h k refl refl w))
        (returns (moved budget ThreadStatus.continue m _ h k refl refl w))

  -- A flag that is set pays for the thread that it lets pass.
  test_flag-Paid :
      (i : ℕ) (m : Machine)
      → bound ≡ 8 * length m.flags
      → Ready m.thread
      → All Ready m.successors
      → Ensures (Paid 1 m) (test_flag i m)
  unfolding test_flag passing bitmap_test_and_set weights
  test_flag-Paid i m b h k =
      if_split (Ensures (Paid 1 m)) (ltb (i / 8) (length (m.flags)))
        (λ e.
          let kept = set_flag-KeepsFlags m.flags i (ground arith) in
          let set_now = sets_flag m.flags i (ground arith) in
          let fewer =
            mul_mono (unset bound (bitmap_set m.flags i)) (unset bound m.flags)
              (2 ^ suc (suc (length program.code)))
              (KeepsFlags-unset m.flags (bitmap_set m.flags i) kept bound) in
          elim (Bool-cases (bitmap_test m.flags i)) [
            | inl set ↦ rw set (
                returns (record {
                  ready = h;
                  waiting = k;
                  kept = kept;
                  behind = omega arith;
                  continued = λ e. cc;
                }))
            | inr clear ↦ rw clear (
                returns (record {
                  ready = h;
                  waiting = k;
                  kept = kept;
                  behind = omega arith;
                  continued = λ _.
                      let less =
                        unset-lt m.flags (bitmap_set m.flags i) kept bound i (ground arith) clear
                          set_now in
                      omega (
                        arith,
                        mul_mono (suc (unset bound (bitmap_set m.flags i))) (unset bound m.flags)
                            (2 ^ suc (suc (length program.code))) less,
                        weight-le program m.thread.instr_pointer,
                        pow-suc 2 (suc (length program.code)),
                      );
                }))
          ])
        (λ _. faults)

  flag_weight : (a : ℕ) → fetches_flag (fetch (drop a program.code)) ≡ true → weight program a ≡ 1
  unfolding weight weight_of
  flag_weight a h = rw h refl

  -- The targets that the guards allow.
  ahead_Ready :
      (n next : ℕ)
      → guards_ahead program starts n next ≡ true
      → (starts (add_size next n) ≡ true) × (next ≤ add_size next n)
  unfolding guards_ahead
  ahead_Ready n next g =
      let (small, starting) = both (ltb (next + n) (2 ^ 64)) (starts (next + n)) g in
      let target : add_size next n ≡ next + n = ground arith in
      (ap starts target ∙ starting, omega arith)

  back_Ready :
      (n next : ℕ)
      → guards_back program starts n next ≡ true
      → (starts (sub_size next n) ≡ true) × (weight program (sub_size next n) ≡ 1)
  unfolding guards_back
  back_Ready n next g =
      let (starting, flag) = both (starts (sub_size next n)) _ g in
      (starting, flag_weight (sub_size next n) flag)

  module _ (alloc : Bool) (str : ℕ) (character prev_character : Option ℕ) where
    -- An instruction that is no flag: each of the threads that go on is ahead, and weighs at most
    -- half the budget, or is at a flag.
    run_case-Paid :
        (op : Option Opcode) (n half : ℕ) (m : Machine)
        → is_flag op ≡ false
        → guards program starts op n (m.thread.instr_pointer) ≡ true
        → All Ready m.successors
        → ((a : ℕ) → m.thread.instr_pointer ≤ a → weight program a ≤ half)
        → Ensures (Paid (2 * half) m) (run_case program alloc str character prev_character op n m)
    unfolding run_case run_opcode guards is_flag
    run_case-Paid none n half m f g k w = faults
    run_case-Paid (some Opcode.character) n half m f g k w =
        let light = w (m.thread.instr_pointer) (omega arith) in
        taking-Paid _ _ m m (moved _ ThreadStatus.done m m g k refl refl (omega arith))
    run_case-Paid (some Opcode.char_class) n half m f g k w =
        let light = w (m.thread.instr_pointer) (omega arith) in
        test_class-Paid _ character _ m m
          (moved _ ThreadStatus.done m m g k refl refl (omega arith))
    run_case-Paid (some Opcode.builtin_char_class) n half m f g k w =
        let light = w (m.thread.instr_pointer) (omega arith) in
        test_class-Paid _ character _ m m
          (moved _ ThreadStatus.done m m g k refl refl (omega arith))
    run_case-Paid (some Opcode.jump) n half m f g k w =
        let (h, l) = ahead_Ready n (m.thread.instr_pointer) g in
        let light = w (add_size (m.thread.instr_pointer) n) l in
        passing-Paid true _ m _
          (moved _ ThreadStatus.continue m (jump_to _ m) h k refl refl (omega arith))
    run_case-Paid (some Opcode.split_passive) n half m f g k w =
        let (h, g') = both (starts (m.thread.instr_pointer)) _ g in
        let (h', l) = ahead_Ready n (m.thread.instr_pointer) g' in
        let light = w (m.thread.instr_pointer) (omega arith) in
        let light' = w (add_size (m.thread.instr_pointer) n) l in
        split_thread-Paid alloc (m.thread.instr_pointer) (add_size (m.thread.instr_pointer) n) _ m h
          h' k (omega arith)
    run_case-Paid (some Opcode.split_eager) n half m f g k w =
        let (h, g') = both (starts (m.thread.instr_pointer)) _ g in
        let (h', l) = ahead_Ready n (m.thread.instr_pointer) g' in
        let light = w (m.thread.instr_pointer) (omega arith) in
        let light' = w (add_size (m.thread.instr_pointer) n) l in
        split_thread-Paid alloc (add_size (m.thread.instr_pointer) n) (m.thread.instr_pointer) _ m
          h' h k (omega arith)
    run_case-Paid (some Opcode.split_backwards_passive) n half m f g k w =
        let (h, g') = both (starts (m.thread.instr_pointer)) _ g in
        let (h', l) = back_Ready n (m.thread.instr_pointer) g' in
        let light = w (m.thread.instr_pointer) (omega arith) in
        let pos = weight_pos program (m.thread.instr_pointer) in
        split_thread-Paid alloc (m.thread.instr_pointer) (sub_size (m.thread.instr_pointer) n) _ m h
          h' k (omega arith)
    run_case-Paid (some Opcode.split_backwards_eager) n half m f g k w =
        let (h, g') = both (starts (m.thread.instr_pointer)) _ g in
        let (h', l) = back_Ready n (m.thread.instr_pointer) g' in
        let light = w (m.thread.instr_pointer) (omega arith) in
        let pos = weight_pos program (m.thread.instr_pointer) in
        split_thread-Paid alloc (sub_size (m.thread.instr_pointer) n) (m.thread.instr_pointer) _ m
          h' h k (omega arith)
    run_case-Paid (some Opcode.write_pointer) n half m f g k w =
        let light = w (m.thread.instr_pointer) (omega arith) in
        write_pointer-Paid n str _ m g k (omega arith)
    run_case-Paid (some Opcode.test_and_set_flag) n half m f g k w = cc
    run_case-Paid (some _) n half m f g k w =
        let light = w (m.thread.instr_pointer) (omega arith) in
        passing-Paid _ _ m m (moved _ ThreadStatus.continue m m g k refl refl (omega arith))

    flag_case-Paid :
        (op : Option Opcode) (n : ℕ) (m : Machine)
        → is_flag op ≡ true
        → guards program starts op n (m.thread.instr_pointer) ≡ true
        → bound ≡ 8 * length m.flags
        → All Ready m.successors
        → Ensures (Paid 1 m) (run_case program alloc str character prev_character op n m)
    unfolding run_case run_opcode guards is_flag
    flag_case-Paid (some Opcode.test_and_set_flag) n m f g b k = test_flag-Paid n m b g k
    flag_case-Paid none n m f g b k = cc
    flag_case-Paid (some _) n m f g b k = cc

    from_jump :
        (a budget : ℕ) (m : Machine) (r : ThreadStatus × Machine)
        → Paid budget (jump_to a m) r
        → Paid budget m r
    from_jump a budget m r h = record {
      ready = h.ready;
      waiting = h.waiting;
      kept = h.kept;
      behind = h.behind;
      continued = h.continued;
    }

    run_fetched-Paid :
        (rest : List ℕ) (o : Option Fetched) (m : Machine)
        → guards_fetched program starts (m.thread.instr_pointer) o ≡ true
        → Advances o
        → m.thread.instr_pointer < length program.code
        → bound ≡ 8 * length m.flags
        → All Ready m.successors
        → Ensures
            (Paid (weight_of program (m.thread.instr_pointer) o) m)
            (run_fetched program alloc str character prev_character rest o m)
    unfolding run_fetched guards_fetched weight_of fetches_flag
    run_fetched-Paid rest none m g v l b k = faults
    run_fetched-Paid rest (some f) m g v l b k =
        let next = m.thread.instr_pointer + f.next in
        let op = get_elem? opcodes f.opcode in
        if_both (Ensures (Paid (weight_of program (m.thread.instr_pointer) (some f)) m))
          (ltb (length rest) (f.next)) faults
          (Ensures-weaken (from_jump next _ m) (elim (Bool-cases (is_flag op)) [
            | inl e ↦ rw e (flag_case-Paid op (f.operand) (jump_to next m) e g b k)
            | inr e ↦
                rw (e, half_weight program (m.thread.instr_pointer))
                  (run_case-Paid op (f.operand) _ (jump_to next m) e g k
                    (λ a h. weight_ahead program (m.thread.instr_pointer) a l (omega arith)))
          ]))

    step_outside :
        (m : Machine)
        → length program.code ≤ m.thread.instr_pointer
        → step_thread program alloc str character prev_character m ≡ undefined
    unfolding step_thread fetch run_fetched
    step_outside m h = rw (drop_all (m.thread.instr_pointer) program.code h) refl

    pub step_thread-Paid :
        (m : Machine)
        → is_guarded program starts ≡ true
        → Ready m.thread
        → All Ready m.successors
        → bound ≡ 8 * length m.flags
        → Ensures
            (Paid (weight program (m.thread.instr_pointer)) m)
            (step_thread program alloc str character prev_character m)
    unfolding step_thread weight
    step_thread-Paid m g h k b =
        elim (Bool-cases (ltb (m.thread.instr_pointer) (length program.code))) [
          | inl e ↦
              run_fetched-Paid _ _ m (guarded_at program starts (m.thread.instr_pointer) g h)
                (fetch-Advances _) (ground arith) b k
          | inr e ↦
              subst (Ensures (Paid (weight program (m.thread.instr_pointer)) m))
                (sym (step_outside m (ground arith))) faults
        ]
