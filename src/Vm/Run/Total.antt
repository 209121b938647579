-- ===== src/Vm/Run/Total.antt =====
-- The loop over one thread in `run_threads` of src/vm.c ends: only a split runs backwards, and it leads
-- to a flag, which stops the thread unless it was not yet set.
use crex.Base.{
  mul_mono, ℕ, zero, suc, ◌+◌, ◌-◌, ◌*◌, ◌≤◌, ◌<◌, ◌≡◌, ◌≢◌, sym, subst, Bool, true, false, Option,
  length, drop, ltb, ◌==◌, Bool-cases, inl, inr, arith,
}
use crex.Bitmap.{Bitmap}
use crex.Status.{ok, ◌>>=◌, Ensures, Ensures-bind, returns, faults}
use crex.Bytecode.{fetch}
use crex.Vm.{Program, Machine, ThreadStatus, Stepped, run_fetched, step_thread}
use crex.Vm.Threads.{KeepsFlags}
use crex.Vm.Run.Guard.{fetches_flag, is_guarded, drop_all, guarded_at}
use crex.Vm.Run.Led.{
  Led, rejects, is_done, no_memory, onward, back, Fewer, refused, fewer, fetch-Advances,
  run_fetched-Led, run_fetched-Fewer,
}
use crex.Vm.Run.{run_on, run_thread}
use crex.Vm.Run.Flags.{unset, KeepsFlags-unset}

module _ (program : Program) (starts : ℕ → Bool) where
  -- The loop has ended, and not because the fuel did.
  abbrev pub Stopped : Stepped → Type 0
  Stopped = Ensures (λ r. r.0 ≢ ThreadStatus.continue)

  module _ (alloc : ℕ → Bool) (str : ℕ) (character prev_character : Option ℕ)
      (g : is_guarded program starts ≡ true) where
    abbrev loop : ℕ → Machine → Stepped
    loop = run_thread program alloc str character prev_character

    run_on-Led :
        (fuel a : ℕ) (flags : Bitmap) (r : ThreadStatus × Machine)
        → Led program starts a flags r
        → ((m : Machine)
            → a ≤ m.thread.instr_pointer
            → starts (m.thread.instr_pointer) ≡ true
            → KeepsFlags flags m.flags
            → Stopped (loop fuel m))
        → ((m : Machine)
            → starts (m.thread.instr_pointer) ≡ true
            → fetches_flag (fetch (drop (m.thread.instr_pointer) program.code)) ≡ true
            → m.flags ≡ flags
            → Stopped (loop fuel m))
        → Stopped (run_on (loop fuel) r.0 r.1)
    unfolding run_on
    run_on-Led fuel a flags _ rejects next flagged = returns (λ e. cc)
    run_on-Led fuel a flags _ is_done next flagged = returns (λ e. cc)
    run_on-Led fuel a flags _ no_memory next flagged = returns (λ e. cc)
    run_on-Led fuel a flags _ (onward h k l) next flagged = next _ h k l
    run_on-Led fuel a flags _ (back h k l) next flagged = flagged _ h k l

    run_on-Fewer :
        (fuel a : ℕ) (flags : Bitmap) (r : ThreadStatus × Machine)
        → Fewer program starts a flags r
        → ((m : Machine)
            → starts (m.thread.instr_pointer) ≡ true
            → KeepsFlags flags m.flags
            → unset (8 * length flags) m.flags < unset (8 * length flags) flags
            → Stopped (loop fuel m))
        → Stopped (run_on (loop fuel) r.0 r.1)
    unfolding run_on
    run_on-Fewer fuel a flags _ refused next = returns (λ e. cc)
    run_on-Fewer fuel a flags _ (fewer h k l count) next = next _ k l count

    -- The fuel that is enough at an address with so many flags left to set.
    abbrev enough : ℕ → ℕ → ℕ
    enough left a = left * (length program.code + 3) + (length program.code - a) + 2

    step_ahead :
        (fuel bound : ℕ) (m m' : Machine)
        → KeepsFlags m.flags m'.flags
        → m.thread.instr_pointer < length program.code
        → suc (m.thread.instr_pointer) ≤ m'.thread.instr_pointer
        → enough (unset bound m.flags) (m.thread.instr_pointer) ≤ suc fuel
        → enough (unset bound m'.flags) (m'.thread.instr_pointer) ≤ fuel
    step_ahead fuel bound m m' k h l e = omega (
      arith,
      mul_mono (unset bound m'.flags) (unset bound m.flags) (length program.code + 3)
          (KeepsFlags-unset m.flags m'.flags k bound),
    )

    step_at_flag :
        (fuel bound : ℕ) (m m' : Machine)
        → unset bound m'.flags < unset bound m.flags
        → unset bound m.flags * (length program.code + 3) + 1 ≤ suc fuel
        → enough (unset bound m'.flags) (m'.thread.instr_pointer) ≤ fuel
    step_at_flag fuel bound m m' h e = omega (
      arith,
      mul_mono (suc (unset bound m'.flags)) (unset bound m.flags) (length program.code + 3) h,
    )

    step_thread-Led :
        (allocates : Bool) (m : Machine)
        → starts (m.thread.instr_pointer) ≡ true
        → Ensures
            (Led program starts (suc (m.thread.instr_pointer)) m.flags)
            (step_thread program allocates str character prev_character m)
    unfolding step_thread
    step_thread-Led allocates m h =
        run_fetched-Led program starts allocates str character prev_character _ _ m
          (guarded_at program starts (m.thread.instr_pointer) g h) (fetch-Advances _)

    step_thread-Fewer :
        (allocates : Bool) (m : Machine)
        → starts (m.thread.instr_pointer) ≡ true
        → fetches_flag (fetch (drop (m.thread.instr_pointer) program.code)) ≡ true
        → Ensures
            (Fewer program starts 0 m.flags)
            (step_thread program allocates str character prev_character m)
    unfolding step_thread
    step_thread-Fewer allocates m h k =
        run_fetched-Fewer program starts allocates str character prev_character _ _ m
          (guarded_at program starts (m.thread.instr_pointer) g h) k

    step_outside :
        (allocates : Bool) (m : Machine) (f : ThreadStatus × Machine → Stepped)
        → length program.code ≤ m.thread.instr_pointer
        → Stopped (step_thread program allocates str character prev_character m >>= f)
    unfolding step_thread fetch run_fetched
    step_outside allocates m f h = rw (drop_all (m.thread.instr_pointer) program.code h) faults

    -- A round, by what is left of it behind the step.
    round :
        (fuel : ℕ) (m : Machine)
        → Stopped (
            step_thread program (alloc fuel) str character prev_character m >>= λ (status, m').
            run_on
              (λ m''. run_thread program alloc str character prev_character fuel m'')
              status
              m')
        → Stopped (run_thread program alloc str character prev_character (suc fuel) m)
    unfolding run_thread
    round fuel m h = go (m.thread.instr_pointer == length program.code)
      where
        go :
            (b : Bool)
            → Stopped (elim b [
              | true ↦ ok (ThreadStatus.matched, m)
              | false ↦
                  step_thread program (alloc fuel) str character prev_character m
                  >>= λ (status, m').
                      run_on
                        (λ m''. run_thread program alloc str character prev_character fuel m'')
                        status
                        m'
            ])
        go true = returns (λ p. cc)
        go false = h

    mutual
      ends :
          (fuel : ℕ) (m : Machine)
          → starts (m.thread.instr_pointer) ≡ true
          → enough (unset (8 * length m.flags) m.flags) (m.thread.instr_pointer) ≤ fuel
          → Stopped (loop fuel m)
      ends zero m h e = absurd (omega arith)
      ends (suc fuel) m h e =
          round fuel m (elim (Bool-cases (ltb (m.thread.instr_pointer) (length program.code))) [
            | inr out ↦ step_outside (alloc fuel) m _ (ground arith)
            | inl in_code ↦ Ensures-bind (step_thread-Led (alloc fuel) m h) (λ r led.
                run_on-Led fuel _ m.flags r led
                  (λ m' ahead starting kept. ends fuel m' starting (
                    subst (λ l. enough (unset (8 * l) m'.flags) (m'.thread.instr_pointer) ≤ fuel)
                      (sym kept.sized)
                      (step_ahead fuel (8 * length m.flags) m m' kept (ground arith) ahead e)))
                  (λ m' starting flag same. ends_at_flag fuel m' starting flag (
                    subst
                      (λ (flags : Bitmap).
                        unset (8 * length flags) flags * (length program.code + 3) + 1 ≤ fuel)
                      (sym same) (omega arith))))
          ])

      ends_at_flag :
          (fuel : ℕ) (m : Machine)
          → starts (m.thread.instr_pointer) ≡ true
          → fetches_flag (fetch (drop (m.thread.instr_pointer) program.code)) ≡ true
          → unset (8 * length m.flags) m.flags * (length program.code + 3) + 1 ≤ fuel
          → Stopped (loop fuel m)
      ends_at_flag zero m h k e = absurd (omega arith)
      ends_at_flag (suc fuel) m h k e = round fuel m (
          Ensures-bind (step_thread-Fewer (alloc fuel) m h k) (λ r led.
            run_on-Fewer fuel _ m.flags r led (λ m' starting kept count. ends fuel m' starting (
              subst (λ l. enough (unset (8 * l) m'.flags) (m'.thread.instr_pointer) ≤ fuel)
                (sym kept.sized) (step_at_flag fuel (8 * length m.flags) m m' count e)))))

    -- The loop over one thread never runs out of fuel, and never ends with the status to go on. The
    -- thread starts at an instruction of a guarded program, whose backwards splits lead to flags,
    -- and the fuel lets each flag that is left to set send it back through the code once.
    pub run_thread-Stopped :
        (fuel : ℕ) (m : Machine)
        → starts (m.thread.instr_pointer) ≡ true
        → unset (8 * length m.flags) m.flags * (length program.code + 3)
            + (length program.code - m.thread.instr_pointer)
            + 2
          ≤ fuel
        → Stopped (run_thread program alloc str character prev_character fuel m)
    run_thread-Stopped fuel m h e = ends fuel m h e
