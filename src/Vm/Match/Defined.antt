-- ===== src/Vm/Match/Defined.antt =====
-- `run_threads` of src/vm.c reads and writes nothing out of bounds, for a sound program.
use crex.Base.{
  ℕ, zero, suc, ◌*◌, ◌≡◌, ◌≢◌, refl, sym, ap, ◌∙◌, Bool, true, false, ◌&&◌, Option, List, [], ◌∷◌,
  length, ◌==◌, Bool-cases, inl, inr, arith,
}
use crex.Bitmap.{Bitmap, bitmap_clear}
use crex.Bitmap.Laws.{length-bitmap_clear}
use crex.Status.{ok, Ensures-Allows, IsDefined, IsDefined-bind, value, no_fuel}
use crex.Vm.{Thread, Program, Machine, ThreadStatus, Stepped}
use crex.Vm.Run.{run_on, run_thread}
use crex.Vm.Run.Guard.{is_guarded}
use crex.Vm.Run.Sound.{IsSound, step_thread-IsDefined}
use crex.Vm.Match.Paid.{Ready, step_thread-Paid}
use crex.Vm.Match.Total.{AllReady, run_thread-ends}
use crex.Vm.Match.{
  Vm, VmStatus, Visited, new_thread, after_thread, steps_for, visits_for, visit_threads,
  run_threads, is_some, is_empty,
}

run_on-IsDefined :
    (again : Machine → Stepped) (s : ThreadStatus) (m : Machine)
    → IsDefined (again m)
    → IsDefined (run_on again s m)
unfolding run_on
run_on-IsDefined again ThreadStatus.continue m h = h
run_on-IsDefined again ThreadStatus.rejected m h = value
run_on-IsDefined again ThreadStatus.matched m h = value
run_on-IsDefined again ThreadStatus.done m h = value
run_on-IsDefined again ThreadStatus.e_nomem m h = value

after_thread-IsDefined :
    (again : Bitmap → List Thread → List Thread → Visited) (vm : Vm) (before : List Thread)
    (s : ThreadStatus) (m : Machine)
    → s ≢ ThreadStatus.continue
    → ((before' : List Thread) → IsDefined (again m.flags before' m.successors))
    → IsDefined (after_thread again vm before s m)
unfolding after_thread
after_thread-IsDefined again vm before ThreadStatus.rejected m n next = next before
after_thread-IsDefined again vm before ThreadStatus.done m n next = next _
after_thread-IsDefined again vm before ThreadStatus.matched m n next = value
after_thread-IsDefined again vm before ThreadStatus.e_nomem m n next = value
after_thread-IsDefined again vm before ThreadStatus.continue m n next = absurd (n refl)

module _ (program : Program) (starts : ℕ → Bool) (g : is_guarded program starts ≡ true) (size : ℕ)
    (s : IsSound program starts size) where
  run_thread-IsDefined :
      (alloc : ℕ → Bool) (str : ℕ) (character prev_character : Option ℕ) (fuel : ℕ) (m : Machine)
      → Ready program starts 0 m.thread
      → AllReady program starts g m.successors
      → length m.flags ≡ size
      → IsDefined (run_thread program alloc str character prev_character fuel m)
  unfolding run_thread
  run_thread-IsDefined alloc str character prev_character zero m h k e = no_fuel
  run_thread-IsDefined alloc str character prev_character (suc fuel) m h k e =
      elim (Bool-cases (m.thread.instr_pointer == length program.code)) [
        | inl at_end ↦ rw (run_thread, at_end) value
        | inr inside ↦
            let ahead = s.ahead m.thread.instr_pointer h in
            rw (run_thread, inside)
              (IsDefined-bind
                (step_thread-IsDefined program (alloc fuel) str character prev_character size starts
                  m s h (ground arith) e)
                (Ensures-Allows (
                  step_thread-Paid program starts (8 * size) (alloc fuel) str character
                    prev_character m g h k (ap (λ l. 8 * l) (sym e))))
                (λ (t, m') p.
                  run_on-IsDefined
                    (λ m''. run_thread program alloc str character prev_character fuel m'') t m'
                    (run_thread-IsDefined alloc str character prev_character fuel m' p.ready
                      p.waiting (p.kept.sized ∙ e))))
      ]

  module _ (alloc : ℕ → ℕ → Bool) (room : Bool) (str : ℕ) (character prev_character : Option ℕ)
      (h₀ : starts 0 ≡ true) where
    abbrev VisitsSoundly : ℕ → Type 0
    VisitsSoundly fuel =
        (vm : Vm) (before threads : List Thread) (spawned : Bool)
        → AllReady program starts g threads
        → length vm.flags ≡ size
        → IsDefined (
            visit_threads program alloc room str character prev_character fuel vm before threads
              spawned)

    spawns :
        (fuel : ℕ) (vm : Vm) (before : List Thread) (matched can : Bool)
        → length vm.flags ≡ size
        → VisitsSoundly fuel
        → IsDefined {A = VmStatus × Vm} (elim matched [
          | true ↦ ok (VmStatus.continue, record vm { threads = before })
          | false ↦ elim can [
            | true ↦
                visit_threads program alloc room str character prev_character fuel vm before
                  (new_thread vm.n_pointers ∷ [])
                  true
            | false ↦ ok (VmStatus.e_nomem, record vm { threads = before })
          ]
        ])
    unfolding new_thread
    spawns fuel vm before true can e next = value
    spawns fuel vm before false false e next = value
    spawns fuel vm before false true e next =
        next vm before (new_thread vm.n_pointers ∷ []) true (h₀, tt) e

    visit_threads-IsDefined : (fuel : ℕ) → VisitsSoundly fuel
    unfolding visit_threads
    visit_threads-IsDefined zero vm before threads spawned h e = no_fuel
    visit_threads-IsDefined (suc fuel) vm before [] true h e = value
    visit_threads-IsDefined (suc fuel) vm before [] false h e =
        spawns fuel vm before (is_some vm.matched_thread) room e (visit_threads-IsDefined fuel)
    visit_threads-IsDefined (suc fuel) vm before (t ∷ ts) spawned h e =
        IsDefined-bind
          (run_thread-IsDefined (alloc fuel) str character prev_character
            (steps_for program vm.flags) (record { thread = t; successors = ts; flags = vm.flags })
            h.0 h.1 e)
          (Ensures-Allows (
            run_thread-ends program starts g alloc room str character prev_character h₀ fuel
              (record { thread = t; successors = ts; flags = vm.flags }) h.0 h.1))
          (λ (r, m) (n, f).
            after_thread-IsDefined
              (λ flags before' threads'.
                visit_threads program alloc room str character prev_character fuel
                  (record vm { flags = flags }) before' threads' spawned)
              vm before r m n
              (λ before'.
                visit_threads-IsDefined fuel (record vm { flags = m.flags }) before' m.successors
                  spawned f.waiting (f.kept.sized ∙ e)))

    pub run_threads-IsDefined :
        (vm : Vm)
        → AllReady program starts g vm.threads
        → length vm.flags ≡ size
        → IsDefined (run_threads program alloc room str character prev_character vm)
    unfolding run_threads
    run_threads-IsDefined vm h e =
        go (bitmap_clear vm.flags (length vm.flags))
          (is_empty vm.threads && is_some vm.matched_thread)
          (length-bitmap_clear vm.flags (length vm.flags) ∙ e)
      where
        go :
            (clear : Bitmap) (t : Bool)
            → length clear ≡ size
            → IsDefined {A = VmStatus × Vm} (elim t [
              | true ↦ ok (VmStatus.done, record vm { flags = clear })
              | false ↦
                  visit_threads program alloc room str character prev_character
                    (visits_for program (record vm { flags = clear }))
                    (record vm { flags = clear })
                    []
                    vm.threads
                    false
            ])
        go clear true k = value
        go clear false k =
            visit_threads-IsDefined _ (record vm { flags = clear }) [] vm.threads false h k
