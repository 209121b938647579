-- ===== src/Vm/Match/Total.antt =====
-- The loop of `run_threads` of src/vm.c over the threads ends, for a program that is guarded.
use crex.Base.{
  mul_mono, ℕ, zero, suc, ◌+◌, ◌*◌, ◌^◌, ◌≤◌, ◌≡◌, ◌≢◌, refl, sym, ◌∙◌, subst, Bool, true, false,
  ◌&&◌, Option, List, [], ◌∷◌, All, All-append, length, ◌==◌, if_both, arith,
}
use crex.Bitmap.{Bitmap, bitmap_clear}
use crex.Bitmap.Laws.{length-bitmap_clear}
use crex.Status.{ok, Ensures, Ensures-bind, Ensures-weaken, Ensures-both, returns}
use crex.Vm.{Thread, Program, Machine, ThreadStatus}
use crex.Vm.Run.{run_thread}
use crex.Vm.Run.Guard.{is_guarded}
use crex.Vm.Run.Flags.{unset, unset-le}
use crex.Vm.Run.Total.{run_thread-Stopped}
use crex.Vm.Match.Weights.{weights, load, weight-le}
use crex.Vm.Match.Paid.{Ready}
use crex.Vm.Match.Ends.{Finished, run_thread-Finished}
use crex.Vm.Match.{
  Vm, VmStatus, Visited, new_thread, on_match, after_thread, steps_for, visits_for, visit_threads,
  run_threads, is_some, is_empty,
}

module _ (program : Program) (starts : ℕ → Bool) (g : is_guarded program starts ≡ true) where
  -- Every thread stands at an instruction, and the flags keep their size.
  abbrev pub AllReady : List Thread → Type 0
  AllReady = All (Ready program starts 0)

  pub record Visits (vm : Vm) (r : VmStatus × Vm) : Type 0 where
    pub ready : AllReady r.1.threads
    pub sized : length r.1.flags ≡ length vm.flags
    pub pointers : r.1.n_pointers ≡ vm.n_pointers

  on_match-Visits :
      (vm vm' : Vm) (before : List Thread) (m : Machine)
      → AllReady before
      → AllReady (m.thread ∷ m.successors)
      → length m.flags ≡ length vm.flags
      → vm'.n_pointers ≡ vm.n_pointers
      → Visits vm (on_match vm' before m)
  unfolding on_match
  on_match-Visits vm vm' before m b h k e =
      if_both (Visits vm) (vm'.n_pointers == 0)
        (record {
          ready = All-append (Ready program starts 0) before (m.thread ∷ m.successors) b h;
          sized = k;
          pointers = e;
        })
        (record { ready = b; sized = k; pointers = e })

  after_thread-Visits :
      (again : Bitmap → List Thread → List Thread → Visited) (vm : Vm) (before : List Thread)
      (s : ThreadStatus) (m : Machine)
      → s ≢ ThreadStatus.continue
      → AllReady before
      → AllReady (m.thread ∷ m.successors)
      → length m.flags ≡ length vm.flags
      → ((before' : List Thread)
          → AllReady before'
          → Ensures (Visits vm) (again m.flags before' m.successors))
      → Ensures (Visits vm) (after_thread again vm before s m)
  unfolding after_thread
  after_thread-Visits again vm before ThreadStatus.rejected m n b h k next = next before b
  after_thread-Visits again vm before ThreadStatus.done m n b h k next =
      next _ (All-append (Ready program starts 0) before (m.thread ∷ []) b (h.0, tt))
  after_thread-Visits again vm before ThreadStatus.matched m n b h k next =
      returns (on_match-Visits vm vm before m b h k refl)
  after_thread-Visits again vm before ThreadStatus.e_nomem m n b h k next = returns (record {
    ready = All-append (Ready program starts 0) before (m.thread ∷ m.successors) b h;
    sized = k;
    pointers = refl;
  })
  after_thread-Visits again vm before ThreadStatus.continue m n b h k next = absurd (n refl)

  -- What a thread that is still to be spawned may cost.
  abbrev allowance : Bool → ℕ
  allowance true = 0
  allowance false = 2 ^ suc (length program.code) + 1

  module _ (alloc : ℕ → ℕ → Bool) (room : Bool) (str : ℕ) (character prev_character : Option ℕ)
      (h₀ : starts 0 ≡ true) where
    pub run_thread-ends :
        (fuel : ℕ) (m : Machine)
        → Ready program starts 0 m.thread
        → AllReady m.successors
        → Ensures
            (λ r.
              (r.0 ≢ ThreadStatus.continue) × Finished program starts (8 * length m.flags) g m r)
            (run_thread program
              (alloc fuel)
              str
              character
              prev_character
              (steps_for program m.flags)
              m)
    unfolding steps_for
    run_thread-ends fuel m h k =
        Ensures-both
          (run_thread-Stopped program starts (alloc fuel) str character prev_character g _ m h (
            omega (
              arith,
              mul_mono (unset (8 * length m.flags) m.flags) (8 * length m.flags)
                  (length program.code + 3) (unset-le (8 * length m.flags) m.flags),
            )))
          (run_thread-Finished program starts (8 * length m.flags) g (alloc fuel) str character
            prev_character _ m h k refl)

    abbrev EndsWell : ℕ → Type 0
    EndsWell fuel =
        (vm : Vm) (before threads : List Thread) (spawned : Bool)
        → AllReady before
        → AllReady threads
        → load program (8 * length vm.flags) vm.flags threads + allowance spawned + 1 ≤ fuel
        → Ensures (Visits vm) (
            visit_threads program alloc room str character prev_character fuel vm before threads
              spawned)

    -- At the end of the list: a thread is spawned, or the loop is left.
    spawns :
        (fuel : ℕ) (vm : Vm) (before : List Thread) (matched can : Bool)
        → AllReady before
        → EndsWell fuel
        → load program (8 * length vm.flags) vm.flags [] + allowance false + 1 ≤ suc fuel
        → Ensures (Visits vm) (elim matched [
          | true ↦ ok (VmStatus.continue, record vm { threads = before })
          | false ↦ elim can [
            | true ↦
                visit_threads program alloc room str character prev_character fuel vm before
                  (new_thread vm.n_pointers ∷ [])
                  true
            | false ↦ ok (VmStatus.e_nomem, record vm { threads = before })
          ]
        ])
    unfolding new_thread weights
    spawns fuel vm before true can b ih e =
        returns (record { ready = b; sized = refl; pointers = refl })
    spawns fuel vm before false false b ih e =
        returns (record { ready = b; sized = refl; pointers = refl })
    spawns fuel vm before false true b ih e =
        ih vm before (new_thread vm.n_pointers ∷ []) true b (h₀, tt)
          (omega (arith, weight-le program 0))

    visit_threads-ends : (fuel : ℕ) → EndsWell fuel
    unfolding visit_threads weights
    visit_threads-ends zero vm before threads spawned b h e = absurd (omega arith)
    visit_threads-ends (suc fuel) vm before [] true b h e =
        returns (record { ready = b; sized = refl; pointers = refl })
    visit_threads-ends (suc fuel) vm before [] false b h e =
        spawns fuel vm before (is_some vm.matched_thread) room b (visit_threads-ends fuel) e
    visit_threads-ends (suc fuel) vm before (t ∷ ts) spawned b h e =
        Ensures-bind
          (run_thread-ends fuel (record { thread = t; successors = ts; flags = vm.flags }) h.0 h.1)
          (λ (s, m) (n, f).
            after_thread-Visits
              (λ flags before' threads'.
                visit_threads program alloc room str character prev_character fuel
                  (record vm { flags = flags }) before' threads' spawned)
              vm before s m n b (f.ready, f.waiting) (f.kept.sized)
              (λ before' b'.
                Ensures-weaken (λ r v. rest vm m.flags r f.kept.sized v)
                  (visit_threads-ends fuel (record vm { flags = m.flags }) before' m.successors
                    spawned b' f.waiting
                    (subst
                      (λ l.
                        load program (8 * l) m.flags m.successors + allowance spawned + 1 ≤ fuel)
                      (sym f.kept.sized) (omega (arith, f.lighter))))))
      where
        rest :
            (vm : Vm) (flags : Bitmap) (r : VmStatus × Vm)
            → length flags ≡ length vm.flags
            → Visits (record vm { flags = flags }) r
            → Visits vm r
        rest vm flags r k v = record { ready = v.ready; sized = v.sized ∙ k; pointers = v.pointers }

    weights-le : (ts : List Thread) → weights program ts ≤ length ts * 2 ^ suc (length program.code)
    unfolding weights
    weights-le [] = omega arith
    weights-le (t ∷ ts) = omega (arith, weights-le ts, weight-le program t.instr_pointer)

    -- For a guarded program, with the threads at instructions, `run_threads` never runs out of fuel,
    -- though a split adds threads while the list of them is walked. It leaves the threads at
    -- instructions, and the flags and the pointers keep their number.
    pub run_threads-Visits :
        (vm : Vm)
        → AllReady vm.threads
        → Ensures (Visits vm) (run_threads program alloc room str character prev_character vm)
    unfolding run_threads visits_for
    run_threads-Visits vm h =
        let clear = bitmap_clear vm.flags (length vm.flags) in
        let sized = length-bitmap_clear vm.flags (length vm.flags) in
        let enough =
          mul_mono (unset (8 * length clear) clear) (8 * length clear)
            (2 ^ suc (suc (length program.code))) (unset-le (8 * length clear) clear) in
        go clear sized (is_empty vm.threads && is_some vm.matched_thread)
          (omega (arith, weights-le vm.threads))
      where
        go :
            (clear : Bitmap)
            → length clear ≡ length vm.flags
            → (t : Bool)
            → load program (8 * length clear) clear vm.threads + allowance false + 1
              ≤ visits_for program (record vm { flags = clear })
            → Ensures (Visits vm) (elim t [
              | true ↦ ok (VmStatus.done, record vm { flags = clear })
              | false ↦
                  visit_threads program alloc room str character prev_character
                    (visits_for program (record vm { flags = clear }))
                    (record vm { flags = clear })
                    []
                    vm.threads
                    false
            ])
        go clear k true e = returns (record { ready = h; sized = k; pointers = refl })
        go clear k false e =
            Ensures-weaken
              (λ r v. record { ready = v.ready; sized = v.sized ∙ k; pointers = v.pointers })
              (visit_threads-ends _ (record vm { flags = clear }) [] vm.threads false tt h e)
