-- ===== src/Vm/Match/Pointers.antt =====
-- The pointers of the threads of src/vm.c stay inside the subject, at one position of it.
use crex.Base.{
  ℕ, zero, suc, ◌≡◌, refl, Bool, true, false, ◌&&◌, Option, none, some, List, [], ◌∷◌, All,
  All-append, length, length-replicate, replicate, ◌==◌, if_both,
}
use crex.Bitmap.{Bitmap, bitmap_clear}
use crex.Status.{ok, ◌>>=◌, Allows, Allows-bind, Ensures-Allows, gives, breaks, runs_out}
use crex.Vm.{Thread, Program, Machine, ThreadStatus, Stepped, step_thread}
use crex.Vm.Threads.{IsPointer, IsThread, IsMachine, step_thread-IsMachine}
use crex.Vm.Run.{run_on, run_thread}
use crex.Vm.Match.{
  Vm, VmStatus, Visited, new_thread, on_match, after_thread, steps_for, visits_for, visit_threads,
  run_threads, is_some, is_empty,
}

-- The pointers of the match, if there is one.
abbrev pub IsMatch : ℕ → ℕ → Option Thread → Type 0
IsMatch n str none = Unit
IsMatch n str (some t) = IsThread n str t

-- Every thread, and the match, has the machine's number of pointers, all into the part of the subject
-- that has been read.
pub record IsVm (str : ℕ) (vm : Vm) : Type 0 where
  pub running : All (IsThread vm.n_pointers str) vm.threads
  pub matched : IsMatch vm.n_pointers str vm.matched_thread

module _ (program : Program) (n str : ℕ) (character prev_character : Option ℕ) where
  run_on-IsMachine :
      (again : Machine → Stepped) (s : ThreadStatus) (m : Machine)
      → IsMachine n str m
      → Allows (λ r. IsMachine n str r.1) (again m)
      → Allows (λ r. IsMachine n str r.1) (run_on again s m)
  unfolding run_on
  run_on-IsMachine again ThreadStatus.continue m h k = k
  run_on-IsMachine again ThreadStatus.rejected m h k = gives h
  run_on-IsMachine again ThreadStatus.matched m h k = gives h
  run_on-IsMachine again ThreadStatus.done m h k = gives h
  run_on-IsMachine again ThreadStatus.e_nomem m h k = gives h

  abbrev KeepsMachine : (ℕ → Bool) → ℕ → Type 0
  KeepsMachine alloc fuel =
      (m : Machine)
      → IsMachine n str m
      → Allows (λ r. IsMachine n str r.1)
          (run_thread program alloc str character prev_character fuel m)

  run_thread-IsMachine : (alloc : ℕ → Bool) (fuel : ℕ) → KeepsMachine alloc fuel
  unfolding run_thread
  run_thread-IsMachine alloc zero m h = runs_out
  run_thread-IsMachine alloc (suc fuel) m h =
      go (run_thread-IsMachine alloc fuel) (m.thread.instr_pointer == length program.code)
    where
      go :
          KeepsMachine alloc fuel
          → (t : Bool)
          → Allows
              (λ r. IsMachine n str r.1)
              (elim t [
                | true ↦ ok (ThreadStatus.matched, m)
                | false ↦
                    step_thread program (alloc fuel) str character prev_character m
                    >>= λ (status, m').
                        run_on
                          (λ m''. run_thread program alloc str character prev_character fuel m'')
                          status
                          m'
              ])
      go ih true = gives h
      go ih false =
          Allows-bind
            (Ensures-Allows
              (step_thread-IsMachine n str program (alloc fuel) character prev_character m h))
            (λ (s, m') k.
              run_on-IsMachine
                (λ m''. run_thread program alloc str character prev_character fuel m'') s m' k.0
                (ih m' k.0))

module _ (program : Program) (alloc : ℕ → ℕ → Bool) (room : Bool) (str : ℕ)
    (character prev_character : Option ℕ) where
  -- `run_threads` keeps the number of the pointers.
  abbrev pub KeepsVm : ℕ → VmStatus × Vm → Type 0
  KeepsVm n r = (r.1.n_pointers ≡ n) × IsVm str r.1

  on_match-IsVm :
      (vm : Vm) (before : List Thread) (m : Machine)
      → All (IsThread vm.n_pointers str) before
      → IsMachine vm.n_pointers str m
      → KeepsVm vm.n_pointers (on_match vm before m)
  unfolding on_match
  on_match-IsVm vm before m b h =
      if_both (KeepsVm vm.n_pointers) (vm.n_pointers == 0)
        (
          refl,
          record {
            running =
                All-append (IsThread vm.n_pointers str) before (m.thread ∷ m.successors) b
                  (h.running, h.waiting);
            matched = h.running;
          },
        )
        (refl, record { running = b; matched = h.running })

  after_thread-IsVm :
      (again : Bitmap → List Thread → List Thread → Visited) (vm : Vm) (before : List Thread)
      (s : ThreadStatus) (m : Machine)
      → All (IsThread vm.n_pointers str) before
      → IsMatch vm.n_pointers str vm.matched_thread
      → IsMachine vm.n_pointers str m
      → ((before' : List Thread)
          → All (IsThread vm.n_pointers str) before'
          → Allows (KeepsVm vm.n_pointers) (again m.flags before' m.successors))
      → Allows (KeepsVm vm.n_pointers) (after_thread again vm before s m)
  unfolding after_thread
  after_thread-IsVm again vm before ThreadStatus.rejected m b k h next = next before b
  after_thread-IsVm again vm before ThreadStatus.done m b k h next =
      next _ (All-append (IsThread vm.n_pointers str) before (m.thread ∷ []) b (h.running, tt))
  after_thread-IsVm again vm before ThreadStatus.matched m b k h next =
      gives (on_match-IsVm vm before m b h)
  after_thread-IsVm again vm before ThreadStatus.e_nomem m b k h next = gives (
    refl,
    record {
      running =
          All-append (IsThread vm.n_pointers str) before (m.thread ∷ m.successors) b
            (h.running, h.waiting);
      matched = k;
    },
  )
  after_thread-IsVm again vm before ThreadStatus.continue m b k h next = breaks

  new_thread-IsThread : (n : ℕ) → IsThread n str (new_thread n)
  unfolding new_thread
  new_thread-IsThread n = (length-replicate n none, go n)
    where
      go : (k : ℕ) → All (IsPointer str) (replicate k none)
      go zero = tt
      go (suc k) = (tt, go k)

  abbrev VisitsWell : ℕ → Type 0
  VisitsWell fuel =
      (vm : Vm) (before threads : List Thread) (spawned : Bool)
      → All (IsThread vm.n_pointers str) before
      → All (IsThread vm.n_pointers str) threads
      → IsMatch vm.n_pointers str vm.matched_thread
      → Allows (KeepsVm vm.n_pointers) (
          visit_threads program alloc room str character prev_character fuel vm before threads
            spawned)

  spawns :
      (fuel : ℕ) (vm : Vm) (before : List Thread) (matched can : Bool)
      → All (IsThread vm.n_pointers str) before
      → IsMatch vm.n_pointers str vm.matched_thread
      → VisitsWell fuel
      → Allows (KeepsVm vm.n_pointers) (elim matched [
        | true ↦ ok (VmStatus.continue, record vm { threads = before })
        | false ↦ elim can [
          | true ↦
              visit_threads program alloc room str character prev_character fuel vm before
                (new_thread vm.n_pointers ∷ [])
                true
          | false ↦ ok (VmStatus.e_nomem, record vm { threads = before })
        ]
      ])
  spawns fuel vm before true can b k ih = gives (refl, record { running = b; matched = k })
  spawns fuel vm before false false b k ih = gives (refl, record { running = b; matched = k })
  spawns fuel vm before false true b k ih =
      ih vm before (new_thread vm.n_pointers ∷ []) true b (new_thread-IsThread vm.n_pointers, tt) k

  visit_threads-IsVm : (fuel : ℕ) → VisitsWell fuel
  unfolding visit_threads
  visit_threads-IsVm zero vm before threads spawned b h k = runs_out
  visit_threads-IsVm (suc fuel) vm before [] true b h k =
      gives (refl, record { running = b; matched = k })
  visit_threads-IsVm (suc fuel) vm before [] false b h k =
      spawns fuel vm before (is_some vm.matched_thread) room b k (visit_threads-IsVm fuel)
  visit_threads-IsVm (suc fuel) vm before (t ∷ ts) spawned b h k =
      Allows-bind
        (run_thread-IsMachine program vm.n_pointers str character prev_character (alloc fuel)
          (steps_for program vm.flags) (record { thread = t; successors = ts; flags = vm.flags })
          (record { running = h.0; waiting = h.1 }))
        (λ (s, m) kept.
          after_thread-IsVm
            (λ flags before' threads'.
              visit_threads program alloc room str character prev_character fuel
                (record vm { flags = flags }) before' threads' spawned)
            vm before s m b k kept
            (λ before' b'.
              visit_threads-IsVm fuel (record vm { flags = m.flags }) before' m.successors spawned
                b' kept.waiting k))

  pub run_threads-IsVm :
      (vm : Vm)
      → IsVm str vm
      → Allows
          (KeepsVm vm.n_pointers)
          (run_threads program alloc room str character prev_character vm)
  unfolding run_threads
  run_threads-IsVm vm h =
      go (bitmap_clear vm.flags (length vm.flags))
        (is_empty vm.threads && is_some vm.matched_thread)
    where
      go :
          (clear : Bitmap) (t : Bool)
          → Allows (KeepsVm vm.n_pointers) (elim t [
            | true ↦ ok (VmStatus.done, record vm { flags = clear })
            | false ↦
                visit_threads program alloc room str character prev_character
                  (visits_for program (record vm { flags = clear }))
                  (record vm { flags = clear })
                  []
                  vm.threads
                  false
          ])
      go clear true = gives (refl, record { running = h.running; matched = h.matched })
      go clear false =
          visit_threads-IsVm _ (record vm { flags = clear }) [] vm.threads false tt h.running
            h.matched
