-- ===== src/Vm/Match/Ends.antt =====
-- `run_threads` of src/vm.c ends at every position of the subject, for a program that is guarded.
use crex.Base.{
  ℕ, zero, suc, ◌+◌, ◌*◌, ◌≤◌, ◌≡◌, refl, sym, ap, ◌∙◌, Bool, true, false, Option, All, length,
  ◌==◌, arith,
}
use crex.Bitmap.{Bitmap}
use crex.Status.{ok, ◌>>=◌, Allows, Allows-bind, Allows-weaken, Ensures-Allows, gives, runs_out}
use crex.Vm.{Program, Machine, ThreadStatus, Stepped, step_thread}
use crex.Vm.Threads.{KeepsFlags, KeepsFlags-refl}
use crex.Vm.Run.{run_on, run_thread}
use crex.Vm.Run.Guard.{is_guarded}
use crex.Vm.Match.Weights.{weight, weights, weight_pos}
use crex.Vm.Match.Paid.{Ready, load_behind, load_all, Paid, step_thread-Paid}

KeepsFlags-trans : (a b c : Bitmap) → KeepsFlags a b → KeepsFlags b c → KeepsFlags a c
KeepsFlags-trans a b c h k = record {
  sized = k.sized ∙ h.sized;
  keeps = λ i e. k.keeps i (h.keeps i e);
}

module _ (program : Program) (starts : ℕ → Bool) (bound : ℕ)
    (g : is_guarded program starts ≡ true) where
  -- A thread has run: what is left weighs less than before.
  pub record Finished (m : Machine) (r : ThreadStatus × Machine) : Type 0 where
    pub ready : starts r.1.thread.instr_pointer ≡ true
    pub waiting : All (Ready program starts bound) r.1.successors
    pub kept : KeepsFlags m.flags r.1.flags
    pub lighter : load_behind program starts bound r.1 + 1 ≤ load_all program starts bound m

  -- A step, and then the rest of the loop.
  Finished-Paid :
      (m m' : Machine) (s : ThreadStatus) (r : ThreadStatus × Machine)
      → s ≡ ThreadStatus.continue
      → Paid program starts bound (weight program m.thread.instr_pointer) m (s, m')
      → Finished m' r
      → Finished m r
  unfolding weights
  Finished-Paid m m' s r e p f =
      let continued = p.continued e in
      record {
        ready = f.ready;
        waiting = f.waiting;
        kept = KeepsFlags-trans m.flags m'.flags r.1.flags p.kept f.kept;
        lighter = omega (arith, f.lighter);
      }

  Finished-ended :
      (m m' : Machine) (s : ThreadStatus)
      → Paid program starts bound (weight program m.thread.instr_pointer) m (s, m')
      → Allows (Finished m) (ok (s, m'))
  unfolding weights
  Finished-ended m m' s p = gives (record {
    ready = p.ready;
    waiting = p.waiting;
    kept = p.kept;
    lighter = omega (arith, p.behind);
  })

  run_on-Finished :
      (again : Machine → Stepped) (m m' : Machine) (s : ThreadStatus)
      → Paid program starts bound (weight program m.thread.instr_pointer) m (s, m')
      → Allows (Finished m') (again m')
      → Allows (Finished m) (run_on again s m')
  unfolding run_on
  run_on-Finished again m m' ThreadStatus.continue p h =
      Allows-weaken (λ r f. Finished-Paid m m' ThreadStatus.continue r refl p f) h
  run_on-Finished again m m' ThreadStatus.rejected p h = Finished-ended m m' _ p
  run_on-Finished again m m' ThreadStatus.matched p h = Finished-ended m m' _ p
  run_on-Finished again m m' ThreadStatus.done p h = Finished-ended m m' _ p
  run_on-Finished again m m' ThreadStatus.e_nomem p h = Finished-ended m m' _ p

  module _ (alloc : ℕ → Bool) (str : ℕ) (character prev_character : Option ℕ) where
    abbrev pub RunsWell : ℕ → Type 0
    RunsWell fuel =
        (m : Machine)
        → Ready program starts bound m.thread
        → All (Ready program starts bound) m.successors
        → bound ≡ 8 * length m.flags
        → Allows (Finished m) (run_thread program alloc str character prev_character fuel m)

    pub run_thread-Finished : (fuel : ℕ) → RunsWell fuel
    unfolding run_thread weights
    run_thread-Finished zero m h k b = runs_out
    run_thread-Finished (suc fuel) m h k b =
        go (run_thread-Finished fuel) (m.thread.instr_pointer == length program.code)
      where
        go :
            RunsWell fuel
            → (t : Bool)
            → Allows (Finished m) (elim t [
              | true ↦ ok (ThreadStatus.matched, m)
              | false ↦
                  step_thread program (alloc fuel) str character prev_character m
                  >>= λ (status, m').
                      run_on
                        (λ m''. run_thread program alloc str character prev_character fuel m'')
                        status
                        m'
            ])
        go ih true = gives (record {
          ready = h;
          waiting = k;
          kept = KeepsFlags-refl m.flags;
          lighter = omega (arith, weight_pos program m.thread.instr_pointer);
        })
        go ih false =
            Allows-bind
              (Ensures-Allows (
                step_thread-Paid program starts bound (alloc fuel) str character prev_character m g
                  h k b))
              (λ (s, m') p.
                run_on-Finished
                  (λ m''. run_thread program alloc str character prev_character fuel m'') m m' s p
                  (ih m' p.ready p.waiting (b ∙ ap (λ l. 8 * l) (sym p.kept.sized))))
