-- ===== src/Executor/Failures.antt =====
-- The search of src/executor.c fails only with the status that there is no memory, and only where an
-- allocation has failed.
use crex.Base.{
  ℕ, zero, suc, ◌≡◌, refl, ◌||◌, ◌&&◌, Bool, true, false, Option, none, some, List, [], ◌∷◌, length,
  ◌==◌, if_both,
}
use crex.Bitmap.{Bitmap, bitmap_clear}
use crex.Status.{
  Result, ok, FailsAs, Ends, with_value, with_status, with_undefined, with_no_fuel, stops_as,
  Ends-bind, Ends-FailsAs,
}
use crex.Vm.{Thread, Program, Machine, ThreadStatus}
use crex.Vm.Run.Failures.{IsShort, IsExcused, IsGiven, not_given, run_thread-Steps}
use crex.Vm.Match.{
  Vm, VmStatus, Visited, is_some, is_empty, new_thread, on_match, after_thread, visits_for,
  visit_threads, run_threads,
}
use crex.Executor.{Regex, Answer, create_vm, after_threads, search, execute_regex}

-- Every allocation of a search succeeds.
pub record AllGiven (alloc : ℕ → ℕ → ℕ → Bool) (room : ℕ → Bool) (flags_room : Bool) : Type 0 where
  pub blocks : (str visit step : ℕ) → alloc str visit step ≡ true
  pub spawned : (str : ℕ) → room str ≡ true
  pub flags : flags_room ≡ true

module _ (G : Type 0) where
  abbrev IsVmExcused : VmStatus → Type 0
  IsVmExcused VmStatus.e_nomem = ¬ G
  IsVmExcused _ = Unit

  abbrev EndsVisit : Visited → Type 0
  EndsVisit = Ends (λ r. IsVmExcused r.0) (IsShort G)

  module _ (program : Program) (str : ℕ) (character prev_character : Option ℕ) where
    on_match-IsVmExcused :
        (vm : Vm) (before : List Thread) (m : Machine) → IsVmExcused (on_match vm before m).0
    unfolding on_match
    on_match-IsVmExcused vm before m =
        if_both (λ (r : VmStatus × Vm). IsVmExcused r.0) (vm.n_pointers == 0) tt tt

    after_thread-EndsVisit :
        (again : Bitmap → List Thread → List Thread → Visited) (vm : Vm) (before : List Thread)
        (s : ThreadStatus) (m : Machine)
        → IsExcused G s
        → ((flags : Bitmap) (bs ts : List Thread) → EndsVisit (again flags bs ts))
        → EndsVisit (after_thread again vm before s m)
    unfolding after_thread
    after_thread-EndsVisit again vm before ThreadStatus.rejected m e h = h _ _ _
    after_thread-EndsVisit again vm before ThreadStatus.done m e h = h _ _ _
    after_thread-EndsVisit again vm before ThreadStatus.matched m e h =
        with_value (on_match-IsVmExcused vm before m)
    after_thread-EndsVisit again vm before ThreadStatus.e_nomem m e h = with_value e
    after_thread-EndsVisit again vm before ThreadStatus.continue m e h = with_undefined

    module _ (alloc : ℕ → ℕ → Bool) (room : Bool) (blocks : (i j : ℕ) → IsGiven G (alloc i j))
        (spawned : IsGiven G room) where
      abbrev EndsVisits : ℕ → Type 0
      EndsVisits fuel =
          (vm : Vm) (before threads : List Thread) (spawns : Bool)
          → EndsVisit (
              visit_threads program alloc room str character prev_character fuel vm before threads
                spawns)

      spawn-EndsVisit :
          (fuel : ℕ) (vm : Vm) (before : List Thread) (matched can : Bool)
          → IsGiven G can
          → EndsVisits fuel
          → EndsVisit (elim matched [
            | true ↦ ok (VmStatus.continue, record vm { threads = before })
            | false ↦ elim can [
              | true ↦
                  visit_threads program alloc room str character prev_character fuel vm before
                    (new_thread vm.n_pointers ∷ [])
                    true
              | false ↦ ok (VmStatus.e_nomem, record vm { threads = before })
            ]
          ])
      spawn-EndsVisit fuel vm before true can h ih = with_value tt
      spawn-EndsVisit fuel vm before false false h ih = with_value (not_given G false h refl)
      spawn-EndsVisit fuel vm before false true h ih = ih _ _ _ _

      visit_threads-EndsVisit : (fuel : ℕ) → EndsVisits fuel
      unfolding visit_threads
      visit_threads-EndsVisit zero vm before threads spawns = with_no_fuel
      visit_threads-EndsVisit (suc fuel) vm before [] spawns =
          spawn-EndsVisit fuel vm before (spawns || is_some vm.matched_thread) room spawned
            (visit_threads-EndsVisit fuel)
      visit_threads-EndsVisit (suc fuel) vm before (t ∷ ts) spawns =
          Ends-bind
            (run_thread-Steps G program str character prev_character (alloc fuel) _ _ (blocks fuel))
            (λ r e. after_thread-EndsVisit _ vm before r.0 r.1 e (λ flags bs us.
              visit_threads-EndsVisit fuel (record vm { flags = flags }) bs us spawns))

      run_threads-EndsVisit :
          (vm : Vm) → EndsVisit (run_threads program alloc room str character prev_character vm)
      unfolding run_threads
      run_threads-EndsVisit vm =
          go (record vm { flags = bitmap_clear vm.flags (length vm.flags) })
            (is_empty vm.threads && is_some vm.matched_thread)
        where
          go :
              (vm' : Vm) (t : Bool)
              → EndsVisit (elim t [
                | true ↦ ok (VmStatus.done, vm')
                | false ↦
                    visit_threads program alloc room str character prev_character
                      (visits_for program vm')
                      vm'
                      []
                      vm'.threads
                      false
              ])
          go vm' true = with_value tt
          go vm' false = visit_threads-EndsVisit (visits_for program vm') vm' [] vm'.threads false

  abbrev EndsSearch : Result Vm → Type 0
  EndsSearch = Ends (λ vm. Unit {0}) (IsShort G)

  after_threads-EndsSearch :
      (next : Vm → Result Vm) (s : VmStatus) (vm : Vm)
      → IsVmExcused s
      → EndsSearch (next vm)
      → EndsSearch (after_threads next s vm)
  unfolding after_threads
  after_threads-EndsSearch next VmStatus.continue vm e h = h
  after_threads-EndsSearch next VmStatus.done vm e h = with_value tt
  after_threads-EndsSearch next VmStatus.e_nomem vm e h = with_status (refl, e)

  module _ (program : Program) (alloc : ℕ → ℕ → ℕ → Bool) (room : ℕ → Bool)
      (blocks : (i j k : ℕ) → IsGiven G (alloc i j k))
      (spawned : (i : ℕ) → IsGiven G (room i)) where
    search-EndsSearch :
        (str : ℕ) (prev_character : Option ℕ) (rest : List ℕ) (vm : Vm)
        → EndsSearch (search program alloc room str prev_character rest vm)
    unfolding search
    search-EndsSearch str prev_character [] vm =
        Ends-bind
          (run_threads-EndsVisit program str none prev_character (alloc str) (room str) (blocks str)
            (spawned str) vm)
          (λ r e. after_threads-EndsSearch ok r.0 r.1 e (with_value tt))
    search-EndsSearch str prev_character (c ∷ rest) vm =
        Ends-bind
          (run_threads-EndsVisit program str (some c) prev_character (alloc str) (room str)
            (blocks str) (spawned str) vm)
          (λ r e.
            after_threads-EndsSearch _ r.0 r.1 e (search-EndsSearch (suc str) (some c) rest r.1))

-- A search that fails reports that there is no memory, and not every allocation has succeeded.
pub execute_regex-FailsAs :
    (alloc : ℕ → ℕ → ℕ → Bool) (room : ℕ → Bool) (flags_room : Bool) (stale : ℕ → ℕ) (regex : Regex)
    (subject : List ℕ) (n : ℕ)
    → FailsAs
        (IsShort (AllGiven alloc room flags_room))
        (execute_regex alloc room flags_room stale regex subject n)
unfolding execute_regex create_vm
execute_regex-FailsAs alloc room false stale regex subject n =
    stops_as (refl, λ g. let given = g.flags in cc)
execute_regex-FailsAs alloc room true stale regex subject n =
    Ends-FailsAs {P = λ (a : Answer). Unit {0}} (
      Ends-bind
        (search-EndsSearch (AllGiven alloc room true) regex.program alloc room
          (λ i j k g. g.blocks i j k) (λ i g. g.spawned i) 0 none subject _)
        (λ vm h. with_value tt))
