-- ===== src/Vm/Match.antt =====
-- `run_threads` and `on_match` of src/vm.c: all threads at one position of the subject, in the order
-- of their priority. The threads that `head` leads to are a list.
pub mod Weights
pub mod Paid
pub mod Ends
pub mod Total
pub mod Pointers
pub mod Defined
use crex.Base.{
  ℕ, zero, suc, ◌+◌, ◌*◌, ◌^◌, Bool, true, false, ◌&&◌, ◌||◌, Option, none, some, List, [], ◌∷◌,
  ◌++◌, length, replicate, ◌==◌, if◌then◌else◌,
}
use crex.Bitmap.{Bitmap, bitmap_clear}
use crex.Status.{Result, ok, undefined, out_of_fuel, ◌>>=◌}
use crex.Vm.{Thread, Program, Machine, ThreadStatus}
use crex.Vm.Run.{run_thread}

pub record Vm : Type 0 where
  pub n_pointers : ℕ
  pub threads : List Thread
  pub matched_thread : Option Thread
  pub flags : Bitmap

pub data VmStatus : Type 0 where
  continue done e_nomem : VmStatus

abbrev pub Visited : Type 0
Visited = Result (VmStatus × Vm)

unfoldable pub is_some : Option Thread → Bool
is_some none = false
is_some (some _) = true

unfoldable pub is_empty : List Thread → Bool
is_empty [] = true
is_empty (_ ∷ _) = false

-- What `spawn_thread` writes into a block.
unfoldable pub new_thread : ℕ → Thread
new_thread n_pointers = record { instr_pointer = 0; pointers = replicate n_pointers none }

-- The threads behind a match are dropped, and those before it run on, unless only whether there is a
-- match was asked. `before` leads up to `prev_thread`.
unfoldable pub on_match : Vm → List Thread → Machine → VmStatus × Vm
on_match vm before m =
    if vm.n_pointers == 0
    then (
      VmStatus.done,
      record vm {
        matched_thread = some m.thread;
        threads = before ++ m.thread ∷ m.successors;
        flags = m.flags;
      },
    )
    else (
      VmStatus.continue,
      record vm { matched_thread = some m.thread; threads = before; flags = m.flags },
    )

-- The switch on the status of a thread that has run. A thread that is rejected is unlinked; one that
-- is done stays, and the loop goes on with those before the next one, which are passed along.
unfoldable pub after_thread :
    (Bitmap → List Thread → List Thread → Visited)
    → Vm
    → List Thread
    → ThreadStatus
    → Machine
    → Visited
unfolding on_match
after_thread again vm before ThreadStatus.rejected m = again m.flags before m.successors
after_thread again vm before ThreadStatus.done m =
    again m.flags (before ++ m.thread ∷ []) m.successors
after_thread again vm before ThreadStatus.matched m = ok (on_match vm before m)
after_thread again vm before ThreadStatus.e_nomem m =
    ok
      (VmStatus.e_nomem, record vm { threads = before ++ m.thread ∷ m.successors; flags = m.flags })
after_thread again vm before ThreadStatus.continue m = undefined

-- The fuel for the steps of one thread, and for the threads that are visited.
unfoldable pub steps_for : Program → Bitmap → ℕ
steps_for program flags = 8 * length flags * (length program.code + 3) + length program.code + 2

unfoldable pub visits_for : Program → Vm → ℕ
visits_for program vm =
    8 * length vm.flags * 2 ^ suc (suc (length program.code))
    + (length vm.threads + 1) * 2 ^ suc (length program.code)
    + 2

-- `room` says whether `spawn_thread` is given a block, and `alloc` whether a split is, in the visit
-- and in the step with so much fuel left.
module _ (program : Program) (alloc : ℕ → ℕ → Bool) (room : Bool) (str : ℕ)
    (character prev_character : Option ℕ) where
  -- The loop over the threads, on fuel. `before` are the threads up to `prev_thread`, and then come
  -- those from `thread` on. A thread is spawned at the end of the list, once, unless there is a match.
  unfoldable pub visit_threads : ℕ → Vm → List Thread → List Thread → Bool → Visited
  unfolding after_thread is_some new_thread
  visit_threads zero vm before threads spawned = out_of_fuel
  visit_threads (suc fuel) vm before [] spawned = elim (spawned || is_some vm.matched_thread) [
    | true ↦ ok (VmStatus.continue, record vm { threads = before })
    | false ↦ elim room [
      | true ↦ visit_threads fuel vm before (new_thread vm.n_pointers ∷ []) true
      | false ↦ ok (VmStatus.e_nomem, record vm { threads = before })
    ]
  ]
  visit_threads (suc fuel) vm before (thread ∷ threads) spawned =
      run_thread program (alloc fuel) str character prev_character (steps_for program vm.flags)
        (record { thread = thread; successors = threads; flags = vm.flags })
      >>= λ (status, m).
          after_thread
            (λ flags before' threads'.
              visit_threads fuel (record vm { flags = flags }) before' threads' spawned)
            vm before status m

  -- `run_threads`: the flags are cleared, and nothing is left to do behind a match without threads.
  unfoldable pub run_threads : Vm → Visited
  unfolding visit_threads is_empty is_some
  run_threads vm =
      let vm' = record vm { flags = bitmap_clear vm.flags (length vm.flags) } in
      elim (is_empty vm.threads && is_some vm.matched_thread) [
        | true ↦ ok (VmStatus.done, vm')
        | false ↦ visit_threads (visits_for program vm') vm' [] vm'.threads false
      ]
