-- ===== src/Executor.antt =====
-- `execute_regex` of src/executor.c, with `create_vm` of src/vm.c: the search through a subject.
pub mod Total
pub mod Failures
pub mod Safe
use crex.Base.{
  ℕ, zero, suc, ◌+◌, Bool, true, false, Option, none, some, List, [], ◌∷◌, length, replicate, ◌==◌,
  if◌then◌else◌,
}
use crex.Bitmap.{bitmap_size_for_bits}
use crex.Status.{Result, ok, err, ◌>>=◌, nomem}
use crex.Vm.{Pointer, Thread, Program}
use crex.Vm.Match.{Vm, VmStatus, is_some, run_threads}

-- The fields of `regex_t` that the search reads.
pub record Regex : Type 0 where
  pub n_capturing_groups : ℕ
  pub n_flags : ℕ
  pub program : Program

-- So many bytes of a block whose bytes are whatever they were.
unfoldable pub block : (ℕ → ℕ) → ℕ → List ℕ
block stale zero = []
block stale (suc size) = stale size ∷ block stale size

-- `create_vm` with `n_pointers`. The flags are not written; each call of `run_threads` clears them.
unfoldable pub create_vm : Bool → (ℕ → ℕ) → Regex → ℕ → Result Vm
unfolding block bitmap_size_for_bits
create_vm room stale regex n_pointers =
    if room
    then ok (record {
      n_pointers = n_pointers;
      threads = [];
      matched_thread = none;
      flags = block stale (bitmap_size_for_bits regex.n_flags);
    })
    else err nomem

-- What `result` points to: a flag, or the pointers of the matches, two for each.
pub data Answer : Type 0 where
  is_match : Bool → Answer
  matches : List Pointer → Answer

unfoldable pub pointers_of : ℕ → Option Thread → List Pointer
pointers_of n_pointers none = replicate n_pointers none
pointers_of n_pointers (some thread) = thread.pointers

-- What `execute_regex` does behind its loop.
unfoldable pub answer : Vm → Answer
unfolding is_some pointers_of
answer vm =
    if vm.n_pointers == 0
    then is_match (is_some vm.matched_thread)
    else matches (pointers_of vm.n_pointers vm.matched_thread)

-- The rest of the loop behind a call of `run_threads`, which ends it or leads to the next round.
unfoldable pub after_threads : (Vm → Result Vm) → VmStatus → Vm → Result Vm
after_threads next VmStatus.continue vm = next vm
after_threads next VmStatus.done vm = ok vm
after_threads next VmStatus.e_nomem vm = err nomem

-- `room` and `alloc` say what the allocations of the round at a position give.
module _ (program : Program) (alloc : ℕ → ℕ → ℕ → Bool) (room : ℕ → Bool) where
  -- The loop over the subject, from a position on. The last round is at its end.
  unfoldable pub search : ℕ → Option ℕ → List ℕ → Vm → Result Vm
  unfolding run_threads after_threads
  search str prev_character [] vm =
      run_threads program (alloc str) (room str) str none prev_character vm >>= λ (status, vm').
      after_threads ok status vm'
  search str prev_character (character ∷ rest) vm =
      run_threads program (alloc str) (room str) str (some character) prev_character vm
      >>= λ (status, vm').
          after_threads (λ vm''. search (suc str) (some character) rest vm'') status vm'

-- `flags_room` says whether the flags are given a block, and `stale` what it holds.
unfoldable pub execute_regex :
    (ℕ → ℕ → ℕ → Bool) → (ℕ → Bool) → Bool → (ℕ → ℕ) → Regex → List ℕ → ℕ → Result Answer
unfolding create_vm search answer
execute_regex alloc room flags_room stale regex subject n_pointers =
    create_vm flags_room stale regex n_pointers >>= λ vm.
    search regex.program alloc room 0 none subject vm >>= λ vm'. ok (answer vm')
