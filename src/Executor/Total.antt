-- ===== src/Executor/Total.antt =====
-- `execute_regex` of src/executor.c ends for every subject, and what it reports lies in the subject.
use crex.Base.{
  ℕ, zero, suc, ◌+◌, ◌≡◌, ◌∙◌, subst, Bool, true, false, Option, none, some, List, [], ◌∷◌, All,
  length, length-replicate, replicate, ◌==◌, if_split, if_both, refl, arith,
}
use crex.Bitmap.{bitmap_size_for_bits}
use crex.Status.{
  Result, ok, Ensures, Ensures-bind, Ensures-bind_eq, Ensures-weaken, Ensures-both, returns, fails,
}
use crex.Vm.{Pointer, Thread, Program}
use crex.Vm.Threads.{IsPointer, IsThread}
use crex.Vm.Run.Guard.{is_guarded}
use crex.Vm.Match.{Vm, VmStatus, is_some}
use crex.Vm.Match.Total.{AllReady, run_threads-Visits}
use crex.Vm.Match.Pointers.{IsMatch, IsVm, run_threads-IsVm}
use crex.Executor.{
  Regex, Answer, is_match, matches, block, create_vm, pointers_of, answer, after_threads, search,
  execute_regex,
}

IsPointer-suc :
    (str : ℕ) (ps : List Pointer) → All (IsPointer str) ps → All (IsPointer (suc str)) ps
IsPointer-suc str [] h = tt
IsPointer-suc str (none ∷ ps) h = (tt, IsPointer-suc str ps h.1)
IsPointer-suc str (some p ∷ ps) h = (omega arith, IsPointer-suc str ps h.1)

IsThread-suc :
    (n str : ℕ) (ts : List Thread) → All (IsThread n str) ts → All (IsThread n (suc str)) ts
IsThread-suc n str [] h = tt
IsThread-suc n str (t ∷ ts) h =
    ((h.0.0, IsPointer-suc str t.pointers h.0.1), IsThread-suc n str ts h.1)

IsMatch-suc : (n str : ℕ) (o : Option Thread) → IsMatch n str o → IsMatch n (suc str) o
IsMatch-suc n str none h = tt
IsMatch-suc n str (some t) h = (h.0, IsPointer-suc str t.pointers h.1)

IsVm-suc : (str : ℕ) (vm : Vm) → IsVm str vm → IsVm (suc str) vm
IsVm-suc str vm h = record {
  running = IsThread-suc vm.n_pointers str vm.threads h.running;
  matched = IsMatch-suc vm.n_pointers str vm.matched_thread h.matched;
}

-- What is found at a position at most `size`, with so many pointers.
abbrev pub Found : ℕ → ℕ → Vm → Type 0
Found n size vm = (vm.n_pointers ≡ n) × IsMatch vm.n_pointers size vm.matched_thread

-- An answer has as many pointers as were asked for, each of them NULL, or into the subject or at its end.
abbrev pub Inside : ℕ → ℕ → Answer → Type 0
Inside n size (is_match found) = n ≡ 0
Inside n size (matches pointers) = (length pointers ≡ n) × All (IsPointer size) pointers

-- What an answer reports of the machine at the end of a search.
abbrev pub IsReport : ℕ → Option Thread → List Pointer → Type 0
IsReport n none pointers = pointers ≡ replicate n none
IsReport n (some t) pointers = pointers ≡ t.pointers

abbrev pub Answers : Vm → Answer → Type 0
Answers vm (is_match found) = found ≡ is_some vm.matched_thread
Answers vm (matches pointers) = IsReport vm.n_pointers vm.matched_thread pointers

-- The machine before a search.
abbrev pub start_vm : (ℕ → ℕ) → Regex → ℕ → Vm
unfolding block
start_vm stale regex n_pointers = record {
  n_pointers = n_pointers;
  threads = [];
  matched_thread = none;
  flags = block stale (bitmap_size_for_bits regex.n_flags);
}

-- The answer of a search that ends in a machine.
pub record IsAnswer (alloc : ℕ → ℕ → ℕ → Bool) (room : ℕ → Bool) (stale : ℕ → ℕ) (regex : Regex)
    (subject : List ℕ) (n : ℕ) (a : Answer) : Type 0 where
  pub vm : Vm
  pub ended : search regex.program alloc room 0 none subject (start_vm stale regex n) ≡ ok vm
  pub reported : Answers vm a
  pub inside : Inside n (length subject) a

module _ (program : Program) (starts : ℕ → Bool) (g : is_guarded program starts ≡ true)
    (h₀ : starts 0 ≡ true) where
  after_threads-Found :
      (next : Vm → Result Vm) (n size str : ℕ) (s : VmStatus) (vm : Vm)
      → vm.n_pointers ≡ n
      → IsMatch vm.n_pointers size vm.matched_thread
      → Ensures (Found n size) (next vm)
      → Ensures (Found n size) (after_threads next s vm)
  unfolding after_threads
  after_threads-Found next n size str VmStatus.continue vm e h k = k
  after_threads-Found next n size str VmStatus.done vm e h k = returns (e, h)
  after_threads-Found next n size str VmStatus.e_nomem vm e h k = fails

  IsMatch-le : (n str more : ℕ) (o : Option Thread) → IsMatch n str o → IsMatch n (str + more) o
  IsMatch-le n str zero o h = subst (λ t. IsMatch n t o) (omega arith) h
  IsMatch-le n str (suc more) o h =
      subst (λ t. IsMatch n t o) (omega arith)
        (IsMatch-suc n (str + more) o (IsMatch-le n str more o h))

  module _ (alloc : ℕ → ℕ → ℕ → Bool) (room : ℕ → Bool) where
    pub search-Found :
        (str : ℕ) (prev_character : Option ℕ) (rest : List ℕ) (vm : Vm)
        → AllReady program starts g vm.threads
        → IsVm str vm
        → Ensures
            (Found vm.n_pointers (str + length rest))
            (search program alloc room str prev_character rest vm)
    unfolding search
    search-Found str prev_character [] vm a h =
        Ensures-bind
          (Ensures-both
            (run_threads-Visits program starts g (alloc str) (room str) str none prev_character h₀
              vm a)
            (run_threads-IsVm program (alloc str) (room str) str none prev_character vm h))
          (λ (s, vm') (v, (e, k)).
            let here = IsMatch-le vm'.n_pointers str 0 vm'.matched_thread k.matched in
            after_threads-Found ok vm.n_pointers (str + 0) str s vm' e here (returns (e, here)))
    search-Found str prev_character (c ∷ rest) vm a h =
        Ensures-bind
          (Ensures-both
            (run_threads-Visits program starts g (alloc str) (room str) str (some c) prev_character
              h₀ vm a)
            (run_threads-IsVm program (alloc str) (room str) str (some c) prev_character vm h))
          (λ (s, vm') (v, (e, k)).
            after_threads-Found (λ vm''. search program alloc room (suc str) (some c) rest vm'')
              vm.n_pointers (str + suc (length rest)) str s vm' e
              (IsMatch-le vm'.n_pointers str (suc (length rest)) vm'.matched_thread k.matched)
              (Ensures-weaken
                (λ vm'' (e', k'). (
                  e' ∙ e,
                  subst (λ t. IsMatch vm''.n_pointers t vm''.matched_thread) (omega arith) k',
                ))
                (search-Found (suc str) (some c) rest vm' v.ready (IsVm-suc str vm' k))))

answer-Inside : (n size : ℕ) (vm : Vm) → Found n size vm → Inside n size (answer vm)
unfolding answer pointers_of
answer-Inside n size vm (e, h) =
    if_split (Inside n size) (vm.n_pointers == 0) (λ z. ground arith) (λ z. go vm.matched_thread h)
  where
    nulls : (k : ℕ) → All (IsPointer size) (replicate k none)
    nulls zero = tt
    nulls (suc k) = (tt, nulls k)

    go :
        (o : Option Thread)
        → IsMatch vm.n_pointers size o
        → Inside n size (matches (pointers_of vm.n_pointers o))
    go none h = (length-replicate vm.n_pointers none ∙ e, nulls vm.n_pointers)
    go (some t) h = (h.0 ∙ e, h.1)

answer-Answers : (vm : Vm) → Answers vm (answer vm)
unfolding answer pointers_of
answer-Answers vm = if_both (Answers vm) (vm.n_pointers == 0) refl (go vm.matched_thread)
  where
    go : (o : Option Thread) → IsReport vm.n_pointers o (pointers_of vm.n_pointers o)
    go none = refl
    go (some t) = refl

-- For guarded code that begins with an instruction a search never runs out of fuel, on any subject:
-- unless C leaves its behaviour undefined it gives an answer, or fails.
pub execute_regex-IsAnswer :
    (regex : Regex) (starts : ℕ → Bool)
    → is_guarded regex.program starts ≡ true
    → starts 0 ≡ true
    → (alloc : ℕ → ℕ → ℕ → Bool) (room : ℕ → Bool) (flags_room : Bool) (stale : ℕ → ℕ)
      (subject : List ℕ) (n_pointers : ℕ)
    → Ensures
        (IsAnswer alloc room stale regex subject n_pointers)
        (execute_regex alloc room flags_room stale regex subject n_pointers)
unfolding execute_regex create_vm
execute_regex-IsAnswer regex starts g h₀ alloc room false stale subject n = fails
execute_regex-IsAnswer regex starts g h₀ alloc room true stale subject n =
    Ensures-bind_eq
      (search-Found regex.program starts g h₀ alloc room 0 none subject (start_vm stale regex n) tt
        (record { running = tt; matched = tt }))
      (λ vm' ended (e, h).
        let at_end : 0 + length subject ≡ length subject = omega arith in
        returns (record {
          vm = vm';
          ended = ended;
          reported = answer-Answers vm';
          inside =
              answer-Inside n (length subject) vm'
                (e, subst (λ t. IsMatch vm'.n_pointers t vm'.matched_thread) at_end h);
        }))
