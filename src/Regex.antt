-- ===== src/Regex.antt =====
-- The interface of src/crex.c without native code: a pattern is compiled to a regex, and a regex
-- is run on a subject.
pub mod Safe
pub mod Strings
use crex.Base.{ℕ, ◌*◌, ◌∷◌, ◌==◌, Bool, true, false, List, [], if◌then◌else◌}
use crex.Status.{Result, ok, err, undefined, ◌>>=◌, nomem}
use crex.Lexer.Token.{Token, CharClasses}
use crex.Parser.Parse.{Parsed, parse}
use crex.Compiler.{compile_to_bytecode}
use crex.Executor.{Regex, Answer, execute_regex}

-- The regex of a tree.
unfoldable pub compile_tree : Parsed → Regex
unfolding compile_to_bytecode
compile_tree (tree, n_capturing_groups, classes) =
    let (code, n_flags) = compile_to_bytecode tree in
    record {
      n_capturing_groups = n_capturing_groups;
      n_flags = n_flags;
      program = record { code = code; classes = classes.entries };
    }

-- `crex_compile_with_allocator`. `room` says whether `regex_t` is given a block.
unfoldable pub crex_compile : (ℕ → Token) → (ℕ → Bool) → Bool → List ℕ → Result Regex
unfolding parse compile_tree
crex_compile stale alloc room pattern =
    if room
    then (parse stale alloc (record { entries = []; capacity = 0 }) pattern >>= λ parsed.
        ok (compile_tree parsed))
    else err nomem

-- The three searches ask for no pointer, for those of the whole match, and for those of all groups.
module _ (alloc : ℕ → ℕ → ℕ → Bool) (room : ℕ → Bool) (flags_room : Bool) (stale : ℕ → ℕ)
    (regex : Regex) (subject : List ℕ) where
  unfoldable pub crex_is_match : Result Answer
  unfolding execute_regex
  crex_is_match = execute_regex alloc room flags_room stale regex subject 0

  unfoldable pub crex_find : Result Answer
  unfolding execute_regex
  crex_find = execute_regex alloc room flags_room stale regex subject 2

  unfoldable pub crex_match_groups : Result Answer
  unfolding execute_regex
  crex_match_groups =
      execute_regex alloc room flags_room stale regex subject (2 * regex.n_capturing_groups)

-- The bytes of a string before its terminator, which `strlen` counts; it reads past the end of an array
-- that has none.
unfoldable pub string_bytes : List ℕ → Result (List ℕ)
string_bytes [] = undefined
string_bytes (b ∷ bytes) =
    let rest = string_bytes bytes in if b == 0 then ok [] else (rest >>= λ bs. ok (b ∷ bs))

unfoldable pub crex_compile_str : (ℕ → Token) → (ℕ → Bool) → Bool → List ℕ → Result Regex
unfolding string_bytes
crex_compile_str stale alloc room pattern =
    string_bytes pattern >>= λ bytes. crex_compile stale alloc room bytes

-- The searches of a string.
module _ (alloc : ℕ → ℕ → ℕ → Bool) (room : ℕ → Bool) (flags_room : Bool) (stale : ℕ → ℕ)
    (regex : Regex) (text : List ℕ) where
  unfoldable pub crex_is_match_str : Result Answer
  unfolding string_bytes
  crex_is_match_str =
      string_bytes text >>= λ bytes. crex_is_match alloc room flags_room stale regex bytes

  unfoldable pub crex_find_str : Result Answer
  unfolding string_bytes
  crex_find_str = string_bytes text >>= λ bytes. crex_find alloc room flags_room stale regex bytes

  unfoldable pub crex_match_groups_str : Result Answer
  unfolding string_bytes
  crex_match_groups_str =
      string_bytes text >>= λ bytes. crex_match_groups alloc room flags_room stale regex bytes
