-- ===== src/Regex/Safe.antt =====
-- A regex that src/crex.c compiles is run without undefined behaviour.
use crex.Base.{ℕ, ◌*◌, ◌≡◌, Bool, List, length}
use crex.Bitmap.{bitmap_size_for_bits}
use crex.Status.{Reports}
use crex.Lexer.Token.{Token, CharClasses}
use crex.Parser.Classes.{table_limits}
use crex.Parser.Tree.{Parsetree}
use crex.Bytecode.Limits.{Limits}
use crex.Vm.Run.Sound.{limits_of}
use crex.Compiler.{compile_to_bytecode}
use crex.Parser.Within.{TreeWithin}
use crex.Executor.Total.{IsAnswer}
use crex.Vm.Run.Failures.{IsShort}
use crex.Executor.Failures.{AllGiven}
use crex.Executor.{Regex}
use crex.Regex.{compile_tree, crex_is_match, crex_find, crex_match_groups}

-- The limits of the regex that is made of a tree.
abbrev pub regex_limits : Parsetree → CharClasses → Limits
regex_limits tree classes =
    limits_of (record { code = (compile_to_bytecode tree).0; classes = classes.entries })
      (bitmap_size_for_bits (compile_to_bytecode tree).1)

-- What each of the three searches of a regex gives for a subject: that there is no memory and no other
-- status, where not every allocation succeeds, or an answer for as many pointers as it asks for.
abbrev pub SearchesSafely :
    (ℕ → ℕ → ℕ → Bool) → (ℕ → Bool) → Bool → (ℕ → ℕ) → List ℕ → Regex → Type 0
SearchesSafely alloc room flags_room stale subject regex =
    Reports (IsAnswer alloc room stale regex subject 0) (IsShort (AllGiven alloc room flags_room))
      (crex_is_match alloc room flags_room stale regex subject)
    × Reports (IsAnswer alloc room stale regex subject 2) (IsShort (AllGiven alloc room flags_room))
        (crex_find alloc room flags_room stale regex subject)
    × Reports (IsAnswer alloc room stale regex subject (2 * regex.n_capturing_groups))
        (IsShort (AllGiven alloc room flags_room))
        (crex_match_groups alloc room flags_room stale regex subject)

-- Where a regex comes from.
record IsOfTree (regex : Regex) : Type 0 where
  tree : Parsetree
  n_capturing_groups : ℕ
  classes : CharClasses
  compiled : regex ≡ compile_tree (tree, n_capturing_groups, classes)
  within : TreeWithin (table_limits (length classes.entries)) tree
