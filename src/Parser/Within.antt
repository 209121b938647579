-- ===== src/Parser/Within.antt =====
-- The classes of a tree of src/parser.h, within limits.
use crex.Base.{ℕ}
use crex.Bytecode.Limits.{Limits}
use crex.Parser.Tree.{Parsetree, Parsetrees}

-- The classes of a tree.
unfoldable mutual
  pub TreeWithin : Limits → Parsetree → Type 0
  TreeWithin limits (Parsetree.char_class i) = limits.classes i
  TreeWithin limits (Parsetree.builtin_char_class i) = limits.builtins i
  TreeWithin limits (Parsetree.concatenation trees) = TreesWithin limits trees
  TreeWithin limits (Parsetree.alternation left right) =
      TreeWithin limits left × TreeWithin limits right
  TreeWithin limits (Parsetree.greedy_repetition lower upper child) = TreeWithin limits child
  TreeWithin limits (Parsetree.lazy_repetition lower upper child) = TreeWithin limits child
  TreeWithin limits (Parsetree.group index child) = TreeWithin limits child
  TreeWithin limits _ = Unit

  pub TreesWithin : Limits → Parsetrees → Type 0
  TreesWithin limits Parsetrees.none_yet = Unit
  TreesWithin limits (Parsetrees.push trees tree) =
      TreesWithin limits trees × TreeWithin limits tree

-- Every index is allowed.
abbrev pub unlimited : Limits
unlimited = record { classes = λ _. Unit; builtins = λ _. Unit; flags = λ _. Unit }

mutual
  unfolding TreeWithin

  pub unlimited-TreeWithin : (tree : Parsetree) → TreeWithin unlimited tree
  unlimited-TreeWithin (Parsetree.concatenation trees) = unlimited-TreesWithin trees
  unlimited-TreeWithin (Parsetree.alternation left right) =
      (unlimited-TreeWithin left, unlimited-TreeWithin right)
  unlimited-TreeWithin (Parsetree.greedy_repetition lower upper child) = unlimited-TreeWithin child
  unlimited-TreeWithin (Parsetree.lazy_repetition lower upper child) = unlimited-TreeWithin child
  unlimited-TreeWithin (Parsetree.group index child) = unlimited-TreeWithin child
  unlimited-TreeWithin (Parsetree.char_class i) = tt
  unlimited-TreeWithin (Parsetree.builtin_char_class i) = tt
  unlimited-TreeWithin Parsetree.empty = tt
  unlimited-TreeWithin (Parsetree.character c) = tt
  unlimited-TreeWithin (Parsetree.anchor type) = tt

  unlimited-TreesWithin : (trees : Parsetrees) → TreesWithin unlimited trees
  unlimited-TreesWithin Parsetrees.none_yet = tt
  unlimited-TreesWithin (Parsetrees.push trees tree) =
      (unlimited-TreesWithin trees, unlimited-TreeWithin tree)

module _ (limits limits' : Limits) (classes : (i : ℕ) → limits.classes i → limits'.classes i)
    (builtins : (i : ℕ) → limits.builtins i → limits'.builtins i) where
  mutual
    unfolding TreeWithin

    pub TreeWithin-weaken : (tree : Parsetree) → TreeWithin limits tree → TreeWithin limits' tree
    TreeWithin-weaken (Parsetree.concatenation trees) h = TreesWithin-weaken trees h
    TreeWithin-weaken (Parsetree.alternation left right) h =
        (TreeWithin-weaken left h.0, TreeWithin-weaken right h.1)
    TreeWithin-weaken (Parsetree.greedy_repetition lower upper child) h = TreeWithin-weaken child h
    TreeWithin-weaken (Parsetree.lazy_repetition lower upper child) h = TreeWithin-weaken child h
    TreeWithin-weaken (Parsetree.group index child) h = TreeWithin-weaken child h
    TreeWithin-weaken (Parsetree.char_class i) h = classes i h
    TreeWithin-weaken (Parsetree.builtin_char_class i) h = builtins i h
    TreeWithin-weaken Parsetree.empty h = tt
    TreeWithin-weaken (Parsetree.character c) h = tt
    TreeWithin-weaken (Parsetree.anchor type) h = tt

    pub TreesWithin-weaken :
        (trees : Parsetrees) → TreesWithin limits trees → TreesWithin limits' trees
    TreesWithin-weaken Parsetrees.none_yet h = tt
    TreesWithin-weaken (Parsetrees.push trees tree) h =
        (TreesWithin-weaken trees h.0, TreeWithin-weaken tree h.1)
