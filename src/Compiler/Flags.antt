-- ===== src/Compiler/Flags.antt =====
-- The flags that src/bytecode-compiler.c counts: those of a tree are numbered without a gap.
use crex.Base.{
  ℕ, ◌+◌, ◌≡◌, refl, Bool, true, false, List, inl, inr, Bool-cases, ◌==◌, if◌then◌else◌, arith,
}
use crex.Lexer.Token.{repetition_infinity}
use crex.Parser.Tree.{Parsetree, Parsetrees}
use crex.Compiler.{
  compile_repetition, compile_parsetree, compile_concatenation, compile_to_bytecode,
}

-- One flag for an alternation and for a bounded repetition, and two for an unbounded one.
unfoldable mutual
  pub flags_of : Parsetree → ℕ
  flags_of (Parsetree.concatenation trees) = flags_of_all trees
  flags_of (Parsetree.alternation left right) = flags_of left + flags_of right + 1
  flags_of (Parsetree.greedy_repetition lower upper child) =
      flags_of child + (if upper == repetition_infinity then 2 else 1)
  flags_of (Parsetree.lazy_repetition lower upper child) =
      flags_of child + (if upper == repetition_infinity then 2 else 1)
  flags_of (Parsetree.group index child) = flags_of child
  flags_of _ = 0

  pub flags_of_all : Parsetrees → ℕ
  flags_of_all Parsetrees.none_yet = 0
  flags_of_all (Parsetrees.push trees tree) = flags_of_all trees + flags_of tree

repetition_flags :
    (lazy : Bool) (lower upper : ℕ) (child : List ℕ) (n : ℕ)
    → (compile_repetition lazy lower upper child n).1
      ≡ n + (if upper == repetition_infinity then 2 else 1)
unfolding compile_repetition
repetition_flags lazy lower upper child n = elim (Bool-cases (upper == repetition_infinity)) [
  | inl e ↦ rw e refl
  | inr e ↦ rw e refl
]

mutual
  unfolding compile_parsetree flags_of

  pub counted : (tree : Parsetree) (n : ℕ) → (compile_parsetree tree n).1 ≡ n + flags_of tree
  counted (Parsetree.concatenation trees) n = counted_all trees n
  counted (Parsetree.alternation left right) n =
      omega (arith, counted left n, counted right (compile_parsetree left n).1)
  counted (Parsetree.greedy_repetition lower upper child) n = omega (
    arith,
    counted child n,
    repetition_flags false lower upper (compile_parsetree child n).0 (compile_parsetree child n).1,
  )
  counted (Parsetree.lazy_repetition lower upper child) n = omega (
    arith,
    counted child n,
    repetition_flags true lower upper (compile_parsetree child n).0 (compile_parsetree child n).1,
  )
  counted (Parsetree.group index child) n = counted child n
  counted Parsetree.empty n = omega arith
  counted (Parsetree.character c) n = omega arith
  counted (Parsetree.char_class i) n = omega arith
  counted (Parsetree.builtin_char_class i) n = omega arith
  counted (Parsetree.anchor type) n = omega arith

  pub counted_all :
      (trees : Parsetrees) (n : ℕ) → (compile_concatenation trees n).1 ≡ n + flags_of_all trees
  counted_all Parsetrees.none_yet n = omega arith
  counted_all (Parsetrees.push trees tree) n =
      omega (arith, counted_all trees n, counted tree (compile_concatenation trees n).1)

-- The number of flags of a compiled tree is one for each alternation and each bounded repetition,
-- and two for each unbounded one.
pub compile_to_bytecode-flags_of : (tree : Parsetree) → (compile_to_bytecode tree).1 ≡ flags_of tree
unfolding compile_to_bytecode
compile_to_bytecode-flags_of tree = omega (arith, counted tree 0)
