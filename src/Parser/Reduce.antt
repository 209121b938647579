-- ===== src/Parser/Reduce.antt =====
-- `parser_pop_operator` and `parser_push_operator` of src/parser.c, and the loops that pop operators
-- at a closing parenthesis and at the end.
use crex.Base.{ℕ, Bool, true, false, List, [], ◌∷◌, ltb}
use crex.Status.{Result, ok, err, undefined, ◌>>=◌, unmatched_open_paren, unmatched_close_paren}
use crex.Parser.Tree.{
  Parsetree, concatenation, alternation, greedy_repetition, lazy_repetition, group, none_yet, push,
  Operator, repetition, concatenate, alternate, open_group, precedence,
}

-- A concatenation on the left is extended, and otherwise a new one is made.
unfoldable pub concatenate_trees : Parsetree → Parsetree → Parsetree
concatenate_trees (concatenation trees) right = concatenation (push trees right)
concatenate_trees left right = concatenation (push (push none_yet left) right)

unfoldable pub repeat_tree : Bool → ℕ → ℕ → Parsetree → Parsetree
repeat_tree true lower upper child = lazy_repetition lower upper child
repeat_tree false lower upper child = greedy_repetition lower upper child

-- The trees after an operator has been popped and applied. Too few trees are a read below the
-- stack.
unfoldable pub pop_operator : Operator → List Parsetree → Result (List Parsetree)
unfolding concatenate_trees repeat_tree
pop_operator concatenate (right ∷ left ∷ trees) = ok (concatenate_trees left right ∷ trees)
pop_operator alternate (right ∷ left ∷ trees) = ok (alternation left right ∷ trees)
pop_operator (repetition lazy lower upper) (child ∷ trees) =
    ok (repeat_tree lazy lower upper child ∷ trees)
pop_operator (open_group index) (child ∷ trees) = ok (group index child ∷ trees)
pop_operator _ _ = undefined

abbrev pub Stacks : Type 0
Stacks = List Operator × List Parsetree

-- Operators that bind at least as tightly are popped first.
unfoldable pub push_operator : Operator → List Operator → List Parsetree → Result Stacks
unfolding pop_operator
push_operator op [] trees = ok (op ∷ [], trees)
push_operator op (top ∷ operators) trees = elim (ltb (precedence op) (precedence top)) [
  | true ↦ ok (op ∷ top ∷ operators, trees)
  | false ↦ pop_operator top trees >>= push_operator op operators
]

-- `case TT_CLOSE_PAREN`
unfoldable pub close_group : List Operator → List Parsetree → Result Stacks
unfolding pop_operator
close_group [] trees = err unmatched_close_paren
close_group (open_group index ∷ operators) trees =
    pop_operator (open_group index) trees >>= λ trees'. ok (operators, trees')
close_group (concatenate ∷ operators) trees =
    pop_operator concatenate trees >>= close_group operators
close_group (alternate ∷ operators) trees = pop_operator alternate trees >>= close_group operators
close_group (repetition lazy lower upper ∷ operators) trees =
    pop_operator (repetition lazy lower upper) trees >>= close_group operators

-- The loop at the end of `parse`.
unfoldable pub pop_all : List Operator → List Parsetree → Result (List Parsetree)
unfolding pop_operator
pop_all [] trees = ok trees
pop_all (open_group index ∷ operators) trees = err unmatched_open_paren
pop_all (concatenate ∷ operators) trees = pop_operator concatenate trees >>= pop_all operators
pop_all (alternate ∷ operators) trees = pop_operator alternate trees >>= pop_all operators
pop_all (repetition lazy lower upper ∷ operators) trees =
    pop_operator (repetition lazy lower upper) trees >>= pop_all operators
