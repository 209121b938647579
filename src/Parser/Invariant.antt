-- ===== src/Parser/Invariant.antt =====
-- The invariant of the stacks of src/parser.c: there is one tree more than there are operators that
-- take two, a repetition stands on top only, and the stacks stand for the tokens that were read.
use crex.Base.{
  ℕ, suc, ◌≡◌, refl, sym, ap, ◌∙◌, Bool, true, false, List, [], ◌∷◌, ◌++◌, append_assoc, length,
  All, ltb, arith,
}
use crex.Status.{ok, ◌>>=◌, Safely, safe, stops, Safely-bind}
use crex.Parser.Tree.{
  Parsetree, Operator, repetition, concatenate, alternate, open_group, precedence,
}
use crex.Parser.Reduce.{
  Stacks, concatenate_trees, repeat_tree, pop_operator, push_operator, close_group, pop_all,
}
use crex.Parser.Yield.{
  Item, pipe, repeated, opened, closed, yield, yields, render, binaries, is_repetition,
}

-- The trees suffice for the operators, and the stacks stand for these tokens.
abbrev pub Holds : List Operator → List Parsetree → List Item → Type 0
Holds operators trees items =
    (length trees ≡ suc (binaries operators)) × (render operators (yields trees) ≡ items)

abbrev pub NoRepetition : List Operator → Type 0
NoRepetition = All (λ op. is_repetition op ≡ false)

yield-concatenate_trees :
    (left right : Parsetree) → yield (concatenate_trees left right) ≡ yield left ++ yield right
unfolding yield concatenate_trees
yield-concatenate_trees (Parsetree.concatenation trees) right = refl
yield-concatenate_trees (Parsetree.alternation l r) right = refl
yield-concatenate_trees _ right = refl

yield-repeat_tree :
    (lazy : Bool) (lower upper : ℕ) (child : Parsetree)
    → yield (repeat_tree lazy lower upper child) ≡ yield child ++ repeated lazy lower upper ∷ []
unfolding yield repeat_tree
yield-repeat_tree true lower upper child = refl
yield-repeat_tree false lower upper child = refl

-- To pop an operator that is no group changes nothing in what the stacks stand for.
pop_operator-Holds :
    (op : Operator) (operators : List Operator) (trees : List Parsetree) (items : List Item)
    → ltb (precedence op) 3 ≡ true
    → Holds (op ∷ operators) trees items
    → Safely (λ trees'. Holds operators trees' items) (pop_operator op trees)
unfolding pop_operator render binaries yield
pop_operator-Holds concatenate operators (right ∷ left ∷ trees) items p h =
    safe (omega (arith, h.0), rw (yield-concatenate_trees left right) h.1)
pop_operator-Holds concatenate operators (right ∷ []) items p h = absurd (omega (arith, h.0))
pop_operator-Holds concatenate operators [] items p h = absurd (omega (arith, h.0))
pop_operator-Holds alternate operators (right ∷ left ∷ trees) items p h =
    safe (omega (arith, h.0), h.1)
pop_operator-Holds alternate operators (right ∷ []) items p h = absurd (omega (arith, h.0))
pop_operator-Holds alternate operators [] items p h = absurd (omega (arith, h.0))
pop_operator-Holds (repetition lazy lower upper) operators (child ∷ trees) items p h =
    safe (h.0, rw (yield-repeat_tree lazy lower upper child) h.1)
pop_operator-Holds (repetition lazy lower upper) operators [] items p h =
    absurd (omega (arith, h.0))
pop_operator-Holds (open_group index) operators trees items p h = cc

-- What is added to the tokens of the top tree is added at the end of all.
pub render-append :
    (operators : List Operator) (y z : List Item) (ys : List (List Item))
    → NoRepetition operators
    → length ys ≡ binaries operators
    → render operators ((y ++ z) ∷ ys) ≡ render operators (y ∷ ys) ++ z
unfolding render binaries
render-append [] y z [] n h = refl
render-append [] y z (x ∷ ys) n h = absurd (omega arith)
render-append (concatenate ∷ operators) y z (x ∷ ys) n h =
    rw (← append_assoc) (render-append operators (x ++ y) z ys n.1 (omega arith))
render-append (concatenate ∷ operators) y z [] n h = absurd (omega arith)
render-append (alternate ∷ operators) y z (x ∷ ys) n h =
    ap (λ t. render operators (t ∷ ys)) (sym (append_assoc x (pipe ∷ y) z))
    ∙ render-append operators (x ++ pipe ∷ y) z ys n.1 (omega arith)
render-append (alternate ∷ operators) y z [] n h = absurd (omega arith)
render-append (repetition lazy lower upper ∷ operators) y z ys n h = cc (n.0)
render-append (open_group index ∷ operators) y z ys n h =
    render-append operators (opened index ∷ y) z ys n.1 h

pub length-yields : (trees : List Parsetree) → length (yields trees) ≡ length trees
length-yields [] = refl
length-yields (tree ∷ trees) = ap suc (length-yields trees)

pub suc_injective : (a b : ℕ) → suc a ≡ suc b → a ≡ b
suc_injective a b h = omega arith

abbrev pub Below : List Operator → Type 0
Below [] = Unit
Below (op ∷ operators) = NoRepetition operators

pub NoRepetition-Below : (operators : List Operator) → NoRepetition operators → Below operators
NoRepetition-Below [] n = tt
NoRepetition-Below (op ∷ operators) n = n.1

-- After `push_operator op` the stacks below `op` stand for the tokens of before, and no repetition
-- is among them.
abbrev pub Pushed : Operator → List Item → Stacks → Type 0
Pushed op items ([], trees) = ⊥
Pushed op items (top ∷ operators, trees) =
    (top ≡ op) × NoRepetition operators × Holds operators trees items

abbrev IsPlain : Operator → Type 0
IsPlain op = ltb (precedence op) 3 ≡ true

keep_top :
    (op top : Operator) (operators : List Operator)
    → ltb (precedence op) (precedence top) ≡ true
    → NoRepetition operators
    → NoRepetition (top ∷ operators)
keep_top op concatenate operators h n = (refl, n)
keep_top op alternate operators h n = (refl, n)
keep_top op (repetition lazy lower upper) operators h n = absurd (ltb-zero (precedence op) h)
  where
    ltb-zero : (a : ℕ) → ltb a 0 ≡ true → ⊥
    ltb-zero a e = ground arith
keep_top op (open_group index) operators h n = (refl, n)

lower-IsPlain :
    (op top : Operator) → IsPlain op → ltb (precedence op) (precedence top) ≡ false → IsPlain top
lower-IsPlain op top p h = ground arith

pub push_operator-Pushed :
    (op : Operator) (operators : List Operator) (trees : List Parsetree) (items : List Item)
    → IsPlain op
    → Below operators
    → Holds operators trees items
    → Safely (Pushed op items) (push_operator op operators trees)
unfolding push_operator
push_operator-Pushed op [] trees items p n h = safe (refl, tt, h)
push_operator-Pushed op (top ∷ operators) trees items p n h =
    push_round (ltb (precedence op) (precedence top)) refl (λ trees' h'.
      push_operator-Pushed op operators trees' items p (NoRepetition-Below operators n) h')
  where
    push_round :
        (b : Bool)
        → ltb (precedence op) (precedence top) ≡ b
        → ((trees' : List Parsetree)
            → Holds operators trees' items
            → Safely (Pushed op items) (push_operator op operators trees'))
        → Safely (Pushed op items) (elim b [
          | true ↦ ok (op ∷ top ∷ operators, trees)
          | false ↦ pop_operator top trees >>= push_operator op operators
        ])
    push_round true e again = safe (refl, keep_top op top operators e n, h)
    push_round false e again =
        Safely-bind {f = push_operator op operators}
          (pop_operator-Holds top operators trees items (lower-IsPlain op top p e) h) again

-- The tree of a group that closes prints as the open group and a closing parenthesis.
close_open :
    (index : ℕ) (operators : List Operator) (trees : List Parsetree) (items : List Item)
    → NoRepetition operators
    → Holds (open_group index ∷ operators) trees items
    → Safely
        (λ trees'. Holds operators trees' (items ++ closed ∷ []))
        (pop_operator (open_group index) trees)
unfolding pop_operator render binaries yield
close_open index operators [] items n h = absurd (omega (arith, h.0))
close_open index operators (child ∷ trees) items n h = safe (
  h.0,
  render-append operators (opened index ∷ yield child) (closed ∷ []) (yields trees) n
        (length-yields trees ∙ suc_injective _ _ h.0)
      ∙ ap (λ ys. ys ++ closed ∷ []) h.1,
)

-- A closing parenthesis adds itself to the tokens, if a group is open.
pub close_group-Holds :
    (operators : List Operator) (trees : List Parsetree) (items : List Item)
    → Below operators
    → Holds operators trees items
    → Safely
        (λ (operators', trees'). Below operators' × Holds operators' trees' (items ++ closed ∷ []))
        (close_group operators trees)
unfolding close_group
close_group-Holds [] trees items n h = stops
close_group-Holds (open_group index ∷ operators) trees items n h =
    Safely-bind (close_open index operators trees items n h)
      (λ trees' h'. safe (NoRepetition-Below operators n, h'))
close_group-Holds (concatenate ∷ operators) trees items n h =
    Safely-bind {f = close_group operators}
      (pop_operator-Holds concatenate operators trees items refl h)
      (λ trees' h'. close_group-Holds operators trees' items (NoRepetition-Below operators n) h')
close_group-Holds (alternate ∷ operators) trees items n h =
    Safely-bind {f = close_group operators}
      (pop_operator-Holds alternate operators trees items refl h)
      (λ trees' h'. close_group-Holds operators trees' items (NoRepetition-Below operators n) h')
close_group-Holds (repetition lazy lower upper ∷ operators) trees items n h =
    Safely-bind {f = close_group operators}
      (pop_operator-Holds (repetition lazy lower upper) operators trees items refl h)
      (λ trees' h'. close_group-Holds operators trees' items (NoRepetition-Below operators n) h')

-- At the end one tree is left, which stands for all tokens, if no group is open.
pub pop_all-Holds :
    (operators : List Operator) (trees : List Parsetree) (items : List Item)
    → Holds operators trees items
    → Safely (λ trees'. Holds [] trees' items) (pop_all operators trees)
unfolding pop_all
pop_all-Holds [] trees items h = safe h
pop_all-Holds (open_group index ∷ operators) trees items h = stops
pop_all-Holds (concatenate ∷ operators) trees items h =
    Safely-bind {f = pop_all operators}
      (pop_operator-Holds concatenate operators trees items refl h)
      (λ trees' h'. pop_all-Holds operators trees' items h')
pop_all-Holds (alternate ∷ operators) trees items h =
    Safely-bind {f = pop_all operators} (pop_operator-Holds alternate operators trees items refl h)
      (λ trees' h'. pop_all-Holds operators trees' items h')
pop_all-Holds (repetition lazy lower upper ∷ operators) trees items h =
    Safely-bind {f = pop_all operators}
      (pop_operator-Holds (repetition lazy lower upper) operators trees items refl h)
      (λ trees' h'. pop_all-Holds operators trees' items h')
