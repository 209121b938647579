-- ===== src/Parser/Tree.antt =====
-- `parsetree_t` of src/parser.h and `operator_t` of src/parser.c.
use crex.Base.{ℕ, ◌-◌, ◌^◌, Bool}
use crex.Lexer.Token.{AnchorType}

-- The vector of a concatenation is pushed at its end, so `push` holds what came before.
mutual
  pub data Parsetree : Type 0 where
    concatenation : Parsetrees → Parsetree
    alternation : Parsetree → Parsetree → Parsetree
    greedy_repetition lazy_repetition : ℕ → ℕ → Parsetree → Parsetree
    group : ℕ → Parsetree → Parsetree
    empty : Parsetree
    character char_class builtin_char_class : ℕ → Parsetree
    anchor : AnchorType → Parsetree

  pub data Parsetrees : Type 0 where
    none_yet : Parsetrees
    push : Parsetrees → Parsetree → Parsetrees

pub data Operator : Type 0 where
  repetition : Bool → ℕ → ℕ → Operator
  concatenate alternate : Operator
  open_group : ℕ → Operator

-- The value of `operator_type_t`: the operators in descending order of precedence, then groups.
abbrev pub precedence : Operator → ℕ
precedence (repetition lazy lower upper) = 0
precedence concatenate = 1
precedence alternate = 2
precedence (open_group index) = 3

-- `SIZE_MAX`, the index of a group that captures nothing.
abbrev pub non_capturing_group : ℕ
non_capturing_group = 2 ^ 64 - 1
