-- ===== src/Parser/Yield.antt =====
-- What the parser of src/parser.c should do, independently of its stacks: the tokens that a tree
-- prints as, and the tokens that two stacks stand for.
use crex.Base.{ℕ, suc, ◌+◌, Bool, true, false, List, [], ◌∷◌, ◌++◌}
use crex.Lexer.Token.{TokenType, AnchorType, Token}
use crex.Parser.Tree.{
  Parsetree, Parsetrees, Operator, repetition, concatenate, alternate, open_group,
  non_capturing_group,
}

-- A token, without the fields that its type does not use. A group's opening carries its index.
pub data Item : Type 0 where
  character char_class builtin_char_class : ℕ → Item
  anchor : AnchorType → Item
  pipe : Item
  repeated : Bool → ℕ → ℕ → Item
  opened : ℕ → Item
  closed : Item

-- The item of a token, where `n` groups have been counted, and the count behind it.
unfoldable pub item_of : TokenType → ℕ → Token → Item
item_of TokenType.character n token = character token.character
item_of TokenType.char_class n token = char_class token.char_class_index
item_of TokenType.builtin_char_class n token = builtin_char_class token.char_class_index
item_of TokenType.anchor n token = anchor token.anchor_type
item_of TokenType.pipe n token = pipe
item_of TokenType.greedy_repetition n token = repeated false token.lower_bound token.upper_bound
item_of TokenType.lazy_repetition n token = repeated true token.lower_bound token.upper_bound
item_of TokenType.open_paren n token = opened n
item_of TokenType.non_capturing_open_paren n token = opened non_capturing_group
item_of TokenType.close_paren n token = closed

unfoldable pub groups_after : TokenType → ℕ → ℕ
groups_after TokenType.open_paren n = n + 1
groups_after _ n = n

-- The tokens of a tree, in order.
unfoldable mutual
  pub yield : Parsetree → List Item
  yield (Parsetree.concatenation trees) = yield_all trees
  yield (Parsetree.alternation left right) = yield left ++ pipe ∷ yield right
  yield (Parsetree.greedy_repetition lower upper child) =
      yield child ++ repeated false lower upper ∷ []
  yield (Parsetree.lazy_repetition lower upper child) =
      yield child ++ repeated true lower upper ∷ []
  yield (Parsetree.group index child) = opened index ∷ (yield child ++ closed ∷ [])
  yield Parsetree.empty = []
  yield (Parsetree.character c) = character c ∷ []
  yield (Parsetree.char_class index) = char_class index ∷ []
  yield (Parsetree.builtin_char_class index) = builtin_char_class index ∷ []
  yield (Parsetree.anchor type) = anchor type ∷ []

  pub yield_all : Parsetrees → List Item
  yield_all Parsetrees.none_yet = []
  yield_all (Parsetrees.push trees tree) = yield_all trees ++ yield tree

abbrev pub yields : List Parsetree → List (List Item)
yields [] = []
yields (tree ∷ trees) = yield tree ∷ yields trees

-- An operator joins the tokens on both sides of it. A group that is still open has no closing yet.
abbrev pub join : Operator → List (List Item) → List (List Item)
join concatenate (y ∷ x ∷ ys) = (x ++ y) ∷ ys
join alternate (y ∷ x ∷ ys) = (x ++ pipe ∷ y) ∷ ys
join (repetition lazy lower upper) (y ∷ ys) = (y ++ repeated lazy lower upper ∷ []) ∷ ys
join (open_group index) (y ∷ ys) = (opened index ∷ y) ∷ ys
join _ _ = []

abbrev pub bottom : List (List Item) → List Item
bottom (y ∷ []) = y
bottom _ = []

-- The tokens that the stacks stand for.
unfoldable pub render : List Operator → List (List Item) → List Item
render [] ys = bottom ys
render (op ∷ operators) ys = render operators (join op ys)

-- The operators that take two trees.
unfoldable pub binaries : List Operator → ℕ
binaries [] = 0
binaries (concatenate ∷ operators) = suc (binaries operators)
binaries (alternate ∷ operators) = suc (binaries operators)
binaries (_ ∷ operators) = binaries operators

abbrev pub is_repetition : Operator → Bool
is_repetition (repetition _ _ _) = true
is_repetition _ = false
