-- ===== src/Parser/Refused.antt =====
-- Which tokens `parse` of src/parser.c refuses, and with what status.
use crex.Base.{◌≡◌, refl, Bool, true, false, List, [], ◌∷◌, ltb}
use crex.Status.{
  Status, ok, ◌>>=◌, unmatched_close_paren, FailsAs, passes, stops_as, undefined_as, FailsAs-bind,
  Allows, gives, refuses, Allows-any, Allows-bind,
}
use crex.Lexer.Token.{TokenType, Token}
use crex.Parser.Tree.{
  Parsetree, Operator, repetition, concatenate, alternate, open_group, precedence,
}
use crex.Parser.Reduce.{pop_operator, push_operator, close_group}
use crex.Parser.Parse.{Parser, push_scalar, push_pipe, push_repetition, push_group, parse_token}

-- A group is open.
pub is_open : List Operator → Bool
is_open [] = false
is_open (open_group index ∷ operators) = true
is_open (concatenate ∷ operators) = is_open operators
is_open (alternate ∷ operators) = is_open operators
is_open (repetition lazy lower upper ∷ operators) = is_open operators

-- A closing parenthesis closes a group.
pub accepts : TokenType → List Operator → Bool
unfolding is_open
accepts TokenType.close_paren operators = is_open operators
accepts _ operators = true

module _ {E : Status → Type 0} where
  pop_operator-FailsAs :
      (op : Operator) (trees : List Parsetree) → FailsAs E (pop_operator op trees)
  unfolding pop_operator
  pop_operator-FailsAs concatenate [] = undefined_as
  pop_operator-FailsAs concatenate (right ∷ []) = undefined_as
  pop_operator-FailsAs concatenate (right ∷ left ∷ trees) = passes
  pop_operator-FailsAs alternate [] = undefined_as
  pop_operator-FailsAs alternate (right ∷ []) = undefined_as
  pop_operator-FailsAs alternate (right ∷ left ∷ trees) = passes
  pop_operator-FailsAs (repetition lazy lower upper) [] = undefined_as
  pop_operator-FailsAs (repetition lazy lower upper) (child ∷ trees) = passes
  pop_operator-FailsAs (open_group index) [] = undefined_as
  pop_operator-FailsAs (open_group index) (child ∷ trees) = passes

  push_operator-FailsAs :
      (op : Operator) (operators : List Operator) (trees : List Parsetree)
      → FailsAs E (push_operator op operators trees)
  unfolding push_operator
  push_operator-FailsAs op [] trees = passes
  push_operator-FailsAs op (top ∷ operators) trees =
      go (ltb (precedence op) (precedence top)) (push_operator-FailsAs op operators)
    where
      go :
          (b : Bool)
          → ((trees' : List Parsetree) → FailsAs E (push_operator op operators trees'))
          → FailsAs E (elim b [
            | true ↦ ok (op ∷ top ∷ operators, trees)
            | false ↦ pop_operator top trees >>= push_operator op operators
          ])
      go true again = passes
      go false again = FailsAs-bind (pop_operator-FailsAs top trees) again

-- A closing parenthesis is refused only where no group is open, as unmatched.
close_group-FailsAs :
    (operators : List Operator) (trees : List Parsetree)
    → FailsAs
        (λ e. (e ≡ unmatched_close_paren) × (is_open operators ≡ false))
        (close_group operators trees)
unfolding close_group is_open
close_group-FailsAs [] trees = stops_as (refl, refl)
close_group-FailsAs (open_group index ∷ operators) trees =
    FailsAs-bind (pop_operator-FailsAs (open_group index) trees) (λ t. passes)
close_group-FailsAs (concatenate ∷ operators) trees =
    FailsAs-bind (pop_operator-FailsAs concatenate trees) (close_group-FailsAs operators)
close_group-FailsAs (alternate ∷ operators) trees =
    FailsAs-bind (pop_operator-FailsAs alternate trees) (close_group-FailsAs operators)
close_group-FailsAs (repetition lazy lower upper ∷ operators) trees =
    FailsAs-bind (pop_operator-FailsAs (repetition lazy lower upper) trees)
      (close_group-FailsAs operators)

-- It is read only where one is.
close_group-open :
    (operators : List Operator) (trees : List Parsetree)
    → Allows (λ s. is_open operators ≡ true) (close_group operators trees)
unfolding close_group is_open
close_group-open [] trees = refuses
close_group-open (open_group index ∷ operators) trees =
    Allows-bind (Allows-any (pop_operator (open_group index) trees)) (λ t h. gives refl)
close_group-open (concatenate ∷ operators) trees =
    Allows-bind (Allows-any (pop_operator concatenate trees)) (λ t h. close_group-open operators t)
close_group-open (alternate ∷ operators) trees =
    Allows-bind (Allows-any (pop_operator alternate trees)) (λ t h. close_group-open operators t)
close_group-open (repetition lazy lower upper ∷ operators) trees =
    Allows-bind (Allows-any (pop_operator (repetition lazy lower upper) trees))
      (λ t h. close_group-open operators t)

pub parse_token-FailsAs :
    (type : TokenType) (p : Parser) (token : Token)
    → FailsAs
        (λ e. (e ≡ unmatched_close_paren) × (accepts type p.operators ≡ false))
        (parse_token type p token)
unfolding parse_token push_scalar push_pipe push_repetition push_group accepts
parse_token-FailsAs TokenType.close_paren p token =
    FailsAs-bind (close_group-FailsAs p.operators p.trees) (λ s. passes)
parse_token-FailsAs TokenType.character p token =
    FailsAs-bind (push_operator-FailsAs concatenate _ _) (λ s. passes)
parse_token-FailsAs TokenType.char_class p token =
    FailsAs-bind (push_operator-FailsAs concatenate _ _) (λ s. passes)
parse_token-FailsAs TokenType.builtin_char_class p token =
    FailsAs-bind (push_operator-FailsAs concatenate _ _) (λ s. passes)
parse_token-FailsAs TokenType.anchor p token =
    FailsAs-bind (push_operator-FailsAs concatenate _ _) (λ s. passes)
parse_token-FailsAs TokenType.pipe p token =
    FailsAs-bind (push_operator-FailsAs alternate _ _) (λ s. passes)
parse_token-FailsAs TokenType.greedy_repetition p token =
    FailsAs-bind (push_operator-FailsAs (repetition _ _ _) _ _) (λ s. passes)
parse_token-FailsAs TokenType.lazy_repetition p token =
    FailsAs-bind (push_operator-FailsAs (repetition _ _ _) _ _) (λ s. passes)
parse_token-FailsAs TokenType.open_paren p token =
    FailsAs-bind (push_operator-FailsAs concatenate _ _) (λ s. passes)
parse_token-FailsAs TokenType.non_capturing_open_paren p token =
    FailsAs-bind (push_operator-FailsAs concatenate _ _) (λ s. passes)

pub parse_token-accepts :
    (type : TokenType) (p : Parser) (token : Token)
    → Allows (λ p'. accepts type p.operators ≡ true) (parse_token type p token)
unfolding parse_token accepts
parse_token-accepts TokenType.close_paren p token =
    Allows-bind (close_group-open p.operators p.trees) (λ s h. gives h)
parse_token-accepts type p token = Allows-any _
