-- ===== src/Parser/Parse.antt =====
-- `parse` of src/parser.c.
use crex.Base.{ℕ, zero, suc, ◌+◌, Bool, true, false, List, [], ◌∷◌, length}
use crex.Status.{Result, ok, undefined, out_of_fuel, ◌>>=◌}
use crex.Lexer.Token.{TokenType, Token, CharClasses}
use crex.Lexer.Lex.{lex}
use crex.Parser.Tree.{
  Parsetree, Operator, repetition, concatenate, alternate, open_group, non_capturing_group,
}
use crex.Parser.Reduce.{Stacks, push_operator, close_group, pop_all}

-- The variables of `parse`.
pub record Parser : Type 0 where
  pub operators : List Operator
  pub trees : List Parsetree
  pub n_capturing_groups : ℕ

abbrev pub with_stacks : Parser → Stacks → Parser
with_stacks p (operators, trees) = record p { operators = operators; trees = trees }

-- A character, a class or an anchor, behind an implicit concatenation.
unfoldable pub push_scalar : Parser → Parsetree → Result Parser
push_scalar p tree = push_operator concatenate p.operators p.trees >>= λ (operators, trees).
    ok (record p { operators = operators; trees = tree ∷ trees })

unfoldable pub push_pipe : Parser → Result Parser
push_pipe p = push_operator alternate p.operators p.trees >>= λ (operators, trees).
    ok (record p { operators = operators; trees = Parsetree.empty ∷ trees })

unfoldable pub push_repetition : Parser → Bool → Token → Result Parser
push_repetition p lazy token =
    push_operator (repetition lazy token.lower_bound token.upper_bound) p.operators p.trees
    >>= λ stacks. ok (with_stacks p stacks)

-- A group with this index; `n` is the number of capturing groups behind it.
unfoldable pub push_group : Parser → ℕ → ℕ → Result Parser
push_group p index n = push_operator concatenate p.operators p.trees >>= λ (operators, trees).
    ok (record {
      operators = open_group index ∷ operators;
      trees = Parsetree.empty ∷ trees;
      n_capturing_groups = n;
    })

-- The switch on the type of a token.
unfoldable pub parse_token : TokenType → Parser → Token → Result Parser
unfolding push_scalar push_pipe push_repetition push_group
parse_token TokenType.character p token = push_scalar p (Parsetree.character token.character)
parse_token TokenType.char_class p token =
    push_scalar p (Parsetree.char_class token.char_class_index)
parse_token TokenType.builtin_char_class p token =
    push_scalar p (Parsetree.builtin_char_class token.char_class_index)
parse_token TokenType.anchor p token = push_scalar p (Parsetree.anchor token.anchor_type)
parse_token TokenType.pipe p token = push_pipe p
parse_token TokenType.greedy_repetition p token = push_repetition p false token
parse_token TokenType.lazy_repetition p token = push_repetition p true token
parse_token TokenType.open_paren p token =
    push_group p p.n_capturing_groups (p.n_capturing_groups + 1)
parse_token TokenType.non_capturing_open_paren p token =
    push_group p non_capturing_group p.n_capturing_groups
parse_token TokenType.close_paren p token =
    close_group p.operators p.trees >>= λ stacks. ok (with_stacks p stacks)

-- The stacks hold one empty tree, and group 0 is reserved for the whole pattern.
abbrev pub initial : Parser
initial = record { operators = []; trees = Parsetree.empty ∷ []; n_capturing_groups = 1 }

-- The tree of the whole pattern, the number of its groups and its classes.
abbrev pub Parsed : Type 0
Parsed = Parsetree × ℕ × CharClasses

-- What `parse` does behind its loop, with the one tree that is left.
unfoldable pub wrap_tree : ℕ → CharClasses → List Parsetree → Result Parsed
wrap_tree n classes (tree ∷ []) = ok (Parsetree.group 0 tree, n, classes)
wrap_tree n classes _ = undefined

-- `stale` is what `token_t token` holds before `lex` writes it, and `alloc` whether the lexer's
-- `ALLOC` succeeds, in the round with so much fuel left.
module _ (stale : ℕ → Token) (alloc : ℕ → Bool) where
  -- The loop over the pattern, on fuel: each round takes a byte.
  unfoldable pub parse_loop : ℕ → CharClasses → Parser → List ℕ → Result (CharClasses × Parser)
  unfolding lex parse_token
  parse_loop fuel classes p [] = ok (classes, p)
  parse_loop zero classes p (c ∷ pattern) = out_of_fuel
  parse_loop (suc fuel) classes p (c ∷ pattern) =
      lex (alloc fuel) classes (stale fuel) (c ∷ pattern) >>= λ (token, rest, classes').
      parse_token token.type p token >>= λ p'. parse_loop fuel classes' p' rest

  unfoldable pub parse : CharClasses → List ℕ → Result Parsed
  unfolding parse_loop pop_all wrap_tree
  parse classes pattern = parse_loop (length pattern) classes initial pattern >>= λ (classes', p).
      pop_all p.operators p.trees >>= wrap_tree p.n_capturing_groups classes'
