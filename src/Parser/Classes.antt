-- ===== src/Parser/Classes.antt =====
-- The classes of the tree that src/parser.c makes are those of the table that the lexer has filled.
use crex.Base.{
  ℕ, zero, suc, ◌≤◌, ◌<◌, Bool, true, false, List, [], ◌∷◌, All, length, ltb, Suffix, here, there,
  length-Suffix, arith,
}
use crex.CharClass.{n_builtin_classes}
use crex.Status.{
  ok, ◌>>=◌, Ensures, Ensures-Allows, Ensures-both, Ensures-bind, returns, fails, faults,
}
use crex.Lexer.Token.{TokenType, Token, CharClasses}
use crex.Lexer.Total.{lex-Ensures}
use crex.Lexer.WellFormed.{Fits, AllBytes, lex-IsToken}
use crex.Lexer.Table.{IsTable, lex-IsTable}
use crex.Bytecode.Limits.{Limits}
use crex.Parser.Tree.{
  Parsetree, Operator, repetition, concatenate, alternate, open_group, precedence,
}
use crex.Parser.Reduce.{
  Stacks, concatenate_trees, repeat_tree, pop_operator, push_operator, close_group, pop_all,
}
use crex.Parser.Parse.{
  Parser, initial, push_scalar, push_pipe, push_repetition, push_group, parse_token, wrap_tree,
  parse_loop, parse,
}
use crex.Parser.Within.{TreeWithin, TreeWithin-weaken}

-- The classes of a table of this size, and the built-in ones.
abbrev pub table_limits : ℕ → Limits
table_limits n = record {
  classes = λ i. i < n;
  builtins = λ i. i < n_builtin_classes;
  flags = λ _. Unit;
}

module _ (limits : Limits) where
  abbrev AllWithin : List Parsetree → Type 0
  AllWithin = All (TreeWithin limits)

  concatenate_trees-TreeWithin :
      (left right : Parsetree)
      → TreeWithin limits left
      → TreeWithin limits right
      → TreeWithin limits (concatenate_trees left right)
  unfolding concatenate_trees TreeWithin
  concatenate_trees-TreeWithin (Parsetree.concatenation trees) right h k = (h, k)
  concatenate_trees-TreeWithin (Parsetree.alternation a b) right h k = ((tt, h), k)
  concatenate_trees-TreeWithin (Parsetree.greedy_repetition l u t) right h k = ((tt, h), k)
  concatenate_trees-TreeWithin (Parsetree.lazy_repetition l u t) right h k = ((tt, h), k)
  concatenate_trees-TreeWithin (Parsetree.group i t) right h k = ((tt, h), k)
  concatenate_trees-TreeWithin (Parsetree.char_class i) right h k = ((tt, h), k)
  concatenate_trees-TreeWithin (Parsetree.builtin_char_class i) right h k = ((tt, h), k)
  concatenate_trees-TreeWithin Parsetree.empty right h k = ((tt, h), k)
  concatenate_trees-TreeWithin (Parsetree.character c) right h k = ((tt, h), k)
  concatenate_trees-TreeWithin (Parsetree.anchor type) right h k = ((tt, h), k)

  pop_operator-AllWithin :
      (op : Operator) (trees : List Parsetree)
      → AllWithin trees
      → Ensures AllWithin (pop_operator op trees)
  unfolding pop_operator repeat_tree TreeWithin
  pop_operator-AllWithin concatenate [] h = faults
  pop_operator-AllWithin concatenate (right ∷ []) h = faults
  pop_operator-AllWithin concatenate (right ∷ left ∷ trees) h =
      returns (concatenate_trees-TreeWithin left right h.1.0 h.0, h.1.1)
  pop_operator-AllWithin alternate [] h = faults
  pop_operator-AllWithin alternate (right ∷ []) h = faults
  pop_operator-AllWithin alternate (right ∷ left ∷ trees) h = returns ((h.1.0, h.0), h.1.1)
  pop_operator-AllWithin (repetition true lower upper) [] h = faults
  pop_operator-AllWithin (repetition false lower upper) [] h = faults
  pop_operator-AllWithin (repetition true lower upper) (child ∷ trees) h = returns h
  pop_operator-AllWithin (repetition false lower upper) (child ∷ trees) h = returns h
  pop_operator-AllWithin (open_group index) [] h = faults
  pop_operator-AllWithin (open_group index) (child ∷ trees) h = returns h

  abbrev StacksWithin : Stacks → Type 0
  StacksWithin stacks = AllWithin stacks.1

  push_operator-StacksWithin :
      (op : Operator) (operators : List Operator) (trees : List Parsetree)
      → AllWithin trees
      → Ensures StacksWithin (push_operator op operators trees)
  unfolding push_operator
  push_operator-StacksWithin op [] trees h = returns h
  push_operator-StacksWithin op (top ∷ operators) trees h =
      go (ltb (precedence op) (precedence top))
        (λ trees' k. push_operator-StacksWithin op operators trees' k)
    where
      go :
          (b : Bool)
          → ((trees' : List Parsetree)
              → AllWithin trees'
              → Ensures StacksWithin (push_operator op operators trees'))
          → Ensures StacksWithin (elim b [
            | true ↦ ok (op ∷ top ∷ operators, trees)
            | false ↦ pop_operator top trees >>= push_operator op operators
          ])
      go true next = returns h
      go false next = Ensures-bind (pop_operator-AllWithin top trees h) next

  close_group-StacksWithin :
      (operators : List Operator) (trees : List Parsetree)
      → AllWithin trees
      → Ensures StacksWithin (close_group operators trees)
  unfolding close_group
  close_group-StacksWithin [] trees h = fails
  close_group-StacksWithin (open_group index ∷ operators) trees h =
      Ensures-bind (pop_operator-AllWithin (open_group index) trees h) (λ _ k. returns k)
  close_group-StacksWithin (concatenate ∷ operators) trees h =
      Ensures-bind (pop_operator-AllWithin concatenate trees h) (close_group-StacksWithin operators)
  close_group-StacksWithin (alternate ∷ operators) trees h =
      Ensures-bind (pop_operator-AllWithin alternate trees h) (close_group-StacksWithin operators)
  close_group-StacksWithin (repetition lazy lower upper ∷ operators) trees h =
      Ensures-bind (pop_operator-AllWithin (repetition lazy lower upper) trees h)
        (close_group-StacksWithin operators)

  pop_all-AllWithin :
      (operators : List Operator) (trees : List Parsetree)
      → AllWithin trees
      → Ensures AllWithin (pop_all operators trees)
  unfolding pop_all
  pop_all-AllWithin [] trees h = returns h
  pop_all-AllWithin (open_group index ∷ operators) trees h = fails
  pop_all-AllWithin (concatenate ∷ operators) trees h =
      Ensures-bind (pop_operator-AllWithin concatenate trees h) (pop_all-AllWithin operators)
  pop_all-AllWithin (alternate ∷ operators) trees h =
      Ensures-bind (pop_operator-AllWithin alternate trees h) (pop_all-AllWithin operators)
  pop_all-AllWithin (repetition lazy lower upper ∷ operators) trees h =
      Ensures-bind (pop_operator-AllWithin (repetition lazy lower upper) trees h)
        (pop_all-AllWithin operators)

  abbrev ParserWithin : Parser → Type 0
  ParserWithin p = AllWithin p.trees

  push_scalar-ParserWithin :
      (p : Parser) (tree : Parsetree)
      → ParserWithin p
      → TreeWithin limits tree
      → Ensures ParserWithin (push_scalar p tree)
  unfolding push_scalar
  push_scalar-ParserWithin p tree h k =
      Ensures-bind (push_operator-StacksWithin concatenate p.operators p.trees h)
        (λ _ l. returns (k, l))

  push_repetition-ParserWithin :
      (p : Parser) (lazy : Bool) (token : Token)
      → ParserWithin p
      → Ensures ParserWithin (push_repetition p lazy token)
  unfolding push_repetition
  push_repetition-ParserWithin p lazy token h =
      Ensures-bind
        (push_operator-StacksWithin (repetition lazy token.lower_bound token.upper_bound)
          p.operators p.trees h)
        (λ _ l. returns l)

  push_group-ParserWithin :
      (p : Parser) (index n : ℕ) → ParserWithin p → Ensures ParserWithin (push_group p index n)
  unfolding push_group TreeWithin
  push_group-ParserWithin p index n h =
      Ensures-bind (push_operator-StacksWithin concatenate p.operators p.trees h)
        (λ _ l. returns (tt, l))

parse_token-ParserWithin :
    (n : ℕ) (type : TokenType) (p : Parser) (token : Token)
    → ParserWithin (table_limits n) p
    → Fits type n token
    → Ensures (ParserWithin (table_limits n)) (parse_token type p token)
unfolding parse_token push_pipe TreeWithin
parse_token-ParserWithin n TokenType.character p token h k =
    push_scalar-ParserWithin (table_limits n) p _ h tt
parse_token-ParserWithin n TokenType.char_class p token h k =
    push_scalar-ParserWithin (table_limits n) p _ h k
parse_token-ParserWithin n TokenType.builtin_char_class p token h k =
    push_scalar-ParserWithin (table_limits n) p _ h k
parse_token-ParserWithin n TokenType.anchor p token h k =
    push_scalar-ParserWithin (table_limits n) p _ h tt
parse_token-ParserWithin n TokenType.pipe p token h k =
    Ensures-bind (push_operator-StacksWithin (table_limits n) alternate p.operators p.trees h)
      (λ _ l. returns (tt, l))
parse_token-ParserWithin n TokenType.greedy_repetition p token h k =
    push_repetition-ParserWithin (table_limits n) p false token h
parse_token-ParserWithin n TokenType.lazy_repetition p token h k =
    push_repetition-ParserWithin (table_limits n) p true token h
parse_token-ParserWithin n TokenType.open_paren p token h k =
    push_group-ParserWithin (table_limits n) p _ _ h
parse_token-ParserWithin n TokenType.non_capturing_open_paren p token h k =
    push_group-ParserWithin (table_limits n) p _ _ h
parse_token-ParserWithin n TokenType.close_paren p token h k =
    Ensures-bind (close_group-StacksWithin (table_limits n) p.operators p.trees h)
      (λ _ l. returns l)

AllWithin-grow :
    (n m : ℕ) (trees : List Parsetree)
    → n ≤ m
    → AllWithin (table_limits n) trees
    → AllWithin (table_limits m) trees
AllWithin-grow n m [] l h = tt
AllWithin-grow n m (t ∷ trees) l h = (
  TreeWithin-weaken (table_limits n) (table_limits m) (λ i k. omega arith) (λ i k. k) t h.0,
  AllWithin-grow n m trees l h.1,
)

Suffix-AllBytes : (xs ys : List ℕ) → Suffix xs ys → AllBytes ys → AllBytes xs
Suffix-AllBytes xs ys here h = h
Suffix-AllBytes xs (y ∷ ys) (there s) h = Suffix-AllBytes xs ys s h.1

module _ (stale : ℕ → Token) (alloc : ℕ → Bool) (bytes : (i : ℕ) → (stale i).character < 256) where
  parse_loop-ParserWithin :
      (fuel : ℕ) (classes : CharClasses) (p : Parser) (pattern : List ℕ)
      → length pattern ≤ fuel
      → IsTable classes
      → AllBytes pattern
      → ParserWithin (table_limits (length classes.entries)) p
      → Ensures
          (λ (cs, p'). ParserWithin (table_limits (length cs.entries)) p')
          (parse_loop stale alloc fuel classes p pattern)
  unfolding parse_loop
  parse_loop-ParserWithin fuel classes p [] l t b h = returns h
  parse_loop-ParserWithin zero classes p (c ∷ pattern) l t b h = absurd (omega arith)
  parse_loop-ParserWithin (suc fuel) classes p (c ∷ pattern) l t b h =
      Ensures-bind
        (Ensures-both (lex-Ensures (alloc fuel) classes (stale fuel) c pattern) (
          Ensures-Allows (
            Ensures-both (lex-IsToken (alloc fuel) classes (stale fuel) c pattern (bytes fuel) b)
              (Ensures-Allows (lex-IsTable (alloc fuel) classes (stale fuel) c pattern t)))))
        (λ (token, rest, classes') (suffix, (fits, table)).
          Ensures-bind
            (parse_token-ParserWithin (length classes'.entries) token.type p token
              (AllWithin-grow (length classes.entries) _ p.trees table.1.grows h) fits)
            (λ p' k.
              parse_loop-ParserWithin fuel classes' p' rest (omega (arith, length-Suffix suffix))
                table.0 (Suffix-AllBytes rest pattern suffix b.1) k))

  wrap_tree-TreeWithin :
      (n : ℕ) (classes : CharClasses) (trees : List Parsetree)
      → AllWithin (table_limits (length classes.entries)) trees
      → Ensures
          (λ (tree, _, cs). TreeWithin (table_limits (length cs.entries)) tree)
          (wrap_tree n classes trees)
  unfolding wrap_tree TreeWithin
  wrap_tree-TreeWithin n classes [] h = faults
  wrap_tree-TreeWithin n classes (tree ∷ []) h = returns h.0
  wrap_tree-TreeWithin n classes (tree ∷ _ ∷ _) h = faults

  -- The classes of a tree that `parse` makes of a pattern of bytes are in the table that it returns,
  -- and its built-in classes are among the 18 that there are.
  pub parse-TreeWithin :
      (classes : CharClasses) (pattern : List ℕ)
      → IsTable classes
      → AllBytes pattern
      → Ensures
          (λ (tree, _, cs). TreeWithin (table_limits (length cs.entries)) tree)
          (parse stale alloc classes pattern)
  unfolding parse TreeWithin
  parse-TreeWithin classes pattern t b =
      Ensures-bind
        (parse_loop-ParserWithin (length pattern) classes initial pattern (omega arith) t b
          (tt, tt))
        (λ (cs, p) h.
          Ensures-bind (pop_all-AllWithin (table_limits (length cs.entries)) p.operators p.trees h)
            (λ trees k. wrap_tree-TreeWithin p.n_capturing_groups cs trees k))
