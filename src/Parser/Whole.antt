-- ===== src/Parser/Whole.antt =====
-- `parse` of src/parser.c, from the bytes of a pattern to its tree.
use crex.Base.{
  ℕ, zero, suc, ◌≤◌, ◌≡◌, refl, sym, ap, Bool, List, [], ◌∷◌, ◌++◌, append_assoc, append-nil,
  length, arith, length-Suffix, subst,
}
use crex.Status.{
  Result, ok, out_of_fuel, ◌>>=◌, Ensures, Ensures-bind_eq, Ensures-weaken, returns, Safely-Ensures,
}
use crex.Lexer.Token.{Token, CharClasses}
use crex.Lexer.Lex.{lex}
use crex.Lexer.Total.{lex-Ensures}
use crex.Parser.Tree.{Parsetree}
use crex.Parser.Parse.{Parser, initial, Parsed, wrap_tree, parse_loop, parse}
use crex.Parser.Yield.{Item, opened, closed, item_of, groups_after, yield, render, binaries}
use crex.Parser.Invariant.{Holds, pop_all-Holds}
use crex.Parser.Correct.{IsParser, parse_token-Safely}

module _ (stale : ℕ → Token) (alloc : ℕ → Bool) where
  -- The tokens of a pattern, with the number of groups and the classes behind them, by the lexer
  -- alone.
  unfoldable pub lex_items : ℕ → CharClasses → ℕ → List ℕ → Result (List Item × ℕ × CharClasses)
  lex_items fuel classes n [] = ok ([], n, classes)
  lex_items zero classes n (c ∷ pattern) = out_of_fuel
  lex_items (suc fuel) classes n (c ∷ pattern) =
      lex (alloc fuel) classes (stale fuel) (c ∷ pattern) >>= λ (token, rest, classes').
      lex_items fuel classes' (groups_after token.type n) rest >>= λ (items, n', classes'').
      ok (item_of token.type n token ∷ items, n', classes'')

  items_step :
      (fuel : ℕ) (classes classes' classes'' : CharClasses) (n m k c : ℕ) (pattern rest : List ℕ)
      (token : Token) (items : List Item)
      → lex (alloc fuel) classes (stale fuel) (c ∷ pattern) ≡ ok (token, rest, classes')
      → m ≡ groups_after token.type n
      → lex_items fuel classes' m rest ≡ ok (items, k, classes'')
      → lex_items (suc fuel) classes n (c ∷ pattern)
        ≡ ok (item_of token.type n token ∷ items, k, classes'')
  unfolding lex_items
  items_step fuel classes classes' classes'' n m k c pattern rest token items lexed counts lexes =
      rw lexed (
        ap
          (λ (r : Result (List Item × ℕ × CharClasses)).
            r >>= λ (items', n', cs). ok (item_of token.type n token ∷ items', n', cs))
          (subst (λ t. lex_items fuel classes' t rest ≡ ok (items, k, classes'')) counts lexes))

  -- The loop has read the tokens of the pattern behind these.
  abbrev ReadsAll : ℕ → CharClasses → Parser → List Item → List ℕ → CharClasses × Parser → Type 0
  ReadsAll fuel classes p before pattern (classes', p') =
      (items : List Item) × (lex_items fuel classes p.n_capturing_groups pattern
        ≡ ok (items, p'.n_capturing_groups, classes'))
      × IsParser p' (before ++ items)

  parse_loop-ReadsAll :
      (fuel : ℕ) (classes : CharClasses) (p : Parser) (before : List Item) (pattern : List ℕ)
      → length pattern ≤ fuel
      → IsParser p before
      → Ensures
          (ReadsAll fuel classes p before pattern)
          (parse_loop stale alloc fuel classes p pattern)
  unfolding parse_loop lex_items
  parse_loop-ReadsAll fuel classes p before [] h i =
      returns ([], refl, subst (IsParser p) (sym (append-nil before)) i)
  parse_loop-ReadsAll zero classes p before (c ∷ pattern) h i = absurd (omega arith)
  parse_loop-ReadsAll (suc fuel) classes p before (c ∷ pattern) h i =
      Ensures-bind_eq (lex-Ensures (alloc fuel) classes (stale fuel) c pattern)
        (λ (token, rest, classes') lexed suffix.
          Ensures-bind_eq (Safely-Ensures (parse_token-Safely p before i token.type token))
            (λ p' parsed (counts, is_parser).
              Ensures-weaken
                (λ (classes'', p'') (items, lexes, is_parser'). (
                  item_of token.type p.n_capturing_groups token ∷ items,
                  items_step fuel classes classes' classes'' p.n_capturing_groups
                      p'.n_capturing_groups p''.n_capturing_groups c pattern rest token items lexed
                      counts lexes,
                  subst (IsParser p'') (append_assoc before _ items) is_parser',
                ))
                (parse_loop-ReadsAll fuel classes' p' _ rest (omega (arith, length-Suffix suffix))
                  is_parser)))

  -- What `wrap_tree` makes of the tree that is left.
  abbrev pub Describes : List ℕ → CharClasses → Parsed → Type 0
  Describes pattern classes (tree, n, classes') =
      (items : List Item) × (lex_items (length pattern) classes 1 pattern ≡ ok (items, n, classes'))
      × (yield tree ≡ opened 0 ∷ (items ++ closed ∷ []))

  wrap_tree-Describes :
      (pattern : List ℕ) (classes classes' : CharClasses) (n : ℕ) (items : List Item)
      (trees : List Parsetree)
      → lex_items (length pattern) classes 1 pattern ≡ ok (items, n, classes')
      → Holds [] trees items
      → Ensures (Describes pattern classes) (wrap_tree n classes' trees)
  unfolding wrap_tree render binaries yield
  wrap_tree-Describes pattern classes classes' n items [] e h = absurd (omega (arith, h.0))
  wrap_tree-Describes pattern classes classes' n items (tree ∷ []) e h =
      returns (items, e, ap (λ ys. opened 0 ∷ (ys ++ closed ∷ [])) h.1)
  wrap_tree-Describes pattern classes classes' n items (tree ∷ _ ∷ _) e h =
      absurd (omega (arith, h.0))

  -- `parse` never runs out of fuel: for every pattern it gives a tree, a status or what C leaves
  -- undefined. A tree that it gives prints as the tokens that `lex` reads in the pattern, in their
  -- order, inside group 0; every group has the index that its opening was counted with, and the
  -- number of groups is the count at the end.
  pub parse-Ensures :
      (classes : CharClasses) (pattern : List ℕ)
      → Ensures (Describes pattern classes) (parse stale alloc classes pattern)
  unfolding parse render binaries yield
  parse-Ensures classes pattern =
      Ensures-bind_eq
        (parse_loop-ReadsAll (length pattern) classes initial [] pattern (omega arith) start)
        (λ (classes', p) _ (items, lexes, is_parser).
          Ensures-bind_eq (Safely-Ensures (pop_all-Holds p.operators p.trees items is_parser.holds))
            (λ trees _ holds.
              wrap_tree-Describes pattern classes classes' p.n_capturing_groups items trees lexes
                holds))
    where
      start : IsParser initial []
      start = record { below = tt; holds = (refl, refl) }
