-- ===== src/Parser/Correct.antt =====
-- `parse` of src/parser.c against the tokens that `lex` reads: the tree prints as those tokens.
use crex.Base.{ℕ, ◌≡◌, refl, sym, ap, ◌∙◌, Bool, true, false, List, [], ◌∷◌, ◌++◌, arith, subst}
use crex.Status.{
  Safely, safe, Safely-bind, Safely-both, Safely-Reports, Reports, unmatched_close_paren,
}
use crex.Parser.Refused.{accepts, parse_token-accepts, parse_token-FailsAs}
use crex.Lexer.Token.{TokenType, Token}
use crex.Parser.Tree.{Parsetree, Operator, repetition, concatenate, alternate, open_group}
use crex.Parser.Reduce.{Stacks}
use crex.Parser.Parse.{Parser, push_scalar, push_pipe, push_repetition, push_group, parse_token}
use crex.Parser.Yield.{
  Item, pipe, repeated, opened, item_of, groups_after, yield, yields, render, binaries,
  is_repetition,
}
use crex.Parser.Invariant.{
  Holds, NoRepetition, Below, Pushed, render-append, push_operator-Pushed, close_group-Holds,
  length-yields, suc_injective,
}

-- The parser has read these tokens.
pub record IsParser (p : Parser) (items : List Item) : Type 0 where
  pub below : Below p.operators
  pub holds : Holds p.operators p.trees items

-- What comes behind the top tree comes behind all tokens.
extend_top :
    (operators : List Operator) (t : Parsetree) (ts : List Parsetree) (items z : List Item)
    → NoRepetition operators
    → Holds operators (t ∷ ts) items
    → render operators ((yield t ++ z) ∷ yields ts) ≡ items ++ z
extend_top operators t ts items z n h =
    render-append operators (yield t) z (yields ts) n (length-yields ts ∙ suc_injective _ _ h.0)
    ∙ ap (λ ys. ys ++ z) h.1

module _ (items : List Item) where
  scalar_step :
      (tree : Parsetree) (stacks : Stacks)
      → Pushed concatenate items stacks
      → Below stacks.0 × Holds stacks.0 (tree ∷ stacks.1) (items ++ yield tree)
  unfolding render binaries
  scalar_step tree ([], trees) h = absurd h
  scalar_step tree (top ∷ operators, []) (e, n, h) = absurd (omega (arith, h.0))
  scalar_step tree (top ∷ operators, t ∷ ts) (e, n, h) = (
    n,
    subst (λ op. Holds (op ∷ operators) (tree ∷ t ∷ ts) (items ++ yield tree)) (sym e)
        (omega (arith, h.0), extend_top operators t ts items (yield tree) n h),
  )

  pipe_step :
      (stacks : Stacks)
      → Pushed alternate items stacks
      → Below stacks.0 × Holds stacks.0 (Parsetree.empty ∷ stacks.1) (items ++ pipe ∷ [])
  unfolding render binaries yield
  pipe_step ([], trees) h = absurd h
  pipe_step (top ∷ operators, []) (e, n, h) = absurd (omega (arith, h.0))
  pipe_step (top ∷ operators, t ∷ ts) (e, n, h) = (
    n,
    subst (λ op. Holds (op ∷ operators) (Parsetree.empty ∷ t ∷ ts) (items ++ pipe ∷ [])) (sym e)
        (omega (arith, h.0), extend_top operators t ts items (pipe ∷ []) n h),
  )

  repetition_step :
      (lazy : Bool) (lower upper : ℕ) (stacks : Stacks)
      → Pushed (repetition lazy lower upper) items stacks
      → Below stacks.0 × Holds stacks.0 stacks.1 (items ++ repeated lazy lower upper ∷ [])
  unfolding render binaries
  repetition_step lazy lower upper ([], trees) h = absurd h
  repetition_step lazy lower upper (top ∷ operators, []) (e, n, h) = absurd (omega (arith, h.0))
  repetition_step lazy lower upper (top ∷ operators, t ∷ ts) (e, n, h) = (
    n,
    subst (λ op. Holds (op ∷ operators) (t ∷ ts) (items ++ repeated lazy lower upper ∷ [])) (sym e)
        (h.0, extend_top operators t ts items (repeated lazy lower upper ∷ []) n h),
  )

  group_step :
      (index : ℕ) (stacks : Stacks)
      → Pushed concatenate items stacks
      → NoRepetition stacks.0
        × Holds
            (open_group index ∷ stacks.0)
            (Parsetree.empty ∷ stacks.1)
            (items ++ opened index ∷ [])
  unfolding render binaries yield
  group_step index ([], trees) h = absurd h
  group_step index (top ∷ operators, []) (e, n, h) = absurd (omega (arith, h.0))
  group_step index (top ∷ operators, t ∷ ts) (e, n, h) = (
    (ap is_repetition e, n),
    subst
        (λ op.
          Holds (open_group index ∷ op ∷ operators) (Parsetree.empty ∷ t ∷ ts)
            (items ++ opened index ∷ []))
        (sym e) (omega (arith, h.0), extend_top operators t ts items (opened index ∷ []) n h),
  )

module _ (p : Parser) (items : List Item) (h : IsParser p items) where
  -- The parser has read one token more, and counts so many groups.
  abbrev pub Reads : ℕ → Item → Parser → Type 0
  Reads n item p' = (p'.n_capturing_groups ≡ n) × IsParser p' (items ++ item ∷ [])

  push_scalar-Reads :
      (tree : Parsetree) (item : Item)
      → yield tree ≡ item ∷ []
      → Safely (Reads p.n_capturing_groups item) (push_scalar p tree)
  unfolding push_scalar
  push_scalar-Reads tree item e =
      Safely-bind (push_operator-Pushed concatenate p.operators p.trees items refl h.below h.holds)
        (λ stacks pushed.
          let (below, holds) = scalar_step items tree stacks pushed in
          safe (
            refl,
            record {
              below = below;
              holds = subst (λ z. Holds stacks.0 (tree ∷ stacks.1) (items ++ z)) e holds;
            },
          ))

  push_pipe-Reads : Safely (Reads p.n_capturing_groups pipe) (push_pipe p)
  unfolding push_pipe
  push_pipe-Reads =
      Safely-bind (push_operator-Pushed alternate p.operators p.trees items refl h.below h.holds)
        (λ stacks pushed.
          let (below, holds) = pipe_step items stacks pushed in
          safe (refl, record { below = below; holds = holds }))

  push_repetition-Reads :
      (lazy : Bool) (token : Token)
      → Safely
          (Reads p.n_capturing_groups (repeated lazy token.lower_bound token.upper_bound))
          (push_repetition p lazy token)
  unfolding push_repetition
  push_repetition-Reads lazy token =
      Safely-bind
        (push_operator-Pushed (repetition lazy token.lower_bound token.upper_bound) p.operators
          p.trees items refl h.below h.holds)
        (λ stacks pushed.
          let (below, holds) = repetition_step items lazy _ _ stacks pushed in
          safe (refl, record { below = below; holds = holds }))

  push_group-Reads : (index n : ℕ) → Safely (Reads n (opened index)) (push_group p index n)
  unfolding push_group
  push_group-Reads index n =
      Safely-bind (push_operator-Pushed concatenate p.operators p.trees items refl h.below h.holds)
        (λ stacks pushed.
          let (below, holds) = group_step items index stacks pushed in
          safe (refl, record { below = below; holds = holds }))

  pub parse_token-Safely :
      (type : TokenType) (token : Token)
      → Safely
          (Reads (groups_after type p.n_capturing_groups) (item_of type p.n_capturing_groups token))
          (parse_token type p token)
  unfolding parse_token item_of groups_after yield
  parse_token-Safely TokenType.character token = push_scalar-Reads _ _ refl
  parse_token-Safely TokenType.char_class token = push_scalar-Reads _ _ refl
  parse_token-Safely TokenType.builtin_char_class token = push_scalar-Reads _ _ refl
  parse_token-Safely TokenType.anchor token = push_scalar-Reads _ _ refl
  parse_token-Safely TokenType.pipe token = push_pipe-Reads
  parse_token-Safely TokenType.greedy_repetition token = push_repetition-Reads false token
  parse_token-Safely TokenType.lazy_repetition token = push_repetition-Reads true token
  parse_token-Safely TokenType.open_paren token = push_group-Reads _ _
  parse_token-Safely TokenType.non_capturing_open_paren token = push_group-Reads _ _
  parse_token-Safely TokenType.close_paren token =
      Safely-bind (close_group-Holds p.operators p.trees items h.below h.holds)
        (λ stacks (below, holds). safe (refl, record { below = below; holds = holds }))

  -- Each token but a closing parenthesis is read, and a closing parenthesis exactly where a group is open;
  -- else it is refused as unmatched. When a token is read, the stacks stand for the tokens of before and
  -- this one, and the groups are counted. There are always trees enough.
  pub parse_token-Reads :
      (type : TokenType) (token : Token)
      → Reports
          (λ p'.
            Reads
              (groups_after type p.n_capturing_groups)
              (item_of type p.n_capturing_groups token)
              p'
            × (accepts type p.operators ≡ true))
          (λ e. (e ≡ unmatched_close_paren) × (accepts type p.operators ≡ false))
          (parse_token type p token)
  parse_token-Reads type token =
      Safely-Reports
        (Safely-both (parse_token-Safely type token) (parse_token-accepts type p token))
        (parse_token-FailsAs type p token)
