-- ===== src/Lexer/Table.antt =====
-- The table of a pattern's classes in src/lexer.c is kept without repetition and within its buffer,
-- and a class keeps its index while the pattern is read.
use crex.Base.{
  ℕ, zero, suc, ◌≤◌, ◌<◌, ◌≡◌, ◌≢◌, refl, Bool, true, false, Option, none, some, List, [], ◌∷◌,
  ◌++◌, length, get_or, All, All-append, length-append, if_both, if_split, sym, ap, subst, ◌∙◌,
  ◌==◌, arith,
}
use crex.Bitmap.{Bitmap}
use crex.CharClass.{builtin_classes}
use crex.Status.{Result, ok, Ensures, returns, fails, Ensures-bind, Ensures-weaken}
use crex.Lexer.Token.{Token, CharClasses}
use crex.Lexer.ClassLexer.{index_of}
use crex.Lexer.Progress.{class_loop-Leaves}
use crex.Lexer.Total.{lex_simple-Leaves}
use crex.Lexer.Intern.{index_of-none}
use crex.Lexer.Lex.{
  Lexed, finish_bitmap, place_class, intern_class, finish_class, empty_scan, lex_class_body,
  reserve_class, lex_inverted, lex_char_class, lex,
}

abbrev pub Distinct : List Bitmap → Type 0
Distinct [] = Unit
Distinct (e ∷ entries) = All (λ f. e ≢ f) entries × Distinct entries

-- No class is twice in the table, none is a built-in one, and the buffer has room for all.
pub record IsTable (classes : CharClasses) : Type 0 where
  pub distinct : Distinct classes.entries
  pub own : All (λ e. index_of e builtin_classes ≡ none) classes.entries
  pub fits : length classes.entries ≤ classes.capacity

-- Every index of the first table means the same class in the second.
pub record Extends (classes classes' : CharClasses) : Type 0 where
  pub grows : length classes.entries ≤ length classes'.entries
  pub keeps :
      (i : ℕ)
      → i < length classes.entries
      → get_or classes'.entries i [] ≡ get_or classes.entries i []

All-ne_last :
    (e b : Bitmap) (entries : List Bitmap)
    → e ≢ b
    → All (λ f. e ≢ f) entries
    → All (λ f. e ≢ f) (entries ++ b ∷ [])
All-ne_last e b entries h k = All-append (λ f. e ≢ f) entries (b ∷ []) k (h, tt)

Distinct-append :
    (entries : List Bitmap) (b : Bitmap)
    → Distinct entries
    → All (λ e. e ≢ b) entries
    → Distinct (entries ++ b ∷ [])
Distinct-append [] b d h = (tt, tt)
Distinct-append (e ∷ entries) b d h =
    (All-ne_last e b entries h.0 d.0, Distinct-append entries b d.1 h.1)

get_or-append_left :
    (xs ys : List Bitmap) (i : ℕ) → i < length xs → get_or (xs ++ ys) i [] ≡ get_or xs i []
get_or-append_left [] ys i h = elim h [ ]
get_or-append_left (x ∷ xs) ys zero h = refl
get_or-append_left (x ∷ xs) ys (suc i) h = get_or-append_left xs ys i (omega arith)

abbrev Grown : CharClasses → CharClasses → Type 0
Grown classes classes' = IsTable classes' × Extends classes classes'

Extends-refl : (classes : CharClasses) → Extends classes classes
Extends-refl classes = record { grows = omega arith; keeps = λ i h. refl }

place_class-Grown :
    (classes : CharClasses) (token : Token) (b : Bitmap) (o p : Option ℕ)
    → index_of b builtin_classes ≡ o
    → index_of b classes.entries ≡ p
    → IsTable classes
    → length classes.entries < classes.capacity
    → Grown classes (place_class classes token b o p).1
unfolding place_class
place_class-Grown classes token b (some i) p h k t room = (t, Extends-refl classes)
place_class-Grown classes token b none (some i) h k t room = (t, Extends-refl classes)
place_class-Grown classes token b none none h k t room = (
  record {
    distinct = Distinct-append classes.entries b t.distinct (index_of-none b classes.entries k);
    own =
        All-append (λ e. index_of e builtin_classes ≡ none) classes.entries (b ∷ []) t.own (h, tt);
    fits = omega (arith, length-append {0} classes.entries (b ∷ []));
  },
  record {
    grows = omega (arith, length-append {0} classes.entries (b ∷ []));
    keeps = get_or-append_left classes.entries (b ∷ []);
  },
)

-- After `reserve_class` there is room for one more class, in a table of the same classes.
abbrev Reserved : CharClasses → CharClasses → Type 0
Reserved classes reserved =
    (reserved.entries ≡ classes.entries) × (length classes.entries < reserved.capacity)

reserve_class-Reserved :
    (alloc : Bool) (classes : CharClasses)
    → length classes.entries ≤ classes.capacity
    → Ensures (Reserved classes) (reserve_class alloc classes)
unfolding reserve_class
reserve_class-Reserved alloc classes h =
    if_split (Ensures (Reserved classes)) (length classes.entries == classes.capacity)
      (λ e. if_both (Ensures (Reserved classes)) alloc (returns (refl, ground arith)) fails)
      (λ e. returns (refl, ground arith))

module _ (classes : CharClasses) (t : IsTable classes)
    (room : length classes.entries < classes.capacity) where
  abbrev GrownClasses : Result Lexed → Type 0
  GrownClasses = Ensures (λ r. Grown classes r.2)

  lex_class_body-Grown :
      (inverted : Bool) (token : Token) (pattern : List ℕ)
      → GrownClasses (lex_class_body inverted classes token pattern)
  unfolding lex_class_body finish_class intern_class
  lex_class_body-Grown inverted token pattern =
      Ensures-bind {f = finish_class inverted classes}
        (class_loop-Leaves (suc (length pattern)) (empty_scan token) pattern (omega arith))
        (λ (s, rest) _.
          returns
            (place_class-Grown classes s.token (finish_bitmap inverted s) _ _ refl refl t room))

  lex_inverted-Grown :
      (token : Token) (pattern : List ℕ) → GrownClasses (lex_inverted classes token pattern)
  unfolding lex_inverted
  lex_inverted-Grown token [] = fails
  lex_inverted-Grown token (c ∷ rest) =
      if_both GrownClasses (c == b'^') (lex_class_body-Grown true token rest)
        (lex_class_body-Grown false token (c ∷ rest))

-- A table stays a table when only its buffer grows, and classes keep their indices through it.
Reserved-IsTable :
    (classes reserved : CharClasses)
    → IsTable classes
    → Reserved classes reserved
    → IsTable reserved × (length reserved.entries < reserved.capacity)
Reserved-IsTable classes reserved t r = (
  record {
    distinct = subst Distinct (sym r.0) t.distinct;
    own = subst (All (λ e. index_of e builtin_classes ≡ none)) (sym r.0) t.own;
    fits = omega (arith, ap length r.0);
  },
  omega (arith, ap length r.0),
)

Reserved-Extends :
    (classes reserved classes' : CharClasses)
    → Reserved classes reserved
    → Extends reserved classes'
    → Extends classes classes'
Reserved-Extends classes reserved classes' r e = record {
  grows = omega (arith, ap length r.0, e.grows);
  keeps = λ i h. e.keeps i (omega (arith, ap length r.0)) ∙ ap (λ es. get_or es i []) r.0;
}

lex_char_class-Grown :
    (alloc : Bool) (classes : CharClasses) (token : Token) (pattern : List ℕ)
    → IsTable classes
    → Ensures (λ r. Grown classes r.2) (lex_char_class alloc classes token pattern)
unfolding lex_char_class
lex_char_class-Grown alloc classes token pattern t =
    Ensures-bind {f = λ reserved. lex_inverted reserved token pattern}
      (reserve_class-Reserved alloc classes t.fits)
      (λ reserved r.
        let (t', room) = Reserved-IsTable classes reserved t r in
        Ensures-weaken
          (λ (_, _, classes') g. (g.0, Reserved-Extends classes reserved classes' r g.1))
          (lex_inverted-Grown reserved t' room token pattern))

-- Whatever `lex` reads, the table of classes stays without repetition, apart from the built-in
-- classes and within its buffer, and every class that it held keeps its index.
pub lex-IsTable :
    (alloc : Bool) (classes : CharClasses) (token : Token) (c : ℕ) (rest : List ℕ)
    → IsTable classes
    → Ensures (λ r. IsTable r.2 × Extends classes r.2) (lex alloc classes token (c ∷ rest))
unfolding lex
lex-IsTable alloc classes token c rest t =
    if_both (Ensures (λ (r : Lexed). Grown classes r.2)) (c == b'[')
      (lex_char_class-Grown alloc classes token rest t)
      (Ensures-bind {f = λ (token', rest'). ok (token', rest', classes)}
        (lex_simple-Leaves token c rest) (λ _ _. returns (t, Extends-refl classes)))
