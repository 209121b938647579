-- ===== src/Compiler/Linked.antt =====
-- Every jump and split in the code that src/bytecode-compiler.c makes of a tree leads to an
-- instruction, and those that lead back lead to a flag.
use crex.Base.{
  Bool-cases, inl, inr, All, All-append, ℕ, zero, suc, ◌+◌, ◌-◌, ◌*◌, ◌≤◌, ◌<◌, ◌^◌, ◌≡◌, refl, sym,
  ap, subst, Bool, true, false, List, [], ◌∷◌, ◌++◌, append_assoc, append-nil, length, leb,
  if_split, if◌then◌else◌, if_both, ◌==◌, arith,
}
use crex.Serialization.{size_for_operand}
use crex.Serialization.RoundTrip.{IsSize, size_0, size_1, size_2, size_for_operand-IsSize}
use crex.Bytecode.{Opcode, code_of, emit_bytecode}
use crex.Lexer.Token.{AnchorType, repetition_infinity}
use crex.Parser.Tree.{Parsetree, Parsetrees, non_capturing_group}
use crex.Compiler.{
  emit, emit_least, anchor_code, compile_alternation, copies, trailing_split_size, leading_split,
  trailing_split, compile_unbounded, optional_copies, compile_bounded, compile_repetition,
  compile_group, compile_parsetree, compile_concatenation, compile_to_bytecode,
}
use crex.Compiler.Bounds.{trailing_split_size-IsSize}
use crex.Compiler.Targets.{fits-le}
use crex.Compiler.Layout.{
  Instr, extent, extent-append, Starts, FlagAt, Leads, Linked, Portable, Portable-nil,
  Portable-append, Portable-cons, Starts-over, Linked-append,
}
use crex.Compiler.Flags.{flags_of, flags_of_all, counted, counted_all}
use crex.Bytecode.Limits.{Limits, Within}
use crex.Parser.Within.{TreeWithin, TreesWithin}
use crex.Compiler.Laid.{Narrow, Laid, Laid-append, Laid-cons, Laid-nil, least-Narrow, length-Laid}

module _ (limits : Limits) where
  abbrev pub Limited : Instr → Type 0
  Limited i = Within limits i.op i.operand

  pub record Compiled (code : List ℕ) : Type 0 where
    pub instrs : List Instr
    pub laid : Laid code instrs
    pub portable : Portable instrs
    pub within : All Limited instrs

  abbrev compiled_nil : Compiled []
  compiled_nil = record { instrs = []; laid = Laid-nil; portable = Portable-nil; within = tt }

  abbrev compiled_append : (xs ys : List ℕ) → Compiled xs → Compiled ys → Compiled (xs ++ ys)
  compiled_append xs ys c d = record {
    instrs = c.instrs ++ d.instrs;
    laid = Laid-append xs ys c.instrs d.instrs c.laid d.laid;
    portable = Portable-append c.instrs d.instrs c.portable d.portable;
    within = All-append Limited c.instrs d.instrs c.within d.within;
  }

  -- An instruction that leads nowhere.
  abbrev compiled_plain :
      (op : Opcode) (n s : ℕ)
      → IsSize s
      → Narrow op n s
      → ((all : List Instr) (next : ℕ) → Leads all op n next)
      → Within limits op n
      → Compiled (emit op n s)
  compiled_plain op n s k h l w =
      let i : Instr = record { op = op; operand = n; size = s } in
      record {
        instrs = i ∷ [];
        laid =
            subst (λ code. Laid code (i ∷ [])) (append-nil (emit op n s))
              (Laid-cons op n s [] [] k h Laid-nil);
        portable = Portable-cons i [] (λ before after. l _ _) Portable-nil;
        within = (w, tt);
      }

  abbrev compiled_flag :
      (flag : ℕ) → limits.flags flag → Compiled (emit_least Opcode.test_and_set_flag flag)
  compiled_flag flag w =
      compiled_plain Opcode.test_and_set_flag flag (size_for_operand flag)
        (size_for_operand-IsSize flag) (least-Narrow Opcode.test_and_set_flag flag) (λ _ _. tt) w

  -- The instructions that lead forward.
  data IsForward : Opcode → Type 0 where
    jump : IsForward Opcode.jump
    split_passive : IsForward Opcode.split_passive
    split_eager : IsForward Opcode.split_eager

  Leads-forward :
      (op : Opcode) (all : List Instr) (n next : ℕ)
      → IsForward op
      → Starts all (next + n)
      → Leads all op n next
  Leads-forward _ all n next jump h = h
  Leads-forward _ all n next split_passive h = h
  Leads-forward _ all n next split_eager h = h

  forward-Within : (op : Opcode) (n : ℕ) → IsForward op → Within limits op n
  forward-Within _ n jump = tt
  forward-Within _ n split_passive = tt
  forward-Within _ n split_eager = tt

  -- An instruction that leads over the first of those behind it.
  abbrev compiled_over :
      (op : Opcode) (n : ℕ) (code : List ℕ) (xs ys zs : List Instr)
      → IsForward op
      → xs ++ ys ≡ zs
      → n ≡ extent xs
      → Laid code zs
      → Portable zs
      → All Limited zs
      → Compiled (emit_least op n ++ code)
  compiled_over op n code xs ys zs f e k l p w =
      let i : Instr = record { op = op; operand = n; size = size_for_operand n } in
      record {
        instrs = i ∷ zs;
        within = (forward-Within op n f, w);
        laid =
            Laid-cons op n (size_for_operand n) code zs (size_for_operand-IsSize n)
              (least-Narrow op n) l;
        portable =
            Portable-cons i zs
              (λ before after.
                Leads-forward op (before ++ ((i ∷ zs) ++ after)) n
                  (extent before + (1 + size_for_operand n)) f
                  (subst
                    (λ (ws : List Instr).
                      Starts (before ++ ((i ∷ ws) ++ after))
                        (extent before + (1 + size_for_operand n) + n))
                    e (Starts-over i xs ys n k before after)))
              p;
      }

  compile_alternation-Compiled :
      (left right : List ℕ) (flag : ℕ)
      → Compiled left
      → Compiled right
      → limits.flags flag
      → Compiled (compile_alternation left right flag)
  unfolding compile_alternation
  compile_alternation-Compiled left right flag l r w =
      let f = compiled_flag flag w in
      let behind = compiled_append right (emit_least Opcode.test_and_set_flag flag) r f in
      let over_right =
        compiled_over Opcode.jump (length right) _ r.instrs f.instrs behind.instrs jump refl
          (length-Laid right r.instrs r.laid) behind.laid behind.portable behind.within in
      let whole = compiled_append left _ l over_right in
      let i : Instr = record {
        op = Opcode.jump;
        operand = length right;
        size = size_for_operand (length right);
      } in
      compiled_over Opcode.split_passive (length left + 1 + size_for_operand (length right)) _
        (l.instrs ++ i ∷ []) behind.instrs whole.instrs split_passive
        (append_assoc l.instrs (i ∷ []) behind.instrs)
        (omega (arith, extent-append l.instrs (i ∷ []), length-Laid left l.instrs l.laid))
        whole.laid whole.portable whole.within

  copies-Compiled : (n : ℕ) (child : List ℕ) → Compiled child → Compiled (copies n child)
  unfolding copies
  copies-Compiled zero child c = compiled_nil
  copies-Compiled (suc n) child c = compiled_append child _ c (copies-Compiled n child c)

  data IsBackward : Opcode → Type 0 where
    split_backwards_passive : IsBackward Opcode.split_backwards_passive
    split_backwards_eager : IsBackward Opcode.split_backwards_eager

  Leads-back :
      (op : Opcode) (all : List Instr) (n next : ℕ)
      → IsBackward op
      → n ≤ next
      → FlagAt all (next - n)
      → Leads all op n next
  Leads-back _ all n next split_backwards_passive h k = (h, k)
  Leads-back _ all n next split_backwards_eager h k = (h, k)

  -- A flag, other instructions, and one that leads back to the flag.
  Portable-loop :
      (flag n s : ℕ) (op : Opcode) (child : List Instr)
      → IsBackward op
      → n ≡ 1 + size_for_operand flag + extent child + (1 + s)
      → Portable child
      → Portable (
          record { op = Opcode.test_and_set_flag; operand = flag; size = size_for_operand flag }
          ∷ (child ++ record { op = op; operand = n; size = s } ∷ []))
  Portable-loop flag n s op child b e p before after =
      let f : Instr = record {
        op = Opcode.test_and_set_flag;
        operand = flag;
        size = size_for_operand flag;
      } in
      let back : Instr = record { op = op; operand = n; size = s } in
      let all = before ++ ((f ∷ (child ++ back ∷ [])) ++ after) in
      let start = extent before + extent (f ∷ child) in
      let first =
        subst (λ ws. Linked (before ++ (f ∷ ws)) (extent before) (f ∷ child))
          (sym (append_assoc child (back ∷ []) after))
          (Portable-cons f child (λ _ _. tt) p before (back ∷ after)) in
      let leads = Leads-back op all n (start + (1 + s)) b (omega arith) (record {
        flag = f;
        rest = (child ++ back ∷ []) ++ after;
        is_flag = refl;
        at = record { before = before; splits = refl; address = omega arith };
      }) in
      Linked-append all (extent before) (f ∷ child) (back ∷ []) first (leads, tt)

  trailing_Narrow :
      (base : ℕ)
      → base + (1 + trailing_split_size base) < 2 ^ 32
      → base + (1 + trailing_split_size base) < 256 ^ trailing_split_size base
  unfolding trailing_split_size
  trailing_Narrow base =
      let fits = λ (s : ℕ). base + (1 + s) < 2 ^ 32 → base + (1 + s) < 256 ^ s in
      if_split fits (leb (size_for_operand (base + (1 + 1))) 1)
        (λ e h. fits-le (base + (1 + 1)) 1 size_1 e h (omega arith))
        (λ _.
          if_split fits (leb (size_for_operand (base + (1 + 2))) 2)
            (λ e h. fits-le (base + (1 + 2)) 2 size_2 e h (omega arith)) (λ _ h. omega arith))

  trailing_op : (lazy : Bool) → IsBackward (trailing_split lazy)
  trailing_op true = split_backwards_passive
  trailing_op false = split_backwards_eager

  leading_op : (lazy : Bool) → IsForward (leading_split lazy)
  leading_op true = split_eager
  leading_op false = split_passive

  back_Narrow : (op : Opcode) (n s : ℕ) → IsBackward op → (n < 2 ^ 32 → n < 256 ^ s) → Narrow op n s
  back_Narrow _ n s split_backwards_passive h = h
  back_Narrow _ n s split_backwards_eager h = h

  backward-Within : (op : Opcode) (n : ℕ) → IsBackward op → Within limits op n
  backward-Within _ n split_backwards_passive = tt
  backward-Within _ n split_backwards_eager = tt

  compile_unbounded-Compiled :
      (lazy : Bool) (child : List ℕ) (flag : ℕ)
      → Compiled child
      → limits.flags flag
      → limits.flags (flag + 1)
      → Compiled (compile_unbounded lazy child flag)
  unfolding compile_unbounded
  compile_unbounded-Compiled lazy child flag c w w' =
      let base = 1 + size_for_operand flag + length child in
      let size = trailing_split_size base in
      let n = base + (1 + size) in
      let f : Instr = record {
        op = Opcode.test_and_set_flag;
        operand = flag;
        size = size_for_operand flag;
      } in
      let back : Instr = record { op = trailing_split lazy; operand = n; size = size } in
      let last = compiled_flag (flag + 1) w' in
      let measured = length-Laid child c.instrs c.laid in
      let loop = f ∷ (c.instrs ++ back ∷ []) in
      let regroup : loop ++ last.instrs ≡ f ∷ (c.instrs ++ (back ∷ last.instrs)) =
        ap (λ ws. f ∷ ws) (append_assoc c.instrs (back ∷ []) last.instrs) in
      compiled_over (leading_split lazy) n _ loop last.instrs _ (leading_op lazy) regroup
        (omega (arith, extent-append c.instrs (back ∷ [])))
        (Laid-cons Opcode.test_and_set_flag flag (size_for_operand flag) _ _
          (size_for_operand-IsSize flag) (least-Narrow Opcode.test_and_set_flag flag)
          (Laid-append child _ c.instrs _ c.laid (
            Laid-cons (trailing_split lazy) n size _ _ (trailing_split_size-IsSize base)
              (back_Narrow (trailing_split lazy) n size (trailing_op lazy) (trailing_Narrow base))
              last.laid)))
        (subst Portable regroup (
          Portable-append loop last.instrs
            (Portable-loop flag n size (trailing_split lazy) c.instrs (trailing_op lazy)
              (omega arith) c.portable)
            last.portable))
        (
          w,
          All-append Limited c.instrs (back ∷ last.instrs) c.within
              (backward-Within (trailing_split lazy) n (trailing_op lazy), last.within),
        )

  optional_copies-Compiled :
      (lazy : Bool) (child : List ℕ) (n : ℕ)
      → Compiled child
      → Compiled (optional_copies lazy child n)
  unfolding optional_copies
  optional_copies-Compiled lazy child zero c = compiled_nil
  optional_copies-Compiled lazy child (suc n) c =
      let skipped = compiled_append child _ c (optional_copies-Compiled lazy child n c) in
      compiled_over (leading_split lazy) _ _ skipped.instrs [] skipped.instrs (leading_op lazy)
        (append-nil skipped.instrs) (length-Laid _ skipped.instrs skipped.laid) skipped.laid
        skipped.portable skipped.within

  compile_repetition-Compiled :
      (lazy : Bool) (lower upper : ℕ) (child : List ℕ) (n : ℕ)
      → Compiled child
      → ((k : ℕ) → k < n + (if upper == repetition_infinity then 2 else 1) → limits.flags k)
      → Compiled (compile_repetition lazy lower upper child n).0
  unfolding compile_repetition compile_bounded
  compile_repetition-Compiled lazy lower upper child n c w =
      let some_copies = copies-Compiled lower child c in
      elim (Bool-cases (upper == repetition_infinity)) [
        | inl e ↦ rw e (
            compiled_append _ _ some_copies (
              compile_unbounded-Compiled lazy child n c (w n (rw e (omega arith)))
                (w (n + 1) (rw e (omega arith)))))
        | inr e ↦ rw e (
            compiled_append _ _ some_copies (
              compiled_append _ _ (optional_copies-Compiled lazy child (upper - lower) c)
                (compiled_flag n (w n (rw e (omega arith))))))
      ]

  compiled_pointer : (index : ℕ) → Compiled (emit_least Opcode.write_pointer index)
  compiled_pointer index =
      compiled_plain Opcode.write_pointer index (size_for_operand index)
        (size_for_operand-IsSize index) tt (λ _ _. tt) tt

  compile_group-Compiled :
      (index : ℕ) (child : List ℕ) → Compiled child → Compiled (compile_group index child)
  unfolding compile_group
  compile_group-Compiled index child c = if_both Compiled (index == non_capturing_group) c (
      compiled_append _ _ (compiled_pointer (2 * index))
        (compiled_append child _ c (compiled_pointer (2 * index + 1))))

  anchor-Compiled : (type : AnchorType) → Compiled (emit_bytecode (anchor_code type) 0 0)
  unfolding anchor_code code_of
  anchor-Compiled AnchorType.bof = compiled_plain Opcode.anchor_bof 0 0 size_0 tt (λ _ _. tt) tt
  anchor-Compiled AnchorType.bol = compiled_plain Opcode.anchor_bol 0 0 size_0 tt (λ _ _. tt) tt
  anchor-Compiled AnchorType.eof = compiled_plain Opcode.anchor_eof 0 0 size_0 tt (λ _ _. tt) tt
  anchor-Compiled AnchorType.eol = compiled_plain Opcode.anchor_eol 0 0 size_0 tt (λ _ _. tt) tt
  anchor-Compiled AnchorType.word_boundary =
      compiled_plain Opcode.anchor_word_boundary 0 0 size_0 tt (λ _ _. tt) tt
  anchor-Compiled AnchorType.not_word_boundary =
      compiled_plain Opcode.anchor_not_word_boundary 0 0 size_0 tt (λ _ _. tt) tt

  module _ (bound : ℕ) (allowed : (k : ℕ) → k < bound → limits.flags k) where
    mutual
      unfolding compile_parsetree TreeWithin flags_of

      tree-Compiled :
          (tree : Parsetree) (n : ℕ)
          → TreeWithin limits tree
          → n + flags_of tree ≤ bound
          → Compiled (compile_parsetree tree n).0
      tree-Compiled Parsetree.empty n w l = compiled_nil
      tree-Compiled (Parsetree.character c) n w l =
          compiled_plain Opcode.character c 1 size_1 tt (λ _ _. tt) tt
      tree-Compiled (Parsetree.char_class i) n w l =
          compiled_plain Opcode.char_class i _ (size_for_operand-IsSize i)
            (least-Narrow Opcode.char_class i) (λ _ _. tt) w
      tree-Compiled (Parsetree.builtin_char_class i) n w l =
          compiled_plain Opcode.builtin_char_class i _ (size_for_operand-IsSize i)
            (least-Narrow Opcode.builtin_char_class i) (λ _ _. tt) w
      tree-Compiled (Parsetree.anchor type) n w l = anchor-Compiled type
      tree-Compiled (Parsetree.concatenation trees) n w l = trees-Compiled trees n w l
      tree-Compiled (Parsetree.alternation left right) n w l =
          let first = counted left n in
          let second = counted right (compile_parsetree left n).1 in
          compile_alternation-Compiled _ _ _ (tree-Compiled left n w.0 (omega arith))
            (tree-Compiled right (compile_parsetree left n).1 w.1 (omega (arith, first)))
            (allowed _ (omega (arith, first, second)))
      tree-Compiled (Parsetree.greedy_repetition lower upper child) n w l =
          let whole = counted child n in
          compile_repetition-Compiled false lower upper _ _ (tree-Compiled child n w (omega arith))
            (λ k h. allowed k (omega (arith, h, whole)))
      tree-Compiled (Parsetree.lazy_repetition lower upper child) n w l =
          let whole = counted child n in
          compile_repetition-Compiled true lower upper _ _ (tree-Compiled child n w (omega arith))
            (λ k h. allowed k (omega (arith, h, whole)))
      tree-Compiled (Parsetree.group index child) n w l =
          compile_group-Compiled index _ (tree-Compiled child n w l)

      trees-Compiled :
          (trees : Parsetrees) (n : ℕ)
          → TreesWithin limits trees
          → n + flags_of_all trees ≤ bound
          → Compiled (compile_concatenation trees n).0
      trees-Compiled Parsetrees.none_yet n w l = compiled_nil
      trees-Compiled (Parsetrees.push trees tree) n w l =
          compiled_append _ _ (trees-Compiled trees n w.0 (omega arith)) (
            tree-Compiled tree (compile_concatenation trees n).1 w.1
              (omega (arith, counted_all trees n)))

  -- The code of a tree is a list of instructions, in which every jump and every split leads to an
  -- instruction, or to the end of the code, and one that leads back leads to a flag. Where the tree's
  -- classes and as many flags as it has are within the limits, those of the instructions are.
  pub compile_to_bytecode-Compiled :
      (tree : Parsetree)
      → TreeWithin limits tree
      → ((k : ℕ) → k < flags_of tree → limits.flags k)
      → Compiled (compile_to_bytecode tree).0
  unfolding compile_to_bytecode
  compile_to_bytecode-Compiled tree w f = tree-Compiled (flags_of tree) f tree 0 w (omega arith)
