-- ===== src/Compiler/Guarded.antt =====
-- The code that src/bytecode-compiler.c makes of a tree is guarded: it is what the loops of
-- src/vm.c rely on.
use crex.Base.{
  ℕ, ◌+◌, ◌-◌, ◌%◌, ◌≤◌, ◌<◌, ◌^◌, ◌≡◌, refl, sym, ap, ◌∙◌, subst, Bool, true, ◌&&◌, ◌||◌, some,
  List, [], ◌∷◌, ◌++◌, append_assoc, append-nil, All, length, drop, leb, ◌==◌, Bool-cases, inl, inr,
  all_below_complete, arith,
}
use crex.Bitmap.{Bitmap}
use crex.Serialization.RoundTrip.{deserialize_operand-serialize_operand}
use crex.Bytecode.{Opcode, fetch}
use crex.Bytecode.Fetch.{fetch-emitted}
use crex.Parser.Tree.{Parsetree}
use crex.Vm.{Program}
use crex.Vm.Step.{drop-append, opcode_at}
use crex.Vm.Run.Guard.{
  is_flag, fetches_flag, guards, guards_ahead, guards_back, guards_fetched, is_guarded,
}
use crex.Compiler.{compile_to_bytecode}
use crex.Compiler.Layout.{
  Instr, bytes, extent, extent-append, bytes-append, At, Starts, FlagAt, Leads, Linked,
}
use crex.Bytecode.Limits.{Limits}
use crex.Parser.Within.{unlimited, unlimited-TreeWithin}
use crex.Compiler.Laid.{Narrow, Sized, length-bytes, length-Laid}
use crex.Compiler.Linked.{Compiled, compile_to_bytecode-Compiled}

-- Whether an instruction, or the end of them, stands at an address.
unfoldable pub is_start : List Instr → ℕ → Bool
is_start [] a = a == 0
is_start (i ∷ is) a = a == 0 || (leb (1 + i.size) a && is_start is (a - (1 + i.size)))

pub start_of : (before rest : List Instr) → is_start (before ++ rest) (extent before) ≡ true
unfolding is_start
start_of [] [] = refl
start_of [] (i ∷ rest) = refl
start_of (i ∷ before) rest =
    let step : 1 + i.size + extent before - (1 + i.size) ≡ extent before = omega arith in
    rw step (ground (arith, start_of before rest))

Starts-is_start : (all : List Instr) (a : ℕ) → Starts all a → is_start all a ≡ true
Starts-is_start all a s =
    subst (λ is. is_start is a ≡ true) (sym s.at.splits)
      (subst (λ b. is_start (s.at.before ++ s.rest) b ≡ true) s.at.address
        (start_of s.at.before s.rest))

pub is_start-Starts : (all : List Instr) (a : ℕ) → is_start all a ≡ true → Starts all a
unfolding is_start
is_start-Starts [] a h = record {
  rest = [];
  at = record { before = []; splits = refl; address = ground arith };
}
is_start-Starts (i ∷ is) a h = elim (Bool-cases (a == 0)) [
  | inl e ↦ record {
    rest = i ∷ is;
    at = record { before = []; splits = refl; address = ground arith };
  }
  | inr e ↦
      let s = is_start-Starts is (a - (1 + i.size)) (ground arith) in
      let ahead : 1 + i.size ≤ a = ground arith in
      record {
        rest = s.rest;
        at = record {
          before = i ∷ s.at.before;
          splits = ap (λ ws. i ∷ ws) s.at.splits;
          address = omega (arith, s.at.address);
        };
      }
]

pub Starts-le : (all : List Instr) (a : ℕ) → Starts all a → a ≤ extent all
Starts-le all a s =
    omega (arith, ap extent s.at.splits, extent-append s.at.before s.rest, s.at.address)

pub All-behind {ℓ κ} : {A : Type ℓ} (P : A → Type κ) (xs ys : List A) → All P (xs ++ ys) → All P ys
All-behind P [] ys h = h
All-behind P (x ∷ xs) ys h = All-behind P xs ys h.1

module _ (all : List Instr) (sized : All Sized all) where
  pub rest_Sized : (a : ℕ) (rest : List Instr) → At all a rest → All Sized rest
  rest_Sized a rest at = All-behind Sized at.before rest (subst (All Sized) at.splits sized)

  before_extent : (xs ys : List Instr) → All Sized (xs ++ ys) → length (bytes xs) ≡ extent xs
  before_extent xs ys h = length-bytes xs (go xs h)
    where
      go : (zs : List Instr) → All Sized (zs ++ ys) → All Sized zs
      go [] h = tt
      go (z ∷ zs) h = (h.0, go zs h.1)

  pub drop-At : (a : ℕ) (rest : List Instr) → At all a rest → drop a (bytes all) ≡ bytes rest
  drop-At a rest at =
      let long = before_extent at.before rest (subst (All Sized) at.splits sized) in
      ap (λ is. drop a (bytes is)) at.splits
      ∙ ap (drop a) (bytes-append at.before rest)
      ∙ ap (λ b. drop b (bytes at.before ++ bytes rest)) (sym (long ∙ at.address))
      ∙ drop-append (bytes at.before) (bytes rest)

  flag_fetched : (a : ℕ) → FlagAt all a → fetches_flag (fetch (drop a (bytes all))) ≡ true
  unfolding fetches_flag is_flag
  flag_fetched a f =
      let size = (rest_Sized a (f.flag ∷ f.rest) f.at).0.0 in
      rw
        (
          drop-At a (f.flag ∷ f.rest) f.at,
          fetch-emitted f.flag.op f.flag.operand f.flag.size (bytes f.rest) size,
          opcode_at f.flag.op,
          f.is_flag,
        )
        refl

  module _ (program : Program) (code : program.code ≡ bytes all) (short : extent all < 2 ^ 32) where
    guards_ahead-Starts :
        (n d next : ℕ)
        → (n < 2 ^ 32 → d ≡ n)
        → Starts all (next + n)
        → guards_ahead program (is_start all) d next ≡ true
    unfolding guards_ahead
    guards_ahead-Starts n d next read s =
        let le = Starts-le all (next + n) s in
        let exact = read (omega arith) in
        rw (exact, Starts-is_start all (next + n) s) (ground arith)

    guards_back-FlagAt :
        (n d next : ℕ)
        → (n < 2 ^ 32 → d ≡ n)
        → next ≤ extent all
        → n ≤ next
        → FlagAt all (next - n)
        → guards_back program (is_start all) d next ≡ true
    unfolding guards_back
    guards_back-FlagAt n d next read le ahead f =
        let exact = read (omega arith) in
        let back : (next + (2 ^ 64 - n)) % 2 ^ 64 ≡ next - n = omega arith in
        let start = Starts-is_start all (next - n) (record { rest = f.flag ∷ f.rest; at = f.at }) in
        rw (exact, back, start, code, flag_fetched (next - n) f) refl

    guards-Leads :
        (op : Opcode) (n s d next : ℕ)
        → Narrow op n s
        → (n < 256 ^ s → d ≡ n)
        → next ≤ extent all
        → Starts all next
        → Leads all op n next
        → guards program (is_start all) (some op) d next ≡ true
    unfolding guards
    guards-Leads Opcode.jump n s d next k read le h l =
        guards_ahead-Starts n d next (λ f. read (k f)) l
    guards-Leads Opcode.split_passive n s d next k read le h l =
        rw (Starts-is_start all next h) (guards_ahead-Starts n d next (λ f. read (k f)) l)
    guards-Leads Opcode.split_eager n s d next k read le h l =
        rw (Starts-is_start all next h) (guards_ahead-Starts n d next (λ f. read (k f)) l)
    guards-Leads Opcode.split_backwards_passive n s d next k read le h l =
        rw (Starts-is_start all next h) (guards_back-FlagAt n d next (λ f. read (k f)) le l.0 l.1)
    guards-Leads Opcode.split_backwards_eager n s d next k read le h l =
        rw (Starts-is_start all next h) (guards_back-FlagAt n d next (λ f. read (k f)) le l.0 l.1)
    guards-Leads Opcode.character n s d next _ read le h _ = Starts-is_start all next h
    guards-Leads Opcode.char_class n s d next _ read le h _ = Starts-is_start all next h
    guards-Leads Opcode.builtin_char_class n s d next _ read le h _ = Starts-is_start all next h
    guards-Leads Opcode.anchor_bof n s d next _ read le h _ = Starts-is_start all next h
    guards-Leads Opcode.anchor_bol n s d next _ read le h _ = Starts-is_start all next h
    guards-Leads Opcode.anchor_eof n s d next _ read le h _ = Starts-is_start all next h
    guards-Leads Opcode.anchor_eol n s d next _ read le h _ = Starts-is_start all next h
    guards-Leads Opcode.anchor_word_boundary n s d next _ read le h _ = Starts-is_start all next h
    guards-Leads Opcode.anchor_not_word_boundary n s d next _ read le h _ =
        Starts-is_start all next h
    guards-Leads Opcode.write_pointer n s d next _ read le h _ = Starts-is_start all next h
    guards-Leads Opcode.test_and_set_flag n s d next _ read le h _ = Starts-is_start all next h

Linked-behind :
    (all before rest : List Instr) (a : ℕ)
    → Linked all a (before ++ rest)
    → Linked all (a + extent before) rest
Linked-behind all [] rest a h = subst (λ b. Linked all b rest) (omega arith) h
Linked-behind all (i ∷ before) rest a h =
    subst (λ b. Linked all b rest) (omega arith)
      (Linked-behind all before rest (a + (1 + i.size)) h.1)

At-behind :
    (all rest : List Instr) (a : ℕ) (i : Instr)
    → At all a (i ∷ rest)
    → At all (a + (1 + i.size)) rest
At-behind all rest a i at = record {
  before = at.before ++ i ∷ [];
  splits = at.splits ∙ sym (append_assoc at.before (i ∷ []) rest);
  address = omega (arith, extent-append at.before (i ∷ []), at.address);
}

module _ (all : List Instr) (sized : All Sized all) (linked : Linked all 0 all) (program : Program)
    (code : program.code ≡ bytes all) (short : extent all < 2 ^ 32) where
  guards-At :
      (a : ℕ) (rest : List Instr)
      → At all a rest
      → guards_fetched program (is_start all) a (fetch (drop a (bytes all))) ≡ true
  unfolding guards_fetched fetch
  guards-At a [] at = rw (drop-At all sized a [] at) refl
  guards-At a (i ∷ rest) at =
      let own = rest_Sized all sized a (i ∷ rest) at in
      let behind : Starts all (a + (1 + i.size)) = record {
        rest = rest;
        at = At-behind all rest a i at;
      } in
      let here = subst (λ is. Linked all 0 is) at.splits linked in
      let reached : 0 + extent at.before ≡ a = omega (arith, at.address) in
      let leads =
        subst (λ b. Linked all b (i ∷ rest)) reached
          (Linked-behind all at.before (i ∷ rest) 0 here) in
      rw (drop-At all sized a (i ∷ rest) at) (
        rw (fetch-emitted i.op i.operand i.size (bytes rest) own.0.0) (
          rw (opcode_at i.op) (
            guards-Leads all sized program code short i.op i.operand i.size _ (a + (1 + i.size))
              own.0.1 (deserialize_operand-serialize_operand i.operand i.size (bytes rest) own.0.0)
              (Starts-le all (a + (1 + i.size)) behind) behind leads.0)))

  is_guarded-Linked : is_guarded program (is_start all) ≡ true
  unfolding is_guarded
  is_guarded-Linked = all_below_complete (length program.code) _ (λ a.
      elim (Bool-cases (is_start all a)) [
        | inl e ↦
            let s = is_start-Starts all a e in
            rw e (
              subst (λ bs. guards_fetched program (is_start all) a (fetch (drop a bs)) ≡ true)
                (sym code) (guards-At a s.rest s.at))
        | inr e ↦ rw e refl
      ])

pub Compiled-is_guarded :
    (limits : Limits) (code : List ℕ) (c : Compiled limits code) (classes : List Bitmap)
    → length code < 2 ^ 32
    → is_guarded (record { code = code; classes = classes }) (is_start c.instrs) ≡ true
Compiled-is_guarded limits code c classes h =
    is_guarded-Linked c.instrs c.laid.sized
      (subst (λ is. Linked is 0 c.instrs) (append-nil c.instrs) (c.portable [] []))
      (record { code = code; classes = classes }) (sym c.laid.emits)
      (omega (arith, length-Laid code c.instrs c.laid))

-- The addresses in the code of a tree at which an instruction stands, and its end.
abbrev pub starts_of : Parsetree → ℕ → Bool
starts_of tree =
    is_start
      (compile_to_bytecode-Compiled unlimited tree (unlimited-TreeWithin tree) (λ _ _. tt)).instrs

-- The code that the compiler makes of any tree, when it has fewer than 2^32 bytes, is guarded: it
-- begins with an instruction or its end, what follows an instruction and where a jump or a split
-- leads is one again, and a split backwards leads to a flag.
pub compile_to_bytecode-is_guarded :
    (tree : Parsetree) (classes : List Bitmap)
    → length (compile_to_bytecode tree).0 < 2 ^ 32
    → (starts_of tree 0 ≡ true)
      × (is_guarded
            (record { code = (compile_to_bytecode tree).0; classes = classes })
            (starts_of tree)
          ≡ true)
compile_to_bytecode-is_guarded tree classes h =
    let c = compile_to_bytecode-Compiled unlimited tree (unlimited-TreeWithin tree) (λ _ _. tt) in
    (start_of [] c.instrs, Compiled-is_guarded unlimited (compile_to_bytecode tree).0 c classes h)
