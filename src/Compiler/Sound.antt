-- ===== src/Compiler/Sound.antt =====
-- The code that src/bytecode-compiler.c makes of a tree is sound: each of its instructions lies
-- within the code, and uses no class and no flag that is not there.
use crex.Base.{
  ℕ, ◌+◌, ◌/◌, ◌≤◌, ◌<◌, ◌^◌, ◌≡◌, refl, sym, ap, subst, List, [], ◌∷◌, ◌++◌, All, length, drop,
  arith,
}
use crex.Bitmap.{Bitmap}
use crex.CharClass.{builtin_classes}
use crex.Serialization.{serialize_operand, deserialize_operand}
use crex.Serialization.RoundTrip.{deserialize_operand-serialize_operand}
use crex.Bytecode.{Opcode, code_of}
use crex.Bytecode.Limits.{Within}
use crex.Bytecode.Fetch.{fetch-emitted}
use crex.Vm.{Program}
use crex.Vm.Step.{opcode_at}
use crex.Vm.Run.Sound.{limits_of, IsInstr, IsSound}
use crex.Compiler.Layout.{Instr, bytes, extent, extent-append, At}
use crex.Compiler.Laid.{Narrow, Sized, length-bytes, length-Laid}
use crex.Compiler.Linked.{Limited, Compiled}
use crex.Compiler.Guarded.{is_start, is_start-Starts, Starts-le, All-behind, rest_Sized, drop-At}

pub length-builtin_classes : length builtin_classes ≡ 18
unfolding builtin_classes
length-builtin_classes = refl

-- An operand that is within the limits has 32 bits where they have, and so is read as it was written.
module _ (program : Program) (size : ℕ) (few : length program.classes ≤ 2 ^ 32)
    (small : size ≤ 2 ^ 29) where
  read-Within :
      (op : Opcode) (n s d : ℕ)
      → Narrow op n s
      → (n < 256 ^ s → d ≡ n)
      → Within (limits_of program size) op n
      → Within (limits_of program size) op d
  read-Within Opcode.char_class n s d k read h =
      subst (λ i. i < length program.classes) (sym (read (k (omega arith)))) h
  read-Within Opcode.builtin_char_class n s d k read h =
      subst (λ i. i < length builtin_classes)
        (sym (read (k (omega (arith, length-builtin_classes))))) h
  read-Within Opcode.test_and_set_flag n s d k read h =
      subst (λ i. i / 8 < size) (sym (read (k (omega arith)))) h
  read-Within _ n s d k read h = tt

  At-IsInstr :
      (all : List Instr) (sized : All Sized all)
      (limited : All (Limited (limits_of program size)) all) (a : ℕ) (i : Instr) (rest : List Instr)
      → At all a (i ∷ rest)
      → IsInstr (limits_of program size) (drop a (bytes all))
  At-IsInstr all sized limited a i rest at =
      let own = rest_Sized all sized a (i ∷ rest) at in
      let within =
        All-behind (Limited (limits_of program size)) at.before (i ∷ rest)
          (subst (All (Limited (limits_of program size))) at.splits limited) in
      let rest_is = drop-At all sized a (i ∷ rest) at in
      let long = length-bytes (i ∷ rest) own in
      record {
        fetched = record {
          opcode = code_of i.op;
          operand = deserialize_operand (serialize_operand i.operand i.size ++ bytes rest) i.size;
          next = 1 + i.size;
        };
        opcode = i.op;
        is_fetched = rw rest_is (fetch-emitted i.op i.operand i.size (bytes rest) own.0.0);
        inside = omega (arith, ap length rest_is, long);
        is_opcode = opcode_at i.op;
        within =
            read-Within i.op i.operand i.size _ own.0.1
              (deserialize_operand-serialize_operand i.operand i.size (bytes rest) own.0.0)
              within.0;
      }

-- Code within the limits of a program is sound in it.
pub Compiled-IsSound :
    (code : List ℕ) (classes : List Bitmap) (size : ℕ)
    (c : Compiled (limits_of (record { code = code; classes = classes }) size) code)
    → length classes ≤ 2 ^ 32
    → size ≤ 2 ^ 29
    → IsSound (record { code = code; classes = classes }) (is_start c.instrs) size
Compiled-IsSound code classes size c few small = record {
  ahead = λ a h. omega (
    arith,
    Starts-le c.instrs a (is_start-Starts c.instrs a h),
    length-Laid code c.instrs c.laid,
  );
  instrs = λ a h l.
      let s = is_start-Starts c.instrs a h in
      subst (λ bs. IsInstr (limits_of (record { code = code; classes = classes }) size) (drop a bs))
        c.laid.emits (go a s.rest s.at (omega (arith, l, length-Laid code c.instrs c.laid)));
}
  where
    go :
        (a : ℕ) (rest : List Instr)
        → At c.instrs a rest
        → a < extent c.instrs
        → IsInstr
            (limits_of (record { code = code; classes = classes }) size)
            (drop a (bytes c.instrs))
    go a [] at l =
        absurd (omega (arith, l, at.address, ap extent at.splits, extent-append at.before []))
    go a (i ∷ rest) at l =
        At-IsInstr (record { code = code; classes = classes }) size few small c.instrs c.laid.sized
          c.within a i rest at
