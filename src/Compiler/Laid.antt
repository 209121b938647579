-- ===== src/Compiler/Laid.antt =====
-- The code of a tree of src/bytecode-compiler.c is a list of instructions that are linked wherever
-- the code is put.
use crex.Base.{
  ℕ, ◌<◌, ◌^◌, ◌≡◌, refl, sym, ap, ◌∙◌, List, [], ◌∷◌, ◌++◌, All, All-append, length, length-append,
  arith,
}
use crex.Serialization.{size_for_operand}
use crex.Serialization.RoundTrip.{IsSize, size_4, size_for_operand_least}
use crex.Bytecode.{Opcode, code_of, emit_bytecode}
use crex.Bytecode.Fetch.{length-emit_bytecode}
use crex.Compiler.{emit}
use crex.Compiler.Layout.{Instr, bytes, extent, bytes-append}

-- An operand that is added to an address or used as an index, of 32 bits, fits the size it is written in.
abbrev pub Narrow : Opcode → ℕ → ℕ → Type 0
Narrow Opcode.jump n s = n < 2 ^ 32 → n < 256 ^ s
Narrow Opcode.split_passive n s = n < 2 ^ 32 → n < 256 ^ s
Narrow Opcode.split_eager n s = n < 2 ^ 32 → n < 256 ^ s
Narrow Opcode.split_backwards_passive n s = n < 2 ^ 32 → n < 256 ^ s
Narrow Opcode.split_backwards_eager n s = n < 2 ^ 32 → n < 256 ^ s
Narrow Opcode.char_class n s = n < 2 ^ 32 → n < 256 ^ s
Narrow Opcode.builtin_char_class n s = n < 2 ^ 32 → n < 256 ^ s
Narrow Opcode.test_and_set_flag n s = n < 2 ^ 32 → n < 256 ^ s
Narrow _ n s = Unit

abbrev pub Sized : Instr → Type 0
Sized i = IsSize i.size × Narrow i.op i.operand i.size

-- Code that these instructions are written as.
pub record Laid (code : List ℕ) (is : List Instr) : Type 0 where
  pub emits : bytes is ≡ code
  pub sized : All Sized is

pub length-bytes : (is : List Instr) → All Sized is → length (bytes is) ≡ extent is
length-bytes [] h = refl
length-bytes (i ∷ is) h = omega (
  arith,
  length-append (emit_bytecode (code_of i.op) i.operand i.size) (bytes is),
  length-emit_bytecode (code_of i.op) i.operand i.size h.0.0,
  length-bytes is h.1,
)

pub length-Laid : (code : List ℕ) (is : List Instr) → Laid code is → length code ≡ extent is
length-Laid code is l = ap length (sym l.emits) ∙ length-bytes is l.sized

pub Laid-append :
    (xs ys : List ℕ) (is js : List Instr) → Laid xs is → Laid ys js → Laid (xs ++ ys) (is ++ js)
Laid-append xs ys is js l k = record {
  emits = bytes-append is js ∙ ap (λ t. t ++ bytes js) l.emits ∙ ap (λ t. xs ++ t) k.emits;
  sized = All-append Sized is js l.sized k.sized;
}

pub Laid-cons :
    (op : Opcode) (n s : ℕ) (code : List ℕ) (is : List Instr)
    → IsSize s
    → Narrow op n s
    → Laid code is
    → Laid (emit op n s ++ code) (record { op = op; operand = n; size = s } ∷ is)
Laid-cons op n s code is k h l = record {
  emits = ap (λ t. emit op n s ++ t) l.emits;
  sized = ((k, h), l.sized);
}

pub Laid-nil : Laid [] []
Laid-nil = record { emits = refl; sized = tt }

-- The least size of an operand of 32 bits holds it.
pub least-Narrow : (op : Opcode) (n : ℕ) → Narrow op n (size_for_operand n)
least-Narrow Opcode.char_class n = λ h. (size_for_operand_least n 4 h size_4).0
least-Narrow Opcode.builtin_char_class n = λ h. (size_for_operand_least n 4 h size_4).0
least-Narrow Opcode.test_and_set_flag n = λ h. (size_for_operand_least n 4 h size_4).0
least-Narrow Opcode.jump n = λ h. (size_for_operand_least n 4 h size_4).0
least-Narrow Opcode.split_passive n = λ h. (size_for_operand_least n 4 h size_4).0
least-Narrow Opcode.split_eager n = λ h. (size_for_operand_least n 4 h size_4).0
least-Narrow Opcode.split_backwards_passive n = λ h. (size_for_operand_least n 4 h size_4).0
least-Narrow Opcode.split_backwards_eager n = λ h. (size_for_operand_least n 4 h size_4).0
least-Narrow Opcode.character n = tt
least-Narrow Opcode.anchor_bof n = tt
least-Narrow Opcode.anchor_bol n = tt
least-Narrow Opcode.anchor_eof n = tt
least-Narrow Opcode.anchor_eol n = tt
least-Narrow Opcode.anchor_word_boundary n = tt
least-Narrow Opcode.anchor_not_word_boundary n = tt
least-Narrow Opcode.write_pointer n = tt
