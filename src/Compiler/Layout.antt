-- ===== src/Compiler/Layout.antt =====
-- The code of src/bytecode-compiler.c as instructions, of which each jump and split leads to another.
use crex.Base.{
  ℕ, ◌+◌, ◌-◌, ◌≤◌, ◌≡◌, refl, sym, ap, ◌∙◌, subst, List, [], ◌∷◌, ◌++◌, append_assoc, arith,
}
use crex.Bytecode.{Opcode, code_of, emit_bytecode}

pub record Instr : Type 0 where
  pub op : Opcode
  pub operand : ℕ
  pub size : ℕ

abbrev pub bytes : List Instr → List ℕ
bytes [] = []
bytes (i ∷ is) = emit_bytecode (code_of i.op) i.operand i.size ++ bytes is

abbrev pub extent : List Instr → ℕ
extent [] = 0
extent (i ∷ is) = 1 + i.size + extent is

pub extent-append : (xs ys : List Instr) → extent (xs ++ ys) ≡ extent xs + extent ys
extent-append [] ys = omega arith
extent-append (x ∷ xs) ys = omega (arith, extent-append xs ys)

pub bytes-append : (xs ys : List Instr) → bytes (xs ++ ys) ≡ bytes xs ++ bytes ys
bytes-append [] ys = refl
bytes-append (x ∷ xs) ys =
    ap (λ code. emit_bytecode (code_of x.op) x.operand x.size ++ code) (bytes-append xs ys)
    ∙ sym (append_assoc (emit_bytecode (code_of x.op) x.operand x.size) (bytes xs) (bytes ys))

-- Behind so many bytes these instructions follow.
pub record At (all : List Instr) (a : ℕ) (rest : List Instr) : Type 0 where
  pub before : List Instr
  pub splits : all ≡ before ++ rest
  pub address : extent before ≡ a

pub record Starts (all : List Instr) (a : ℕ) : Type 0 where
  pub rest : List Instr
  pub at : At all a rest

-- At an address stands a flag.
pub record FlagAt (all : List Instr) (a : ℕ) : Type 0 where
  pub flag : Instr
  pub rest : List Instr
  pub is_flag : flag.op ≡ Opcode.test_and_set_flag
  pub at : At all a (flag ∷ rest)

-- Where an instruction with an operand, behind which `next` stands, may lead.
abbrev pub Leads : List Instr → Opcode → ℕ → ℕ → Type 0
Leads all Opcode.jump n next = Starts all (next + n)
Leads all Opcode.split_passive n next = Starts all (next + n)
Leads all Opcode.split_eager n next = Starts all (next + n)
Leads all Opcode.split_backwards_passive n next = (n ≤ next) × FlagAt all (next - n)
Leads all Opcode.split_backwards_eager n next = (n ≤ next) × FlagAt all (next - n)
Leads all _ n next = Unit

-- All instructions from an address on lead to instructions.
abbrev pub Linked : List Instr → ℕ → List Instr → Type 0
Linked all a [] = Unit
Linked all a (i ∷ is) =
    Leads all i.op i.operand (a + (1 + i.size)) × Linked all (a + (1 + i.size)) is

-- Instructions that stay linked wherever they are put.
abbrev pub Portable : List Instr → Type 0
Portable is = (before after : List Instr) → Linked (before ++ (is ++ after)) (extent before) is

pub Linked-append :
    (all : List Instr) (a : ℕ) (xs ys : List Instr)
    → Linked all a xs
    → Linked all (a + extent xs) ys
    → Linked all a (xs ++ ys)
Linked-append all a [] ys h k = subst (λ b. Linked all b ys) (omega arith) k
Linked-append all a (x ∷ xs) ys h k = (
  h.0,
  Linked-append all (a + (1 + x.size)) xs ys h.1 (subst (λ b. Linked all b ys) (omega arith) k),
)

pub Portable-nil : Portable []
Portable-nil before after = tt

pub Portable-append : (xs ys : List Instr) → Portable xs → Portable ys → Portable (xs ++ ys)
Portable-append xs ys h k before after =
    let first =
      subst (λ all. Linked all (extent before) xs)
        (ap (λ rest. before ++ rest) (sym (append_assoc xs ys after))) (h before (ys ++ after)) in
    let second =
      subst (λ all. Linked all (extent (before ++ xs)) ys)
        (append_assoc before xs (ys ++ after)
          ∙ ap (λ rest. before ++ rest) (sym (append_assoc xs ys after)))
        (k (before ++ xs) after) in
    Linked-append (before ++ ((xs ++ ys) ++ after)) (extent before) xs ys first
      (subst (λ b. Linked (before ++ ((xs ++ ys) ++ after)) b ys) (extent-append before xs) second)

-- An instruction that leads over others that follow it, or to none.
pub Portable-cons :
    (i : Instr) (is : List Instr)
    → ((before after : List Instr)
        → Leads (before ++ ((i ∷ is) ++ after)) i.op i.operand (extent before + (1 + i.size)))
    → Portable is
    → Portable (i ∷ is)
Portable-cons i is h k before after = (
  h before after,
  subst (λ b. Linked (before ++ (i ∷ (is ++ after))) b is)
      (extent-append before (i ∷ []) ∙ omega arith)
      (subst (λ all. Linked all (extent (before ++ i ∷ [])) is)
        (append_assoc before (i ∷ []) (is ++ after)) (k (before ++ i ∷ []) after)),
)

-- The address behind the instructions that a forward jump leads over.
pub Starts-over :
    (i : Instr) (xs ys : List Instr) (n : ℕ)
    → n ≡ extent xs
    → (before after : List Instr)
    → Starts (before ++ ((i ∷ (xs ++ ys)) ++ after)) (extent before + (1 + i.size) + n)
Starts-over i xs ys n e before after = record {
  rest = ys ++ after;
  at = record {
    before = before ++ (i ∷ xs);
    splits =
        ap (λ rest. before ++ (i ∷ rest)) (append_assoc xs ys after)
        ∙ sym (append_assoc before (i ∷ xs) (ys ++ after));
    address = omega (arith, extent-append before (i ∷ xs));
  };
}
