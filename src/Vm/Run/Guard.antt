-- ===== src/Vm/Run/Guard.antt =====
-- What the loop over one thread in `run_threads` of src/vm.c relies on in the code that it runs.
use crex.Base.{
  ℕ, zero, suc, ◌+◌, ◌^◌, ◌≤◌, ◌≡◌, refl, Bool, true, false, not, ◌&&◌, ◌||◌, Option, none, some,
  List, [], ◌∷◌, length, drop, get_elem?, ltb, Bool-cases, inl, inr, all_below, all_below_sound,
  arith,
}
use crex.Bytecode.{Opcode, Fetched, fetch}
use crex.Vm.{Program, sub_size, opcodes}

-- Whether an instruction is `VM_TEST_AND_SET_FLAG`.
unfoldable pub is_flag : Option Opcode → Bool
is_flag (some Opcode.test_and_set_flag) = true
is_flag _ = false

unfoldable pub fetches_flag : Option Fetched → Bool
unfolding is_flag
fetches_flag none = false
fetches_flag (some f) = is_flag (get_elem? opcodes f.opcode)

guard_holds : (b c : Bool) → b ≡ true → (not b || c) ≡ true → c ≡ true
guard_holds b c h k = ground arith

pub drop_all : (a : ℕ) (code : List ℕ) → length code ≤ a → drop a code ≡ []
drop_all zero [] h = refl
drop_all zero (b ∷ code) h = absurd (omega arith)
drop_all (suc a) [] h = refl
drop_all (suc a) (b ∷ code) h = drop_all a code (omega arith)

module _ (program : Program) (starts : ℕ → Bool) where
  -- Where an instruction leads its thread, behind it or at its target, and where a split sends a new
  -- one, an instruction starts; a target is no overflow, and one that lies behind is a flag.
  unfoldable pub guards_ahead : ℕ → ℕ → Bool
  guards_ahead n next = ltb (next + n) (2 ^ 64) && starts (next + n)

  unfoldable pub guards_back : ℕ → ℕ → Bool
  guards_back n next =
      starts (sub_size next n) && fetches_flag (fetch (drop (sub_size next n) program.code))

  unfoldable pub guards : Option Opcode → ℕ → ℕ → Bool
  unfolding guards_ahead guards_back
  guards none n next = true
  guards (some Opcode.jump) n next = guards_ahead n next
  guards (some Opcode.split_passive) n next = starts next && guards_ahead n next
  guards (some Opcode.split_eager) n next = starts next && guards_ahead n next
  guards (some Opcode.split_backwards_passive) n next = starts next && guards_back n next
  guards (some Opcode.split_backwards_eager) n next = starts next && guards_back n next
  guards (some _) n next = starts next

  unfoldable pub guards_fetched : ℕ → Option Fetched → Bool
  unfolding guards
  guards_fetched a none = true
  guards_fetched a (some f) = guards (get_elem? opcodes f.opcode) f.operand (a + f.next)

  -- The instructions at all addresses where one starts.
  unfoldable pub is_guarded : Bool
  unfolding guards_fetched
  is_guarded =
      all_below (length program.code)
        (λ a. not (starts a) || guards_fetched a (fetch (drop a program.code)))

  -- What an instruction's address needs of the program.
  pub guarded_at :
      (a : ℕ)
      → is_guarded ≡ true
      → starts a ≡ true
      → guards_fetched a (fetch (drop a program.code)) ≡ true
  unfolding is_guarded guards_fetched fetch
  guarded_at a g h = elim (Bool-cases (ltb a (length program.code))) [
    | inl e ↦ guard_holds (starts a) _ h (
        all_below_sound (length program.code)
          (λ b. not (starts b) || guards_fetched b (fetch (drop b program.code))) a g
          (ground arith))
    | inr e ↦ rw (drop_all a program.code (ground arith)) refl
  ]
