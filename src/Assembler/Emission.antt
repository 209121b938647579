-- ===== src/Assembler/Emission.antt =====
-- What every operation of src/assembler.c keeps of an assembler, from `create_assembler` to
-- `resolve_assembler_labels`.
use crex.Base.{
  ℕ, zero, suc, ◌+◌, ◌≤◌, ◌<◌, ◌≡◌, ◌≢◌, refl, sym, ap, ◌∙◌, subst, Bool, false, some, List, [],
  ◌∷◌, ◌++◌, length, get_elem?, ◌==◌, if_split, arith,
}
use crex.Status.{Result, ok, Ensures, returns, fails, Ensures-bind, Ensures-weaken, Ensures-ok}
use crex.Assembler.{
  UseType, LabelUse, Assembler, Mapped, create_assembler, emit_instruction, create_label,
  push_label_use, define_label, use_label, call_label, jmp_label, lea64_reg_label, jcc_label,
}
use crex.Assembler.Labels.{reserved_size}
use crex.Assembler.Labels.Spans.{IsLaid}
use crex.Assembler.Labels.Start.{IsLong}
use crex.Assembler.Writes.{length-write_at}
use crex.Assembler.Room.{IsNumbered, IsSound, reserve_assembler_space-HasRoom}

IsLaid-further :
    (p size size' : ℕ) (us : List LabelUse) → size ≤ size' → IsLaid p us size → IsLaid p us size'
IsLaid-further p size size' [] h k = omega arith
IsLaid-further p size size' (u ∷ us) h k =
    (k.0, IsLaid-further (u.offset + reserved_size u.type) size size' us h k.1)

IsLaid-last :
    (p : ℕ) (us : List LabelUse) (u : LabelUse) (size' : ℕ)
    → u.offset + reserved_size u.type ≤ size'
    → IsLaid p us u.offset
    → IsLaid p (us ++ u ∷ []) size'
IsLaid-last p [] u size' h k = (k, h)
IsLaid-last p (v ∷ us) u size' h k =
    (k.0, IsLaid-last (v.offset + reserved_size v.type) us u size' h k.1)

-- What holds of all uses holds of one more.
all_last :
    (P : LabelUse → Type 0) (us : List LabelUse) (u : LabelUse)
    → ((i : ℕ) (v : LabelUse) → get_elem? us i ≡ some v → P v)
    → P u
    → (i : ℕ) (v : LabelUse) → get_elem? (us ++ u ∷ []) i ≡ some v
    → P v
all_last P [] u h k zero v e = let same_use : u ≡ v = cc in subst P same_use k
all_last P [] u h k (suc i) v e = absurd cc
all_last P (w ∷ us) u h k zero v e = h zero v e
all_last P (w ∷ us) u h k (suc i) v e = all_last P us u (λ j x. h (suc j) x) k i v e

pub create_assembler-IsSound :
    (page_size : ℕ) → (page_size ≢ 0 → 16 ≤ page_size) → IsSound (create_assembler page_size)
unfolding create_assembler
create_assembler-IsSound page_size h = record {
  mapped = refl;
  fits = omega arith;
  page = ground (arith, h);
  laid = omega arith;
  long = λ i u e. absurd cc;
  numbered = λ i u e. absurd cc;
}

pub emit_instruction-IsSound :
    (mapped : Mapped) (asm : Assembler) (max_size : ℕ) (bytes : List ℕ)
    → IsSound asm
    → length bytes ≤ max_size
    → max_size ≤ 16
    → Ensures IsSound (emit_instruction mapped asm max_size bytes)
unfolding emit_instruction
emit_instruction-IsSound mapped asm max_size bytes s h k =
    Ensures-bind (reserve_assembler_space-HasRoom mapped asm max_size s (omega (arith, s.page, k)))
      λ a r.
        let t = r.sound in
        returns (record {
          mapped = length-write_at a.code a.size bytes ∙ t.mapped;
          fits = omega (arith, r.room, r.same_size, h);
          page = t.page;
          laid = IsLaid-further 0 a.size (a.size + length bytes) a.uses (omega arith) t.laid;
          long = t.long;
          numbered = t.numbered;
        })

pub create_label-IsSound : (asm : Assembler) → IsSound asm → IsSound ((create_label asm).1)
unfolding create_label
create_label-IsSound asm s = record {
  mapped = s.mapped;
  fits = s.fits;
  page = s.page;
  laid = s.laid;
  long = s.long;
  numbered = λ i u e. omega (arith, s.numbered i u e);
}

-- The assembler behind `push_label_use`, but for the room of the array.
record HasUse (asm : Assembler) (u : LabelUse) (asm' : Assembler) : Type 0 where
  pub uses : asm'.uses ≡ asm.uses ++ u ∷ []
  pub size : asm'.size ≡ asm.size
  pub capacity : asm'.capacity ≡ asm.capacity
  pub code : asm'.code ≡ asm.code
  pub n_labels : asm'.n_labels ≡ asm.n_labels
  pub page_size : asm'.page_size ≡ asm.page_size

push_label_use-HasUse :
    (room : Bool) (asm : Assembler) (u : LabelUse)
    → Ensures (HasUse asm u) (push_label_use room asm u)
unfolding push_label_use
push_label_use-HasUse room asm u =
    if_split (Ensures (HasUse asm u)) (length asm.uses == asm.uses_capacity)
      (λ e.
        if_split (Ensures (HasUse asm u)) room
          (λ f. returns (record {
            uses = refl;
            size = refl;
            capacity = refl;
            code = refl;
            n_labels = refl;
            page_size = refl;
          }))
          (λ f. fails))
      (λ e. returns (record {
        uses = refl;
        size = refl;
        capacity = refl;
        code = refl;
        n_labels = refl;
        page_size = refl;
      }))

HasUse-IsSound :
    (asm asm' : Assembler) (u : LabelUse) (size : ℕ)
    → IsSound asm
    → HasUse asm u asm'
    → u.is_short ≡ false
    → u.label < asm.n_labels
    → u.offset ≡ asm.size
    → asm.size + reserved_size u.type ≤ size
    → size ≤ asm.capacity
    → IsSound (record asm' { size = size })
HasUse-IsSound asm asm' u size s h e l o f c = record {
  mapped = ap length h.code ∙ s.mapped ∙ sym h.capacity;
  fits = omega (arith, h.capacity, c);
  page = omega (arith, s.page, h.page_size);
  laid =
      subst (λ us. IsLaid 0 us size) (sym h.uses)
        (IsLaid-last 0 asm.uses u size (omega (arith, o, f))
          (IsLaid-further 0 asm.size u.offset asm.uses (omega (arith, o)) s.laid));
  long =
      subst IsLong (sym h.uses)
        (all_last (λ (v : LabelUse). v.is_short ≡ false) asm.uses u s.long e);
  numbered =
      subst (λ us. IsNumbered asm'.n_labels us) (sym h.uses)
        (subst (λ n. IsNumbered n (asm.uses ++ u ∷ [])) (sym h.n_labels)
          (all_last (λ (v : LabelUse). v.label < asm.n_labels) asm.uses u s.numbered l));
}

pub define_label-IsSound :
    (room : Bool) (asm : Assembler) (label : ℕ)
    → IsSound asm
    → label < asm.n_labels
    → Ensures IsSound (define_label room asm label)
unfolding define_label reserved_size
define_label-IsSound room asm label s l =
    Ensures-weaken
      (λ b h.
        HasUse-IsSound asm b _ b.size s h refl l refl (omega (arith, h.size))
          (omega (arith, h.size, s.fits)))
      (push_label_use-HasUse room asm _)

pub use_label-IsSound :
    (mapped : Mapped) (room : Bool) (asm : Assembler) (size : ℕ) (type : UseType)
    (reg jcc_type label : ℕ)
    → IsSound asm
    → label < asm.n_labels
    → reserved_size type ≡ size
    → size ≤ 16
    → Ensures IsSound (use_label mapped room asm size type reg jcc_type label)
unfolding use_label
use_label-IsSound mapped room asm size type reg jcc_type label s l e m =
    Ensures-bind (reserve_assembler_space-HasRoom mapped asm size s (omega (arith, s.page, m)))
      λ a r. Ensures-bind (push_label_use-HasUse room a _) λ b h. returns (
        HasUse-IsSound a b _ (b.size + size) r.sound h refl (omega (arith, l, r.same_labels)) refl
          (omega (arith, e, h.size)) (omega (arith, h.size, r.room, r.same_size)))

-- The assemblers that the operations make.
pub data Emitted (page_size : ℕ) : Assembler → Type 0 where
  created : Emitted page_size (create_assembler page_size)
  instruction :
      {a b : Assembler} (mapped : Mapped) (max_size : ℕ) (bytes : List ℕ)
      → Emitted page_size a
      → length bytes ≤ max_size
      → max_size ≤ 16
      → emit_instruction mapped a max_size bytes ≡ ok b
      → Emitted page_size b
  label : {a b : Assembler} → Emitted page_size a → (create_label a).1 ≡ b → Emitted page_size b
  defined :
      {a b : Assembler} (room : Bool) (n : ℕ)
      → Emitted page_size a
      → n < a.n_labels
      → define_label room a n ≡ ok b
      → Emitted page_size b
  called :
      {a b : Assembler} (mapped : Mapped) (room : Bool) (n : ℕ)
      → Emitted page_size a
      → n < a.n_labels
      → call_label mapped room a n ≡ ok b
      → Emitted page_size b
  jumped :
      {a b : Assembler} (mapped : Mapped) (room : Bool) (n : ℕ)
      → Emitted page_size a
      → n < a.n_labels
      → jmp_label mapped room a n ≡ ok b
      → Emitted page_size b
  loaded :
      {a b : Assembler} (mapped : Mapped) (room : Bool) (reg n : ℕ)
      → Emitted page_size a
      → n < a.n_labels
      → lea64_reg_label mapped room a reg n ≡ ok b
      → Emitted page_size b
  branched :
      {a b : Assembler} (mapped : Mapped) (room : Bool) (jcc_type n : ℕ)
      → Emitted page_size a
      → n < a.n_labels
      → jcc_label mapped room a jcc_type n ≡ ok b
      → Emitted page_size b

IsSound-ok : {b : Assembler} {m : Result Assembler} → m ≡ ok b → Ensures IsSound m → IsSound b
IsSound-ok e h = Ensures-ok (subst (Ensures IsSound) e h)

-- Whatever operations are run, with pages of 16 bytes at least, for instructions of 16 bytes at most: the
-- code fits its mapping, the uses of labels lie in it one behind the other, each with the room for its
-- instruction, none is short, and each is of a label that was created.
pub Emitted-IsSound :
    (page_size : ℕ) (asm : Assembler)
    → (page_size ≢ 0 → 16 ≤ page_size)
    → Emitted page_size asm
    → IsSound asm
unfolding call_label jmp_label lea64_reg_label jcc_label reserved_size
Emitted-IsSound page_size _ p created = create_assembler-IsSound page_size p
Emitted-IsSound page_size _ p (instruction {a = a} mapped max_size bytes h l m e) =
    IsSound-ok e
      (emit_instruction-IsSound mapped a max_size bytes (Emitted-IsSound page_size a p h) l m)
Emitted-IsSound page_size _ p (label {a = a} h e) =
    subst IsSound e (create_label-IsSound a (Emitted-IsSound page_size a p h))
Emitted-IsSound page_size _ p (defined {a = a} room n h l e) =
    IsSound-ok e (define_label-IsSound room a n (Emitted-IsSound page_size a p h) l)
Emitted-IsSound page_size _ p (called {a = a} mapped room n h l e) = IsSound-ok e (
    use_label-IsSound mapped room a 5 UseType.call 0 0 n (Emitted-IsSound page_size a p h) l refl
      (omega arith))
Emitted-IsSound page_size _ p (jumped {a = a} mapped room n h l e) = IsSound-ok e (
    use_label-IsSound mapped room a 5 UseType.jmp 0 0 n (Emitted-IsSound page_size a p h) l refl
      (omega arith))
Emitted-IsSound page_size _ p (loaded {a = a} mapped room reg n h l e) = IsSound-ok e (
    use_label-IsSound mapped room a 7 UseType.lea reg 0 n (Emitted-IsSound page_size a p h) l refl
      (omega arith))
Emitted-IsSound page_size _ p (branched {a = a} mapped room jcc_type n h l e) = IsSound-ok e (
    use_label-IsSound mapped room a 6 UseType.jcc 0 jcc_type n (Emitted-IsSound page_size a p h) l
      refl (omega arith))
