-- ===== src/Assembler/Room.antt =====
-- What src/assembler.c keeps of an assembler that its buffer grows for.
use crex.Base.{
  ℕ, ◌+◌, ◌-◌, ◌*◌, ◌≤◌, ◌<◌, ◌≡◌, refl, ◌∙◌, some, List, length, get_elem?, take, replicate,
  length-append, length-replicate, ltb, if_split, arith,
}
use crex.Status.{Ensures, returns, fails, faults}
use crex.Assembler.{LabelUse, Assembler, Mapped, grow_assembler, reserve_assembler_space}
use crex.Assembler.Labels.Spans.{IsLaid}
use crex.Assembler.Labels.Start.{IsLong}
use crex.Assembler.Writes.{length-write_at}

abbrev pub IsNumbered : ℕ → List LabelUse → Type 0
IsNumbered n us = (i : ℕ) (u : LabelUse) → get_elem? us i ≡ some u → u.label < n

-- The code fits its mapping, and the uses lie in it one behind the other, none short and each of a label
-- that exists. A page has room for any instruction.
pub record IsSound (asm : Assembler) : Type 0 where
  pub mapped : length asm.code ≡ asm.capacity
  pub fits : asm.size ≤ asm.capacity
  pub page : 16 ≤ asm.page_size
  pub laid : IsLaid 0 asm.uses asm.size
  pub long : IsLong asm.uses
  pub numbered : IsNumbered asm.n_labels asm.uses

-- An assembler with more room, and nothing else changed.
pub record HasRoom (asm : Assembler) (n : ℕ) (asm' : Assembler) : Type 0 where
  pub sound : IsSound asm'
  pub room : asm.size + n ≤ asm'.capacity
  pub same_size : asm'.size ≡ asm.size
  pub same_labels : asm'.n_labels ≡ asm.n_labels

grow_assembler-HasRoom :
    (mapped : Mapped) (asm : Assembler) (n : ℕ)
    → IsSound asm
    → n ≤ asm.page_size
    → Ensures (HasRoom asm n) (grow_assembler mapped asm)
unfolding grow_assembler
grow_assembler-HasRoom Mapped.failed asm n s h = fails
grow_assembler-HasRoom Mapped.lost asm n s h = faults
grow_assembler-HasRoom Mapped.adjacent asm n s h =
    let capacity = 2 * asm.capacity + asm.page_size in
    returns (record {
      sound = record {
        mapped =
            length-append asm.code (replicate (capacity - asm.capacity) 0)
            ∙ omega (arith, s.mapped, length-replicate {A = ℕ} (capacity - asm.capacity) 0);
        fits = omega (arith, s.fits);
        page = s.page;
        laid = s.laid;
        long = s.long;
        numbered = s.numbered;
      };
      room = omega (arith, s.fits, h);
      same_size = refl;
      same_labels = refl;
    })
grow_assembler-HasRoom Mapped.moved asm n s h =
    let capacity = 2 * asm.capacity + asm.page_size in
    returns (record {
      sound = record {
        mapped =
            length-write_at (replicate capacity 0) 0 (take asm.size asm.code)
            ∙ length-replicate capacity 0;
        fits = omega (arith, s.fits);
        page = s.page;
        laid = s.laid;
        long = s.long;
        numbered = s.numbered;
      };
      room = omega (arith, s.fits, h);
      same_size = refl;
      same_labels = refl;
    })

pub reserve_assembler_space-HasRoom :
    (mapped : Mapped) (asm : Assembler) (n : ℕ)
    → IsSound asm
    → n ≤ asm.page_size
    → Ensures (HasRoom asm n) (reserve_assembler_space mapped asm n)
unfolding reserve_assembler_space
reserve_assembler_space-HasRoom mapped asm n s h =
    if_split (Ensures (HasRoom asm n)) (ltb asm.capacity (asm.size + n))
      (λ e. grow_assembler-HasRoom mapped asm n s h)
      (λ e.
        returns (record { sound = s; room = ground arith; same_size = refl; same_labels = refl }))
