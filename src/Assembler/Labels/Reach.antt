-- ===== src/Assembler/Labels/Reach.antt =====
-- Where the instructions with labels that `resolve_assembler_labels` of src/assembler.c writes lead.
use crex.Base.{
  ℕ, zero, suc, ◌+◌, ◌-◌, ◌≤◌, ◌<◌, ◌≡◌, ◌≢◌, ap, ◌∙◌, subst, inl, inr, true, some, List, [], ◌∷◌,
  ◌++◌, length, get_elem?, take, drop, leb, leb→le, Bool-cases, arith,
}
use crex.Vm.{sub_size}
use crex.X64.{is_byte}
use crex.Assembler.{UseType, LabelUse}
use crex.Assembler.Labels.{reserved_size, encode_use, next_offset}
use crex.Assembler.Labels.Spans.{gain, before, IsLaid}
use crex.Assembler.Labels.Layout.{
  shrink-le, layout_from, layout_ahead, layout_end, layout_within, before-suc,
}
use crex.Assembler.Labels.Spots.{ahead}
use crex.Assembler.Labels.Visit.{reserved_of_branch}
use crex.Assembler.Labels.Whole.{Reaches}
use crex.Assembler.Labels.Settled.{IsSettled}
use crex.Assembler.Labels.Moves.{value_of, relocated, next_within, length-take}
use crex.Assembler.Labels.Jumps.{leads_to, leads_to-encode_use, is_byte_between}
use crex.Assembler.Labels.Found.{drop-append, IsLaid-next, relocated-HasAt}

-- The position of a use behind what is saved before it.
abbrev pub position_of : List LabelUse → ℕ → LabelUse → ℕ
position_of us i u = u.offset - before us i

abbrev pub CanEncode : LabelUse → Type 0
CanEncode u = (u.type ≢ UseType.definition) × (u.jcc_type < 16) × (u.reg < 16)

within_room :
    (p size i : ℕ) (us : List LabelUse) (u : LabelUse)
    → IsLaid p us size
    → get_elem? us i ≡ some u
    → u.offset + reserved_size u.type ≤ size
within_room p size i [] u h e = absurd cc
within_room p size zero (v ∷ us) u h e =
    let same_use : v ≡ u = cc in
    subst (λ (w : LabelUse). w.offset + reserved_size w.type ≤ size) same_use
      (layout_end (v.offset + reserved_size v.type) size us h.1)
within_room p size (suc i) (v ∷ us) u h e =
    within_room (v.offset + reserved_size v.type) size i us u h.1 e

-- Behind what is saved before them, uses lie in the order that they had.
order_of :
    (size i k : ℕ) (us : List LabelUse) (a b : LabelUse)
    → IsLaid 0 us size
    → get_elem? us i ≡ some a
    → get_elem? us k ≡ some b
    → i ≤ k
    → a.offset + before us k ≤ b.offset + before us i
order_of size i k us a b laid e f h = elim (Bool-cases (leb k i)) [
  | inl t ↦
      let together : i ≡ k = ground arith in
      let same_use : a ≡ b = cc in
      omega (arith, together, ap (before us) together, ap (λ (w : LabelUse). w.offset) same_use)
  | inr t ↦
      let apart : i < k = ground arith in
      omega (arith, layout_ahead 0 size i k us a b laid e f apart, before-suc us i a e, shrink-le a)
]

module _ {Live : ℕ → Type 0} (index : ℕ → ℕ) (size : ℕ) (us : List LabelUse) (vs : List ℕ)
    (settled : IsSettled Live index size us vs) (i k : ℕ) (u d : LabelUse)
    (u_at : get_elem? us i ≡ some u) (d_at : get_elem? us k ≡ some d) where
  use_bound : before us i ≤ u.offset
  use_bound = omega (arith, layout_from 0 size i us u settled.laid u_at)

  definition_bound : before us k ≤ d.offset
  definition_bound = omega (arith, layout_from 0 size k us d settled.laid d_at)

  -- A short branch has a displacement of eight bits.
  short_is_byte :
      Reaches 0 us us i u (ahead k)
      → zero < gain u.type
      → is_byte (sub_size (position_of us k d) (position_of us i u + 2)) ≡ true
  short_is_byte h g =
      let reach = h d d_at in
      let end_u = within_room 0 size i us u settled.laid u_at in
      let end_d = layout_within 0 size k us d settled.laid d_at in
      is_byte_between (position_of us k d) (position_of us i u + 2)
        (omega (arith, end_d, settled.small))
        (omega (arith, end_u, settled.small, reserved_of_branch u.type g))
        (elim (Bool-cases (leb k i)) [
          | inl e ↦ omega (arith, reach.0 (leb→le k i e), use_bound, definition_bound)
          | inr e ↦
              let apart : i < k = ground arith in
              omega (
                arith,
                order_of size i k us u d settled.laid u_at d_at (omega arith),
                use_bound,
                definition_bound,
              )
        ])
        (elim (Bool-cases (leb k i)) [
          | inl e ↦ omega (
            arith,
            order_of size k i us d u settled.laid d_at u_at (leb→le k i e),
            use_bound,
            definition_bound,
          )
          | inr e ↦
              let apart : i < k = ground arith in
              omega (arith, reach.1 apart, use_bound, definition_bound)
        ])

  module _ (original : List ℕ) (fits : size ≤ length original) (k_is : index u.label ≡ k)
      (valued : value_of vs u.label ≡ position_of us k d) (able : CanEncode u) where
    instruction_leads :
        (rest : List ℕ)
        → leads_to
            (position_of us i u)
            (encode_use u.type u (position_of us i u) (position_of us k d) ++ rest)
          ≡ some (position_of us k d)
    instruction_leads rest =
        leads_to-encode_use u (position_of us i u) (position_of us k d) rest
          (omega (arith, layout_within 0 size k us d settled.laid d_at, settled.small)) able.1
          able.2 u.type able.0
          (omega (arith, within_room 0 size i us u settled.laid u_at, settled.small))
          (λ g e.
            short_is_byte
              (subst (λ j. Reaches 0 us us i u (ahead j)) k_is (settled.reached i u u_at e)) g)

    pub code_leads :
        leads_to (position_of us i u) (
          drop
            (position_of us i u)
            (take (next_offset size us) original ++ relocated size original vs 0 us))
        ≡ some (position_of us k d)
    code_leads =
        let first = next_offset size us in
        let next = next_within 0 size us settled.laid in
        let head = take first original in
        let length_head : length head ≡ first =
          length-take first original (omega (arith, next.1, fits)) in
        let far = layout_from first size i us u (IsLaid-next 0 size us settled.laid) u_at in
        let h = relocated-HasAt size original vs fits 0 0 i us u settled.laid (omega arith) u_at in
        let found : drop (position_of us i u) (head ++ relocated size original vs 0 us)
            ≡ encode_use u.type u (position_of us i u) (position_of us k d) ++ h.rest =
          ap (λ n. drop n (head ++ relocated size original vs 0 us))
            (omega (arith, length_head, far))
          ∙ drop-append head (relocated size original vs 0 us)
              (u.offset - (0 + before us i) - (first - 0))
          ∙ h.found
          ∙ ap (λ n. encode_use u.type u n (value_of vs u.label) ++ h.rest) (omega arith)
          ∙ ap (λ t. encode_use u.type u (position_of us i u) t ++ h.rest) valued in
        ap (leads_to (position_of us i u)) found ∙ instruction_leads h.rest
