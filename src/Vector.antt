-- ===== src/Vector.antt =====
-- src/vector.c: arrays that grow, which the parser and the compiler keep their stacks and their code in.
pub mod Contents
use crex.Base.{
  ℕ, zero, suc, ◌+◌, ◌-◌, ◌*◌, ◌/◌, ◌%◌, ◌^◌, Bool, true, false, Option, none, some, List, [], ◌∷◌,
  ◌++◌, length, get_elem?, set, take, ltb, ◌==◌, if◌then◌else◌,
}
use crex.Status.{Result, ok, undefined}

-- A vector. `cells` is the array that `buffer` leads to, in the vector itself or on the heap, with
-- none for `NULL`.
pub record Vector {ℓ} (A : Type ℓ) : Type ℓ where
  pub size : ℕ
  pub capacity : ℕ
  pub cells : List A

module _ {ℓ} {A : Type ℓ} where
  -- So many cells that hold whatever they held.
  unfoldable pub fresh : (ℕ → A) → ℕ → List A
  fresh stale zero = []
  fresh stale (suc n) = stale n ∷ fresh stale n

  -- `vector_at`
  unfoldable pub vector_at : Vector A → ℕ → Result A
  vector_at v index = elim (ltb index v.size) [
    | true ↦ elim (get_elem? v.cells index) [ none ↦ undefined | some a ↦ ok a ]
    | false ↦ undefined
  ]

  unfoldable pub vector_empty : Vector A → Bool
  vector_empty v = v.size == 0

  -- `vector_pop`: the last element, and the vector without it.
  unfoldable pub vector_pop : Vector A → Result (A × Vector A)
  vector_pop v = elim (v.size == 0) [
    | true ↦ undefined
    | false ↦ elim (get_elem? v.cells (v.size - 1)) [
      | none ↦ undefined
      | some a ↦ ok (a, record v { size = v.size - 1 })
    ]
  ]

  -- `vector_top`: the index of the last element.
  unfoldable pub vector_top : Vector A → Result ℕ
  vector_top v = elim (v.size == 0) [ true ↦ undefined | false ↦ ok (v.size - 1) ]

  -- `vector_extend`, with the end as its distance from the buffer.
  unfoldable pub vector_extend : Vector A → ℕ → Vector A
  vector_extend v end_ = record v { size = end_ }

-- The capacity that `vector_reserve` asks for, as a `size_t`; `MIN_ALLOCATION` is 0 where it is not
-- defined.
unfoldable pub grown_capacity : ℕ → ℕ → ℕ
grown_capacity min_allocation needed =
    let capacity = 2 * needed % 2 ^ 64 in
    if ltb capacity min_allocation then min_allocation else capacity

-- `STACK_CAPACITY`, if it is defined.
module _ {ℓ} {A : Type ℓ} (stack_capacity : Option ℕ) where
  unfoldable pub heap_allocated : Vector A → Bool
  heap_allocated v = elim stack_capacity [ none ↦ true | some n ↦ ltb n v.capacity ]

  unfoldable pub create_vector : (ℕ → A) → Vector A
  unfolding fresh
  create_vector stale = elim stack_capacity [
    | none ↦ record { size = 0; capacity = 0; cells = [] }
    | some n ↦ record { size = 0; capacity = n; cells = fresh stale n }
  ]

  -- The array that `unpack_vector` gives away, or none when there is no memory for a copy.
  unfoldable pub unpack_vector : Bool → Vector A → Option (List A)
  unfolding heap_allocated
  unpack_vector room v = elim (heap_allocated v) [
    | true ↦ some v.cells
    | false ↦ elim room [ true ↦ some (take v.size v.cells) | false ↦ none ]
  ]

-- The `sizeof` of an element stands for its width.
module _ {ℓ} {A : Type ℓ} (min_allocation width : ℕ) where
  -- The array of a block of that capacity, with the elements copied to its front. Its bytes are
  -- counted as a `size_t`; where the count wraps, the copy may run over the end of the block, which
  -- this list does not show.
  unfoldable pub moved_cells : (ℕ → A) → ℕ → Vector A → List A
  unfolding fresh
  moved_cells stale capacity v =
      let room = width * capacity % 2 ^ 64 / width in
      take v.size v.cells ++ fresh stale (room - v.size)

  -- `vector_reserve` for so many more elements: the index of the first, or none for `NULL`. `room`
  -- says whether there is memory, and `stale` what it holds.
  unfoldable pub vector_reserve : Bool → (ℕ → A) → Vector A → ℕ → Option ℕ × Vector A
  unfolding grown_capacity moved_cells
  vector_reserve room stale v more =
      let needed = (v.size + more) % 2 ^ 64 in
      let capacity = grown_capacity min_allocation needed in
      elim (ltb v.capacity needed) [
        | false ↦ (some v.size, v)
        | true ↦ elim room [
          | false ↦ (none, v)
          | true ↦ (
            some v.size,
            record { size = v.size; capacity = capacity; cells = moved_cells stale capacity v },
          )
        ]
      ]

  -- `vector_emplace`, which counts the element even where there is no memory for it.
  unfoldable pub vector_emplace : Bool → (ℕ → A) → Vector A → Option ℕ × Vector A
  unfolding vector_reserve
  vector_emplace room stale v =
      let (place, v') = vector_reserve room stale v 1 in
      (place, record v' { size = (v'.size + 1) % 2 ^ 64 })

  unfoldable pub vector_push : Bool → (ℕ → A) → Vector A → A → Bool × Vector A
  unfolding vector_emplace
  vector_push room stale v a =
      let (place, v') = vector_emplace room stale v in
      elim place [ none ↦ (false, v') | some i ↦ (true, record v' { cells = set v'.cells i a }) ]
