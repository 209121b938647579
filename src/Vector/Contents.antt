-- ===== src/Vector/Contents.antt =====
-- A vector of src/vector.c holds a list of elements, to which they are pushed and from which they are
-- popped at the end.
use native.Mathlib.Nat.{mul-div_cancel_left}
use crex.Base.{
  mul_mono, ℕ, zero, suc, ◌+◌, ◌-◌, ◌*◌, ◌/◌, ◌%◌, ◌^◌, ◌≤◌, ◌<◌, ◌≡◌, refl, sym, ap, ◌∙◌, subst,
  Bool, true, false, Option, none, some, List, [], ◌∷◌, ◌++◌, length, length-append, length-set,
  get_elem?, set, take, ltb, ◌==◌, if_split, arith,
}
use crex.Status.{Safely, safe}
use crex.Vector.{
  Vector, fresh, vector_pop, grown_capacity, moved_cells, vector_reserve, vector_emplace,
  vector_push,
}

module _ {ℓ} {A : Type ℓ} where
  length-take : (n : ℕ) (xs : List A) → n ≤ length xs → length (take n xs) ≡ n
  length-take zero xs h = refl
  length-take (suc n) [] h = absurd (omega arith)
  length-take (suc n) (x ∷ xs) h = ap suc (length-take n xs (omega arith))

  take-append : (n : ℕ) (xs ys : List A) → n ≤ length xs → take n (take n xs ++ ys) ≡ take n xs
  take-append zero xs ys h = refl
  take-append (suc n) [] ys h = absurd (omega arith)
  take-append (suc n) (x ∷ xs) ys h = ap (λ zs. x ∷ zs) (take-append n xs ys (omega arith))

  take-set :
      (n : ℕ) (xs : List A) (a : A)
      → n < length xs
      → take (suc n) (set xs n a) ≡ take n xs ++ a ∷ []
  take-set n [] a h = absurd (omega arith)
  take-set zero (x ∷ xs) a h = refl
  take-set (suc n) (x ∷ xs) a h = ap (λ zs. x ∷ zs) (take-set n xs a (omega arith))

  -- The element behind the first ones.
  record IsNext (n : ℕ) (xs : List A) : Type ℓ where
    element : A
    found : get_elem? xs n ≡ some element
    follows : take (suc n) xs ≡ take n xs ++ element ∷ []

  IsNext-at : (n : ℕ) (xs : List A) → n < length xs → IsNext n xs
  IsNext-at n [] h = absurd (omega arith)
  IsNext-at zero (x ∷ xs) h = record { element = x; found = refl; follows = refl }
  IsNext-at (suc n) (x ∷ xs) h =
      let next = IsNext-at n xs (omega arith) in
      record {
        element = next.element;
        found = next.found;
        follows = ap (λ zs. x ∷ zs) next.follows;
      }

  length-fresh : (stale : ℕ → A) (n : ℕ) → length (fresh stale n) ≡ n
  unfolding fresh
  length-fresh stale zero = refl
  length-fresh stale (suc n) = ap suc (length-fresh stale n)

  -- The list that a vector holds.
  abbrev pub contents : Vector A → List A
  contents v = take v.size v.cells

  -- The array has room for what the vector counts.
  pub record IsVector (v : Vector A) : Type ℓ where
    pub fits : v.size ≤ v.capacity
    pub sized : length v.cells ≡ v.capacity

  pub record IsPopped (v : Vector A) (r : A × Vector A) : Type ℓ where
    pub is_vector : IsVector r.1
    pub split : contents v ≡ contents r.1 ++ r.0 ∷ []

  -- `vector_pop` of a vector that is not empty gives the last element of its list, and leaves the
  -- others.
  pub vector_pop-IsPopped :
      (v : Vector A) → IsVector v → zero < v.size → Safely (IsPopped v) (vector_pop v)
  unfolding vector_pop
  vector_pop-IsPopped v h l =
      let next = IsNext-at (v.size - 1) v.cells (omega (arith, h.fits, h.sized)) in
      let some_left : (v.size == 0) ≡ false = ground arith in
      let last : suc (v.size - 1) ≡ v.size = omega arith in
      rw (vector_pop, some_left)
        (rw next.found (
          safe (record {
            is_vector = record { fits = omega (arith, h.fits); sized = h.sized };
            split = ap (λ n. take n v.cells) (sym last) ∙ next.follows;
          })))

-- The sizes of a vector that grows to hold so many elements do not wrap as a `size_t`.
abbrev pub Small : ℕ → ℕ → ℕ → Type 0
Small min_allocation width needed = (2 * needed + min_allocation) * width < 2 ^ 64

record IsGrown (width needed capacity : ℕ) : Type 0 where
  enough : needed ≤ capacity
  counted : width * capacity % 2 ^ 64 / width ≡ capacity

counted_whole :
    (width capacity room : ℕ)
    → zero < width
    → capacity ≤ room
    → room * width < 2 ^ 64
    → width * capacity % 2 ^ 64 / width ≡ capacity
counted_whole width capacity room h l s =
    let whole : width * capacity % 2 ^ 64 ≡ width * capacity =
      omega (arith, mul_mono capacity room width l) in
    rw whole (mul-div_cancel_left capacity h)

at_least_once : (width n : ℕ) → zero < width → n ≤ n * width
at_least_once width n h = omega (arith, mul_mono 1 width n h)

grown_capacity-IsGrown :
    (min_allocation width needed : ℕ)
    → zero < width
    → Small min_allocation width needed
    → IsGrown width needed (grown_capacity min_allocation needed)
unfolding grown_capacity
grown_capacity-IsGrown least width needed h s =
    let wide = at_least_once width (2 * needed + least) h in
    let whole : 2 * needed % 2 ^ 64 ≡ 2 * needed = omega arith in
    if_split (IsGrown width needed) (ltb (2 * needed % 2 ^ 64) least)
      (λ e. record {
        enough = ground arith;
        counted = counted_whole width least (2 * needed + least) h (omega arith) s;
      })
      (λ e. rw whole (record {
        enough = omega arith;
        counted = counted_whole width (2 * needed) (2 * needed + least) h (omega arith) s;
      }))

module _ {ℓ} {A : Type ℓ} (min_allocation width : ℕ) (h : zero < width) where
  -- What `vector_reserve` gives: the vector as it was, only where there is no memory and the array is
  -- full, or room for the elements behind those that it had.
  pub data Reserves (room : Bool) (v : Vector A) (more : ℕ) : Option ℕ × Vector A → Type ℓ where
    unchanged : room ≡ false → v.capacity < v.size + more → Reserves room v more (none, v)
    reserved :
        {v' : Vector A}
        → IsVector v'
        → v'.size ≡ v.size
        → contents v' ≡ contents v
        → v.size + more ≤ v'.capacity
        → Reserves room v more (some v.size, v')

  -- `vector_reserve` on a vector that has not reached the largest size: it keeps the elements and has
  -- room for so many more behind them, or changes nothing, only where the array lacks room and there
  -- is no memory.
  pub vector_reserve-Reserves :
      (room : Bool) (stale : ℕ → A) (v : Vector A) (more : ℕ)
      → IsVector v
      → Small min_allocation width (v.size + more)
      → Reserves room v more (vector_reserve min_allocation width room stale v more)
  unfolding vector_reserve moved_cells
  vector_reserve-Reserves room stale v more i s =
      let wide = at_least_once width (2 * (v.size + more) + min_allocation) h in
      let whole : (v.size + more) % 2 ^ 64 ≡ v.size + more = omega arith in
      go room ((v.size + more) % 2 ^ 64) whole (ltb v.capacity ((v.size + more) % 2 ^ 64)) refl
    where
      go :
          (room : Bool) (needed : ℕ)
          → needed ≡ v.size + more
          → (b : Bool) → ltb v.capacity needed ≡ b
          → Reserves room v more (elim b [
            | false ↦ (some v.size, v)
            | true ↦ elim room [
              | false ↦ (none, v)
              | true ↦ (
                some v.size,
                record {
                  size = v.size;
                  capacity = grown_capacity min_allocation needed;
                  cells =
                      moved_cells min_allocation width stale
                        (grown_capacity min_allocation needed)
                        v;
                },
              )
            ]
          ])
      go room needed e false k = reserved i refl refl (ground arith)
      go false needed e true k = unchanged refl (ground arith)
      go true needed e true k =
          let grown =
            grown_capacity-IsGrown min_allocation width needed h
              (subst (Small min_allocation width) (sym e) s) in
          let held = length-take v.size v.cells (omega (arith, i.fits, i.sized)) in
          let behind = width * grown_capacity min_allocation needed % 2 ^ 64 / width - v.size in
          reserved
            (record {
              fits = omega (arith, grown.enough);
              sized = omega (
                arith,
                grown.enough,
                grown.counted,
                held,
                length-fresh stale behind,
                length-append (take v.size v.cells) (fresh stale behind),
              );
            })
            refl (take-append v.size v.cells _ (omega (arith, i.fits, i.sized)))
            (omega (arith, grown.enough))

  -- A push either puts the element behind the others, or there is no memory for it: then the vector
  -- has its array and its capacity still, but counts an element that is not there.
  pub data Pushes (room : Bool) (v : Vector A) (a : A) : Bool × Vector A → Type ℓ where
    pushed :
        {v' : Vector A}
        → IsVector v'
        → contents v' ≡ contents v ++ a ∷ []
        → Pushes room v a (true, v')
    overcounted :
        room ≡ false → v.size ≡ v.capacity → Pushes room v a (false, record v { size = v.size + 1 })

  -- `vector_push` on a vector that has not reached the largest size: the element is behind the others,
  -- in an array that has room for all, or, only where the array is full and there is no memory, the
  -- push fails. It then leaves the elements and the capacity, but counts one element more than the
  -- array has room for.
  pub vector_push-Pushes :
      (room : Bool) (stale : ℕ → A) (v : Vector A) (a : A)
      → IsVector v
      → Small min_allocation width (v.size + 1)
      → Pushes room v a (vector_push min_allocation width room stale v a)
  unfolding vector_push vector_emplace
  vector_push-Pushes room stale v a i s =
      let wide = at_least_once width (2 * (v.size + 1) + min_allocation) h in
      go (vector_reserve min_allocation width room stale v 1)
        (vector_reserve-Reserves room stale v 1 i s) (omega arith)
    where
      go :
          (r : Option ℕ × Vector A)
          → Reserves room v 1 r
          → (v.size + 1) % 2 ^ 64 ≡ v.size + 1
          → Pushes room v a (elim r.0 [
            | none ↦ (false, record r.1 { size = (r.1.size + 1) % 2 ^ 64 })
            | some place ↦ (
              true,
              record (record r.1 { size = (r.1.size + 1) % 2 ^ 64 }) {
                cells = set r.1.cells place a;
              },
            )
          ])
      go _ (unchanged k full) w = rw w (overcounted k (omega (arith, i.fits)))
      go _ (reserved {v' = v'} k e same l) w =
          let next : (v'.size + 1) % 2 ^ 64 ≡ suc v.size = omega arith in
          let there : take v.size v'.cells ≡ contents v =
            ap (λ n. take n v'.cells) (sym e) ∙ same in
          rw next (
            pushed (record { fits = omega arith; sized = length-set v'.cells v.size a ∙ k.sized })
              (take-set v.size v'.cells a (omega (arith, k.sized)) ∙ ap (λ xs. xs ++ a ∷ []) there))
