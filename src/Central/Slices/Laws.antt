-- ===== src/Central/Slices/Laws.antt =====
-- What the slice operations do to the elements that a slice shows.
use distributed_matchmaking.Base.{
  ℕ, zero, suc, ◌-◌, ◌≤◌, ◌<◌, ◌≡◌, refl, sym, ap, List, [], ◌∷◌, ◌++◌, some, arith, length,
  get_elem?, take, drop, set, replicate, length-append, length-set, length-take, length-drop,
}
use distributed_matchmaking.Central.Slices.{
  Slice, Heap, cells, elements, cell_at, append_one, shift_cells, cut, IsSlice,
}

module _ {A : Type 0} where
  pub cells-set_self : (h : Heap A) (a : ℕ) (xs : List A) → a < length h → cells (set h a xs) a ≡ xs
  unfolding cells
  cells-set_self [] a xs p = absurd (omega arith)
  cells-set_self (ys ∷ h) zero xs p = refl
  cells-set_self (ys ∷ h) (suc a) xs p = cells-set_self h a xs (omega arith)

  cells-fresh : (h : Heap A) (xs : List A) → cells (h ++ xs ∷ []) (length h) ≡ xs
  unfolding cells
  cells-fresh [] xs = refl
  cells-fresh (ys ∷ h) xs = cells-fresh h xs

  take-set :
      (n : ℕ) (xs : List A) (x : A)
      → n < length xs
      → take (suc n) (set xs n x) ≡ take n xs ++ x ∷ []
  take-set n [] x p = absurd (omega arith)
  take-set zero (y ∷ xs) x p = refl
  take-set (suc n) (y ∷ xs) x p = ap (◌∷◌ y) (take-set n xs x (omega arith))

  take-front : (n : ℕ) (xs ys : List A) → n ≤ length xs → take n (take n xs ++ ys) ≡ take n xs
  take-front zero xs ys p = refl
  take-front (suc n) [] ys p = absurd (omega arith)
  take-front (suc n) (x ∷ xs) ys p = ap (◌∷◌ x) (take-front n xs ys (omega arith))

  take_more :
      (n : ℕ) (xs : List A) (x : A) (ys : List A)
      → n ≤ length xs
      → take (suc n) (take n xs ++ x ∷ ys) ≡ take n xs ++ x ∷ []
  take_more zero xs x ys p = refl
  take_more (suc n) [] x ys p = absurd (omega arith)
  take_more (suc n) (y ∷ xs) x ys p = ap (◌∷◌ y) (take_more n xs x ys (omega arith))

  -- The list without its element at an index.
  abbrev pub remove_at : ℕ → List A → List A
  remove_at i xs = take i xs ++ drop (suc i) xs

  take-shift_cells :
      (i m : ℕ) (xs : List A)
      → i ≤ m
      → m < length xs
      → take m (shift_cells i m xs) ≡ remove_at i (take (suc m) xs)
  unfolding shift_cells
  take-shift_cells i m [] p q = absurd (omega arith)
  take-shift_cells zero m (x ∷ xs) p q =
      let e : m - 0 ≡ m = omega arith in rw e (take-front m xs _ (omega arith))
  take-shift_cells (suc i) zero (x ∷ xs) p q = absurd (omega arith)
  take-shift_cells (suc i) (suc m) (x ∷ xs) p q =
      let e : suc m - suc i ≡ m - i = omega arith in
      rw e (ap (◌∷◌ x) (take-shift_cells i m xs (omega arith) (omega arith)))

  pub length-shift_cells :
      (i m : ℕ) (xs : List A) → i ≤ m → m < length xs → length (shift_cells i m xs) ≡ length xs
  unfolding shift_cells
  length-shift_cells i m xs p q =
      rw (length-append, length-append)
        (omega (
          arith,
          length-take i xs,
          length-take (m - i) (drop (suc i) xs),
          length-drop (suc i) xs,
          length-drop m xs,
        ))

  -- `append` shows the old elements and the new one, in place or in a fresh array.
  pub elements-append_one :
      (grow : ℕ → ℕ) (blank : A) (h : Heap A) (s : Slice) (x : A)
      → IsSlice h s
      → elements (append_one grow blank h s x).0 (append_one grow blank h s x).1
        ≡ elements h s ++ x ∷ []
  unfolding elements append_one
  elements-append_one grow blank h s x v = ground (
    arith,
    cells-set_self h s.arr (set (cells h s.arr) s.len x),
    take-set s.len (cells h s.arr) x,
    cells-fresh h (take s.len (cells h s.arr) ++ x ∷ replicate (grow (suc s.len)) blank),
    take_more s.len (cells h s.arr) x (replicate (grow (suc s.len)) blank),
  )

  pub append_one-IsSlice :
      (grow : ℕ → ℕ) (blank : A) (h : Heap A) (s : Slice) (x : A)
      → IsSlice h s
      → IsSlice (append_one grow blank h s x).0 (append_one grow blank h s x).1
  unfolding append_one
  append_one-IsSlice grow blank h s x v = ground (
    arith,
    length-set h s.arr (set (cells h s.arr) s.len x),
    cells-set_self h s.arr (set (cells h s.arr) s.len x),
    length-set (cells h s.arr) s.len x,
    cells-fresh h (take s.len (cells h s.arr) ++ x ∷ replicate (grow (suc s.len)) blank),
    length-append h ((take s.len (cells h s.arr) ++ x ∷ replicate (grow (suc s.len)) blank) ∷ []),
    length-append (take s.len (cells h s.arr)) (x ∷ replicate (grow (suc s.len)) blank),
    length-take s.len (cells h s.arr),
  )

  -- Cutting out index `i` of the slice removes that element and no other.
  pub cut_lem :
      (h : Heap A) (s : Slice) (i : ℕ)
      → IsSlice h s
      → i < s.len
      → (h' : Heap A) × (s' : Slice) × (cut h s i ≡ some (h', s'))
        × IsSlice h' s'
        × (elements h' s' ≡ remove_at i (elements h s))
  unfolding cut elements
  cut_lem h s i v p =
      let shifted = shift_cells i (s.len - 1) (cells h s.arr) in
      let kept = cells-set_self h s.arr shifted v.allocated in
      let size = length-shift_cells i (s.len - 1) (cells h s.arr) (omega arith) (omega arith) in
      (
        set h s.arr shifted,
        record s { len = s.len - 1 },
        ground arith,
        record {
          allocated = rw (length-set h s.arr shifted) v.allocated;
          within = rw (kept, size) (omega arith);
        },
        ground (arith, kept, take-shift_cells i (s.len - 1) (cells h s.arr)),
      )

  pub length-elements : (h : Heap A) (s : Slice) → IsSlice h s → length (elements h s) ≡ s.len
  unfolding elements
  length-elements h s v = omega (arith, length-take s.len (cells h s.arr))

  get_elem?-take : (n i : ℕ) (xs : List A) → i < n → get_elem? (take n xs) i ≡ get_elem? xs i
  get_elem?-take zero i xs p = absurd (omega arith)
  get_elem?-take (suc n) i [] p = refl
  get_elem?-take (suc n) zero (x ∷ xs) p = refl
  get_elem?-take (suc n) (suc i) (x ∷ xs) p = get_elem?-take n i xs (omega arith)

  -- Reading through a header gives the element that it shows.
  pub cell_at-elements :
      (h : Heap A) (s : Slice) (i : ℕ) → i < s.len → cell_at h s i ≡ get_elem? (elements h s) i
  unfolding cell_at elements
  cell_at-elements h s i p = sym (get_elem?-take s.len i (cells h s.arr) p)

  remove_at-last : (n : ℕ) (xs : List A) → remove_at n (take (suc n) xs) ≡ take n xs
  remove_at-last zero [] = refl
  remove_at-last zero (x ∷ xs) = refl
  remove_at-last (suc n) [] = refl
  remove_at-last (suc n) (x ∷ xs) = ap (◌∷◌ x) (remove_at-last n xs)

  -- Reslicing to one less removes the last element.
  pub elements-reslice :
      (h : Heap A) (s : Slice) (i : ℕ)
      → s.len ≡ suc i
      → elements h (record s { len = i }) ≡ remove_at i (elements h s)
  unfolding elements
  elements-reslice h s i e = rw e (sym (remove_at-last i (cells h s.arr)))
