-- ===== src/Central/Slices.antt =====
-- Go slices over shared backing arrays, as far as Central's store uses them: every slice begins
-- at the start of its array, `append` writes in place while there is capacity and moves to a
-- fresh array otherwise, and `append(s[:i], s[i+1:]...)` shifts the array's cells.
-- The spare cells of a fresh array, which the Go runtime chooses, are the argument `grow`.
pub mod Laws
pub mod Cells
use distributed_matchmaking.Base.{
  ℕ, zero, suc, ◌-◌, ◌≤◌, ◌<◌, List, [], ◌∷◌, ◌++◌, Option, none, some, ltb, if◌then◌else◌, length,
  get_elem?, set, take, drop, replicate,
}

pub record Slice : Type 0 where
  pub arr : ℕ
  pub len : ℕ

-- The arrays allocated so far, each with all its cells: its length is the capacity.
abbrev pub Heap : Type 0 → Type 0
Heap A = List (List A)

module _ {A : Type 0} where
  unfoldable pub cells : Heap A → ℕ → List A
  cells [] a = []
  cells (xs ∷ h) zero = xs
  cells (xs ∷ h) (suc a) = cells h a

  -- The elements that a slice shows.
  unfoldable pub elements : Heap A → Slice → List A
  unfolding cells
  elements h s = take s.len (cells h s.arr)

  -- `s[i]` for `i` below the captured length: the cell as it is now.
  unfoldable pub cell_at : Heap A → Slice → ℕ → Option A
  unfolding cells
  cell_at h s i = get_elem? (cells h s.arr) i

  -- `append(s, x)`
  unfoldable pub append_one : (ℕ → ℕ) → A → Heap A → Slice → A → Heap A × Slice
  unfolding cells
  append_one grow blank h s x =
      if ltb s.len (length (cells h s.arr))
      then (set h s.arr (set (cells h s.arr) s.len x), record s { len = suc s.len })
      else (
        h ++ (take s.len (cells h s.arr) ++ x ∷ replicate (grow (suc s.len)) blank) ∷ [],
        record { arr = length h; len = suc s.len },
      )

  -- The cells after `append(s[:i], s[i+1:]...)` on a slice whose last index is `last`.
  unfoldable pub shift_cells : ℕ → ℕ → List A → List A
  shift_cells i last xs = take i xs ++ (take (last - i) (drop (suc i) xs) ++ drop last xs)

  -- `s = append(s[:i], s[i+1:]...)`; `none` is the panic of `s[i+1:]` out of range.
  unfoldable pub cut : Heap A → Slice → ℕ → Option (Heap A × Slice)
  unfolding cells shift_cells
  cut h s i =
      if ltb i s.len
      then some
          (set h s.arr (shift_cells i (s.len - 1) (cells h s.arr)), record s { len = s.len - 1 })
      else none

  -- The slice lies in an allocated array and within its capacity.
  pub record IsSlice (h : Heap A) (s : Slice) : Type 0 where
    pub allocated : s.arr < length h
    pub within : s.len ≤ length (cells h s.arr)
