-- ===== src/Central/Slices/Cells.antt =====
-- What the slice operations do to the cells under any other header: what `range` sees of a slice
-- that its body changes.
use distributed_matchmaking.Base.{
  ℕ, zero, suc, ◌-◌, ◌≤◌, ◌<◌, ◌≡◌, ◌⊎◌, inl, inr, refl, sym, ap, ◌∙◌, List, [], ◌∷◌, ◌++◌, some,
  none, ltb, arith, length, get_elem?, take, drop, set, All, length-append, length-set, Bool-cases,
  ◌==◌, ==_iff, false,
}
use mathlib.Core.Option.{some-injective}
use mathlib.Core.Path.{subst}
use distributed_matchmaking.Central.Slices.{
  Slice, Heap, cells, append_one, shift_cells, cut, IsSlice,
}
use distributed_matchmaking.Central.Slices.Laws.{length-shift_cells, cells-set_self}

module _ {A : Type 0} where
  abbrev the_nil : List A
  the_nil = []

  get_elem?-set :
      (xs : List A) (i j : ℕ) (x c : A)
      → get_elem? (set xs i x) j ≡ some c
      → (x ≡ c) ⊎ (get_elem? xs j ≡ some c)
  get_elem?-set [] i j x c e = inr e
  get_elem?-set (y ∷ xs) zero zero x c e = inl (ground (arith, e))
  get_elem?-set (y ∷ xs) zero (suc j) x c e = inr e
  get_elem?-set (y ∷ xs) (suc i) zero x c e = inr e
  get_elem?-set (y ∷ xs) (suc i) (suc j) x c e = get_elem?-set xs i j x c e

  -- A cell after the shift is the old one or the next one, which is at `last` at most.
  get_elem?-shifted :
      (last : ℕ) (x : A) (xs : List A) (j : ℕ) (c : A)
      → get_elem? (take last xs ++ drop last (x ∷ xs)) j ≡ some c
      → (get_elem? (x ∷ xs) j ≡ some c) ⊎ ((suc j ≤ last) × (get_elem? (x ∷ xs) (suc j) ≡ some c))
  get_elem?-shifted zero x xs j c e = inl e
  get_elem?-shifted (suc zero) x [] j c e = ground (arith, e)
  get_elem?-shifted (suc (suc last)) x [] j c e = ground (arith, e)
  get_elem?-shifted (suc last) x (y ∷ xs) zero c e = inr (omega arith, e)
  get_elem?-shifted (suc last) x (y ∷ xs) (suc j) c e = elim (get_elem?-shifted last y xs j c e) [
    | inl here ↦ inl here
    | inr (le, next) ↦ inr (omega arith, next)
  ]

  take-nil : (n : ℕ) → take n (the_nil) ≡ the_nil
  take-nil zero = refl
  take-nil (suc n) = refl

  drop-nil : (n : ℕ) → drop n (the_nil) ≡ the_nil
  drop-nil zero = refl
  drop-nil (suc n) = refl

  shift_cells-nil : (i last : ℕ) → shift_cells i last (the_nil) ≡ the_nil
  unfolding shift_cells
  shift_cells-nil i last = simp (take-nil, drop-nil) refl

  get_elem?-shift_cells :
      (i last : ℕ) (xs : List A) (j : ℕ) (c : A)
      → i ≤ last
      → get_elem? (shift_cells i last xs) j ≡ some c
      → (get_elem? xs j ≡ some c) ⊎ ((suc j ≤ last) × (get_elem? xs (suc j) ≡ some c))
  unfolding shift_cells
  get_elem?-shift_cells zero last [] j c h e = ground (arith, shift_cells-nil 0 last, e)
  get_elem?-shift_cells zero last (x ∷ xs) j c h e =
      let same : last - 0 ≡ last = omega arith in
      get_elem?-shifted last x xs j c
        (subst (λ n. get_elem? (take n xs ++ drop last (x ∷ xs)) j ≡ some c) same e)
  get_elem?-shift_cells (suc i) zero xs j c h e = absurd (omega arith)
  get_elem?-shift_cells (suc i) (suc last) [] j c h e =
      ground (arith, shift_cells-nil (suc i) (suc last), e)
  get_elem?-shift_cells (suc i) (suc last) (x ∷ xs) zero c h e = inl e
  get_elem?-shift_cells (suc i) (suc last) (x ∷ xs) (suc j) c h e =
      let same : suc last - suc i ≡ last - i = omega arith in
      let e' =
        subst (λ n. get_elem? (take i xs ++ (take n (drop (suc i) xs) ++ drop last xs)) j ≡ some c)
          same e in
      elim (get_elem?-shift_cells i last xs j c (omega arith) e') [
        | inl here ↦ inl here
        | inr (le, next) ↦ inr (omega arith, next)
      ]

  cells-set_other :
      (h : Heap A) (a b : ℕ) (ys : List A) → (a == b) ≡ false → cells (set h a ys) b ≡ cells h b
  unfolding cells
  cells-set_other [] a b ys other = refl
  cells-set_other (xs ∷ h) zero zero ys other = ground (arith, other)
  cells-set_other (xs ∷ h) zero (suc b) ys other = refl
  cells-set_other (xs ∷ h) (suc a) zero ys other = refl
  cells-set_other (xs ∷ h) (suc a) (suc b) ys other =
      cells-set_other h a b ys (ground (arith, other))

  cells-old : (h : Heap A) (ys : List A) (b : ℕ) → b < length h → cells (h ++ ys ∷ []) b ≡ cells h b
  unfolding cells
  cells-old [] ys b small = absurd (omega arith)
  cells-old (xs ∷ h) ys zero small = refl
  cells-old (xs ∷ h) ys (suc b) small = cells-old h ys b (omega arith)

  module _ (P : A → Type 0) where
    -- The first cells that there are, up to a number, have a property.
    unfoldable pub Holds : ℕ → List A → Type 0
    Holds n xs = (j : ℕ) (c : A) → j < n → get_elem? xs j ≡ some c → P c

    pub All-Holds : (n : ℕ) (xs : List A) → All P (take n xs) → Holds n xs
    unfolding Holds
    All-Holds zero xs all j c h e = absurd (omega arith)
    All-Holds (suc n) [] all j c h e = ground (arith, e)
    All-Holds (suc n) (x ∷ xs) (here, more) zero c h e = subst P (some-injective _ _ e) here
    All-Holds (suc n) (x ∷ xs) (here, more) (suc j) c h e = All-Holds n xs more j c (omega arith) e

    set-Holds : (n i : ℕ) (x : A) (xs : List A) → P x → Holds n xs → Holds n (set xs i x)
    unfolding Holds
    set-Holds n i x xs new old j c h e = elim (get_elem?-set xs i j x c e) [
      | inl same ↦ subst P same new
      | inr here ↦ old j c h here
    ]

    shift_cells-Holds :
        (n i last : ℕ) (xs : List A)
        → i ≤ last
        → Holds (suc last) xs
        → Holds n xs
        → Holds n (shift_cells i last xs)
    unfolding Holds
    shift_cells-Holds n i last xs le front old j c h e =
        elim (get_elem?-shift_cells i last xs j c le e) [
          | inl here ↦ old j c h here
          | inr (le', next) ↦ front (suc j) c (omega arith) next
        ]

    -- A slice whose elements have the property.
    pub record Sound (h : Heap A) (t : Slice) : Type 0 where
      pub is_slice : IsSlice h t
      pub holds : Holds t.len (cells h t.arr)

    -- Whatever sound headers there are stay sound.
    unfoldable pub Kept : Heap A → Heap A → Type 0
    Kept h h' = (t : Slice) → Sound h t → Sound h' t

    located :
        (h : Heap A) (t : Slice) (ys : List A)
        → t.arr < length h
        → cells h t.arr ≡ ys
        → t.len ≤ length ys
        → Holds t.len ys
        → Sound h t
    located h t ys allocated e le holds = record {
      is_slice = record { allocated = allocated; within = rw e le };
      holds = subst (Holds t.len) (sym e) holds;
    }

    fresh-Kept : (h : Heap A) (ys : List A) → Kept h (h ++ ys ∷ [])
    unfolding Kept
    fresh-Kept h ys t sound =
        located (h ++ ys ∷ []) t (cells h t.arr) (omega (arith, length-append h (ys ∷ [])))
          (cells-old h ys t.arr sound.is_slice.allocated) sound.is_slice.within sound.holds

    set-Kept :
        (h : Heap A) (a : ℕ) (ys : List A)
        → a < length h
        → length ys ≡ length (cells h a)
        → ((n : ℕ) → Holds n (cells h a) → Holds n ys)
        → Kept h (set h a ys)
    unfolding Kept
    set-Kept h a ys small size keep t sound =
        let allocated : t.arr < length (set h a ys) = omega (arith, length-set h a ys) in
        elim (Bool-cases (a == t.arr)) [
          | inl same ↦
              let e : a ≡ t.arr = (==_iff a t.arr).0 same in
              located (set h a ys) t ys allocated
                (ap (cells (set h a ys)) (sym e) ∙ cells-set_self h a ys small)
                (rw (size, e) sound.is_slice.within) (keep t.len (rw e sound.holds))
          | inr other ↦
              located (set h a ys) t (cells h t.arr) allocated (cells-set_other h a t.arr ys other)
                sound.is_slice.within sound.holds
        ]

    -- `append` and the removal of an element.
    pub append_one-Kept :
        (grow : ℕ → ℕ) (blank : A) (h : Heap A) (s : Slice) (x : A)
        → IsSlice h s
        → P x
        → Kept h (append_one grow blank h s x).0
    unfolding append_one
    append_one-Kept grow blank h s x v new =
        elim (Bool-cases (ltb s.len (length (cells h s.arr)))) [
          | inl room ↦
              rw (room, append_one)
                (set-Kept h s.arr (set (cells h s.arr) s.len x) v.allocated
                  (length-set (cells h s.arr) s.len x)
                  (λ n. set-Holds n s.len x (cells h s.arr) new))
          | inr full ↦ rw (full, append_one) (fresh-Kept h _)
        ]

    pub cut-Kept :
        (h h' : Heap A) (s s' : Slice) (i : ℕ) → Sound h s → cut h s i ≡ some (h', s') → Kept h h'
    unfolding cut
    cut-Kept h h' s s' i sound e = elim (Bool-cases (ltb i s.len)) [
      | inl inside ↦
          let shifted = shift_cells i (s.len - 1) (cells h s.arr) in
          let done : cut h s i ≡ some (set h s.arr shifted, record s { len = s.len - 1 }) =
            rw (inside, cut) refl in
          let last : s.len ≡ suc (s.len - 1) = ground arith in
          subst (Kept h) (ap (λ r. r.0) (some-injective _ _ (sym done ∙ e))) (
            set-Kept h s.arr shifted sound.is_slice.allocated
              (length-shift_cells i (s.len - 1) (cells h s.arr) (ground arith)
                (omega (arith, last, sound.is_slice.within)))
              (λ n.
                shift_cells-Holds n i (s.len - 1) (cells h s.arr) (ground arith)
                  (subst (λ m. Holds m (cells h s.arr)) last sound.holds)))
      | inr outside ↦
          let refused : cut h s i ≡ none = rw (outside, cut) refl in ground (arith, refused, e)
    ]

    pub Kept-refl : (h : Heap A) → Kept h h
    unfolding Kept
    Kept-refl h t sound = sound

    pub Kept-trans : (h h' h'' : Heap A) → Kept h h' → Kept h' h'' → Kept h h''
    unfolding Kept
    Kept-trans h h' h'' k l t sound = l t (k t sound)
