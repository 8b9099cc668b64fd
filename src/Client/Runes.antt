-- ===== src/Client/Runes.antt =====
-- How `range` decodes the UTF-8 of a string, for `splitMessages` of Client/client/client.go.
use distributed_matchmaking.Base.{
  ℕ, zero, suc, ◌+◌, ◌*◌, ◌-◌, ◌%◌, ◌≤◌, ◌≡◌, [], ◌∷◌, Bool, ◌&&◌, true, leb, ltb, ◌==◌,
  if◌then◌else◌, Bool-cases, ◌⊎◌, inl, inr, refl, Str, arith,
}

abbrev pub within : ℕ → ℕ → ℕ → Bool
within low high x = leb low x && leb x high

-- `utf8.RuneError`, which `range` yields for one byte that begins no rune.
abbrev pub rune_error : ℕ × ℕ
rune_error = (0xFFFD, 1)

-- The runes of two, three and four bytes behind the first byte; the second byte has narrower bounds
-- after some first bytes.
unfoldable pub two_bytes : ℕ → Str → ℕ × ℕ
two_bytes c [] = rune_error
two_bytes c (x ∷ _) = if within 0x80 0xBF x then (c % 32 * 64 + x % 64, 2) else rune_error

unfoldable pub three_bytes : ℕ → Str → ℕ × ℕ
three_bytes c (x ∷ y ∷ _) =
    let low = if c == 0xE0 then 0xA0 else 0x80 in
    let high = if c == 0xED then 0x9F else 0xBF in
    if within low high x && within 0x80 0xBF y
    then (c % 16 * 4096 + x % 64 * 64 + y % 64, 3)
    else rune_error
three_bytes c _ = rune_error

unfoldable pub four_bytes : ℕ → Str → ℕ × ℕ
four_bytes c (x ∷ y ∷ z ∷ _) =
    let low = if c == 0xF0 then 0x90 else 0x80 in
    let high = if c == 0xF4 then 0x8F else 0xBF in
    if within low high x && (within 0x80 0xBF y && within 0x80 0xBF z)
    then (c % 8 * 262144 + x % 64 * 4096 + y % 64 * 64 + z % 64, 4)
    else rune_error
four_bytes c _ = rune_error

-- The rune that begins with a byte, and its width.
unfoldable pub decode_rune : ℕ → Str → ℕ × ℕ
unfolding two_bytes three_bytes four_bytes
decode_rune c rest =
    if ltb c 0x80
    then (c, 1)
    else if within 0xC2 0xDF c
    then two_bytes c rest
    else if within 0xE0 0xEF c
    then three_bytes c rest
    else if within 0xF0 0xF4 c
    then four_bytes c rest
    else rune_error

-- The first bytes of a text are none of ASCII.
unfoldable pub HighFirst : ℕ → Str → Type 0
HighFirst zero xs = Unit {0}
HighFirst (suc n) [] = Unit {0}
HighFirst (suc n) (x ∷ xs) = (0x80 ≤ x) × HighFirst n xs

abbrev pub IsHigh : Str → ℕ × ℕ → Type 0
IsHigh rest (rune, width) = (0x80 ≤ rune) × HighFirst (width - 1) rest

two_bytes-IsHigh : (c : ℕ) (rest : Str) → within 0xC2 0xDF c ≡ true → IsHigh rest (two_bytes c rest)
unfolding two_bytes HighFirst
two_bytes-IsHigh c [] h = (omega arith, tt)
two_bytes-IsHigh c (x ∷ rest) h = ground arith

three_bytes-IsHigh :
    (c : ℕ) (rest : Str) → within 0xE0 0xEF c ≡ true → IsHigh rest (three_bytes c rest)
unfolding three_bytes HighFirst
three_bytes-IsHigh c [] h = (omega arith, tt)
three_bytes-IsHigh c (x ∷ []) h = (omega arith, tt)
three_bytes-IsHigh c (x ∷ y ∷ rest) h = ground arith

four_bytes-IsHigh :
    (c : ℕ) (rest : Str) → within 0xF0 0xF4 c ≡ true → IsHigh rest (four_bytes c rest)
unfolding four_bytes HighFirst
four_bytes-IsHigh c [] h = (omega arith, tt)
four_bytes-IsHigh c (x ∷ []) h = (omega arith, tt)
four_bytes-IsHigh c (x ∷ y ∷ []) h = (omega arith, tt)
four_bytes-IsHigh c (x ∷ y ∷ z ∷ rest) h = ground arith

-- A byte of ASCII is a rune of one byte; any other byte begins a rune that is not of ASCII, and whose
-- further bytes are not either.
pub decode_rune-cases :
    (c : ℕ) (rest : Str)
    → (((decode_rune c rest).0 ≡ c) × ((decode_rune c rest).1 - 1 ≡ 0))
      ⊎ ((0x80 ≤ c) × IsHigh rest (decode_rune c rest))
unfolding decode_rune
decode_rune-cases c rest = elim (Bool-cases (ltb c 0x80)) [
  | inl ascii ↦ inl (rw ascii (refl, refl))
  | inr high ↦ inr (
    ground arith,
    rw high (elim (Bool-cases (within 0xC2 0xDF c)) [
      | inl e ↦ rw e (two_bytes-IsHigh c rest e)
      | inr not_two ↦ rw not_two (elim (Bool-cases (within 0xE0 0xEF c)) [
        | inl e ↦ rw e (three_bytes-IsHigh c rest e)
        | inr not_three ↦ rw not_three (elim (Bool-cases (within 0xF0 0xF4 c)) [
          | inl e ↦ rw e (four_bytes-IsHigh c rest e)
          | inr not_four ↦ rw not_four (omega arith, unfold HighFirst in tt)
        ])
      ])
    ]),
  )
]
