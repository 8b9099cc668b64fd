-- ===== src/Base/Spaces.antt =====
-- `strings.TrimSpace` and `bytes.TrimSpace`, on the UTF-8 bytes of a text.
use distributed_matchmaking.Base.Text.{Str}
use distributed_matchmaking.Base.Lists.{length}
use distributed_matchmaking.Base.Tests.{◌==◌}
use Prim.Native.Nat.{ℕ, zero, suc}
use mathlib.Core.List.{List, [], ◌∷◌, reverse}
use mathlib.Core.Option.{Option, some, none}
use mathlib.Core.Bool.{true, false}

-- The encodings of the runes that `unicode.IsSpace` accepts.
abbrev pub spaces : List Str
spaces =
    (0x09 ∷ [])
    ∷ (0x0A ∷ [])
    ∷ (0x0B ∷ [])
    ∷ (0x0C ∷ [])
    ∷ (0x0D ∷ [])
    ∷ (0x20 ∷ [])
    ∷ (0xC2 ∷ 0x85 ∷ [])
    ∷ (0xC2 ∷ 0xA0 ∷ [])
    ∷ (0xE1 ∷ 0x9A ∷ 0x80 ∷ [])
    ∷ (0xE2 ∷ 0x80 ∷ 0x80 ∷ [])
    ∷ (0xE2 ∷ 0x80 ∷ 0x81 ∷ [])
    ∷ (0xE2 ∷ 0x80 ∷ 0x82 ∷ [])
    ∷ (0xE2 ∷ 0x80 ∷ 0x83 ∷ [])
    ∷ (0xE2 ∷ 0x80 ∷ 0x84 ∷ [])
    ∷ (0xE2 ∷ 0x80 ∷ 0x85 ∷ [])
    ∷ (0xE2 ∷ 0x80 ∷ 0x86 ∷ [])
    ∷ (0xE2 ∷ 0x80 ∷ 0x87 ∷ [])
    ∷ (0xE2 ∷ 0x80 ∷ 0x88 ∷ [])
    ∷ (0xE2 ∷ 0x80 ∷ 0x89 ∷ [])
    ∷ (0xE2 ∷ 0x80 ∷ 0x8A ∷ [])
    ∷ (0xE2 ∷ 0x80 ∷ 0xA8 ∷ [])
    ∷ (0xE2 ∷ 0x80 ∷ 0xA9 ∷ [])
    ∷ (0xE2 ∷ 0x80 ∷ 0xAF ∷ [])
    ∷ (0xE2 ∷ 0x81 ∷ 0x9F ∷ [])
    ∷ (0xE3 ∷ 0x80 ∷ 0x80 ∷ [])
    ∷ []

unfoldable pub strip_prefix : Str → Str → Option Str
strip_prefix [] xs = some xs
strip_prefix (p ∷ ps) [] = none
strip_prefix (p ∷ ps) (x ∷ xs) = elim (p == x) [ true ↦ strip_prefix ps xs | false ↦ none ]

-- The text behind the first of some prefixes that it has.
unfoldable pub strip_any : List Str → Str → Option Str
unfolding strip_prefix
strip_any [] xs = none
strip_any (p ∷ ps) xs = elim (strip_prefix p xs) [ none ↦ strip_any ps xs | some rest ↦ some rest ]

-- Each space has a byte at least, so the length of the text is fuel enough.
unfoldable pub trim_front : List Str → ℕ → Str → Str
unfolding strip_any
trim_front encodings zero xs = xs
trim_front encodings (suc fuel) xs = elim (strip_any encodings xs) [
  | none ↦ xs
  | some rest ↦ trim_front encodings fuel rest
]

reversed : List Str → List Str
reversed [] = []
reversed (p ∷ ps) = reverse p ∷ reversed ps

unfoldable pub trim_space : Str → Str
unfolding trim_front reversed
trim_space xs =
    let front = trim_front spaces (length xs) xs in
    reverse (trim_front (reversed spaces) (length front) (reverse front))
