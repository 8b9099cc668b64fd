-- ===== src/Base/Text.antt =====
-- Go strings and byte slices: sequences of bytes, compared by `==`.
use Prim.Native.Char.{code}
use Prim.Native.Nat.{ℕ}
use Prim.Native.String.{String}
use mathlib.Core.Bool.{Bool, true, false, ◌&&◌, ◌||◌}
use mathlib.Core.List.{List, [], ◌∷◌, ◌++◌, append_assoc}
use mathlib.Core.Logic.{◌↔◌}
use mathlib.Core.Path.{◌≡◌, refl, sym, ap, ◌∙◌}
use native.Mathlib.Omega.{arith}
use distributed_matchmaking.Base.Tests.{◌==◌}
use distributed_matchmaking.Base.Lists.{All}

abbrev pub Str : Type 0
Str = List ℕ

-- The bytes of an ASCII literal of the source.
abbrev pub bytes : String → Str
bytes String.[] = []
bytes (String.◌∷◌ c s) = code c ∷ bytes s

unfoldable pub str_eq : Str → Str → Bool
str_eq [] [] = true
str_eq (x ∷ xs) (y ∷ ys) = x == y && str_eq xs ys
str_eq [] (y ∷ ys) = false
str_eq (x ∷ xs) [] = false

pub str_eq_iff : (s t : Str) → (str_eq s t ≡ true) ↔ (s ≡ t)
unfolding str_eq
str_eq_iff [] [] = ground arith
str_eq_iff (x ∷ xs) (y ∷ ys) = ground (arith, str_eq_iff xs ys)
str_eq_iff [] (y ∷ ys) = ground arith
str_eq_iff (x ∷ xs) [] = ground arith

pub str_eq_refl : (s : Str) → str_eq s s ≡ true
str_eq_refl s = (str_eq_iff s s).1 refl

-- Whether a list of strings holds a string.
unfoldable pub member : Str → List Str → Bool
member s [] = false
member s (t ∷ ts) = str_eq t s || member s ts

-- No byte of the text is the one named.
unfoldable pub Lacks : ℕ → Str → Type 0
Lacks d xs = All (λ c. (c == d) ≡ false) xs

unfoldable pub concat : List Str → Str
concat [] = []
concat (chunk ∷ chunks) = chunk ++ concat chunks

-- Parts, each ended by a delimiter.
unfoldable pub joined : ℕ → List Str → Str
joined delimiter [] = []
joined delimiter (part ∷ parts) = part ++ (delimiter ∷ joined delimiter parts)

pub joined-append : (d : ℕ) (xs ys : List Str) → joined d (xs ++ ys) ≡ joined d xs ++ joined d ys
unfolding joined
joined-append d [] ys = refl
joined-append d (part ∷ parts) ys =
    ap (λ rest. part ++ (d ∷ rest)) (joined-append d parts ys)
    ∙ sym (append_assoc part (d ∷ joined d parts) (joined d ys))
